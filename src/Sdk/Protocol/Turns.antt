-- ===== src/Sdk/Protocol/Turns.antt =====
-- Without interrupts the threads of Sdk/Protocol take turns: what the whole state is at each turn
-- (opencore/src/main/java/penguin/opencore/sdk/Coredump.java).
use open_core_sdk.Prelude.{
  ℕ, zero, suc, ◌≡◌, refl, sym, ap, ◌∙◌, Bool, true, false, List, [], ◌∷◌, map, none, some,
}
use open_core_sdk.Sdk.Protocol.{
  Sdk, Config, Action, step, Reach, start, next, outside, cleared, waiting, resting, dumping,
  completing, posting, awaiting, returning, notifying, free, listening, listened, call, send, wake,
  interrupt, take_work, call_back, clear_completed, send_completed, wake_callback, native_returns,
  notify_core, take_post, run_listener, notify_completed,
}

-- The class is ready, and nobody interrupts the thread in waitCore.
abbrev pub uninterrupted : Bool → Bool → Config
uninterrupted listener synchronized = record {
  ready = true;
  listener = listener;
  synchronized = synchronized;
  interruptible = false;
}

-- How far the call with the number `n` is.
pub data Turn : Type 0 where
  away : Turn
  asked : Turn
  queued : Turn
  dumps_core : Turn
  called : Turn
  to_post : Turn
  posted : Turn
  in_listener : Turn
  heard : Turn
  told : Turn
  goes_back : Turn
  dumped : Turn
  notified : Turn

-- The calls below `n`, the last one first.
abbrev pub before : ℕ → List ℕ
before zero = []
before (suc n) = n ∷ before n

abbrev pub succeeded : List ℕ → List (ℕ × Bool)
succeeded ns = map (λ n. (n, true)) ns

-- While no call is on its way, `b` and `c` are the bits of `mCondition`.
abbrev quiet : ℕ → Bool → Bool → Sdk
quiet n b c = record {
  coredumped = b;
  completed = c;
  caller = outside;
  work = resting;
  post = free;
  work_queue = [];
  post_queue = [];
  dumps = before n;
  returns = succeeded (before n);
  requests = n;
}

-- The call is in waitCore, with the bit of nativeCoredump clear.
abbrev busy : ℕ → Bool → Sdk
busy n c = record (quiet n false c) { caller = waiting n; requests = suc n }

abbrev pub state_of : Turn → ℕ → Bool → Bool → Sdk
state_of away n b c = quiet n b c
state_of asked n b c = record (busy n c) { caller = cleared n }
state_of queued n b c = record (busy n c) { work_queue = n ∷ [] }
state_of dumps_core n b c = record (busy n c) { work = dumping n }
state_of called n b c = record (busy n c) { work = completing n }
state_of to_post n b c = record (busy n false) { work = posting n }
state_of posted n b c = record (busy n false) { work = awaiting n; post_queue = n ∷ [] }
state_of in_listener n b c = record (busy n false) { work = awaiting n; post = listening n }
state_of heard n b c = record (busy n false) { work = awaiting n; post = listened n }
state_of told n b c = record (busy n true) { work = awaiting n }
state_of goes_back n b c = record (busy n c) { work = returning n }
state_of dumped n b c = record (busy n c) { work = notifying n; dumps = n ∷ before n }
state_of notified n b c = record (busy n c) { coredumped = true; dumps = n ∷ before n }

abbrev pub AtTurn : Sdk → Type 0
AtTurn s = (t : Turn) × (n : ℕ) × (b : Bool) × (c : Bool) × (s ≡ state_of t n b c)

some-injective {ℓ} : {A : Type ℓ} {x y : A} → some x ≡ some y → x ≡ y
some-injective {x = x} e = ap (λ o. elim o [ none ↦ x | some z ↦ z ]) e

-- Every step leads from one turn to the next one.
step-AtTurn :
    (l sy : Bool) (a : Action) (t : Turn) (n : ℕ) (b c : Bool) {s : Sdk}
    → step (uninterrupted l sy) a (state_of t n b c) ≡ some s
    → AtTurn s
unfolding step
step-AtTurn l sy call away n b c h = (asked, n, b, c, sym (some-injective h))
step-AtTurn l sy send asked n b c h = (queued, n, b, c, sym (some-injective h))
step-AtTurn l sy take_work queued n b c h = (dumps_core, n, b, c, sym (some-injective h))
step-AtTurn l sy call_back dumps_core n b c h = (called, n, b, c, sym (some-injective h))
step-AtTurn l sy native_returns dumps_core n b c h = (dumped, n, b, c, sym (some-injective h))
step-AtTurn true sy clear_completed called n b c h = (to_post, n, b, c, sym (some-injective h))
step-AtTurn false sy clear_completed called n b c h = (goes_back, n, b, c, sym (some-injective h))
step-AtTurn l sy send_completed to_post n b c h = (posted, n, b, c, sym (some-injective h))
step-AtTurn l sy take_post posted n b c h = (in_listener, n, b, c, sym (some-injective h))
step-AtTurn l false run_listener in_listener n b c h = (heard, n, b, c, sym (some-injective h))
step-AtTurn l sy notify_completed heard n b c h = (told, n, b, c, sym (some-injective h))
step-AtTurn l sy wake_callback told n b c h = (goes_back, n, b, true, sym (some-injective h))
step-AtTurn l sy native_returns goes_back n b c h = (dumped, n, b, c, sym (some-injective h))
step-AtTurn l sy notify_core dumped n b c h = (notified, n, b, c, sym (some-injective h))
step-AtTurn l sy wake notified n b c h = (away, suc n, true, c, sym (some-injective h))
step-AtTurn l true run_listener away n b c h = cc
step-AtTurn l sy interrupt away n b c h = cc
step-AtTurn l sy a t n b c h = cc

pub Reach-AtTurn : (l sy : Bool) {s : Sdk} → Reach (uninterrupted l sy) s → AtTurn s
Reach-AtTurn l sy start = (away, 0, false, false, refl)
Reach-AtTurn l sy (next r a h) =
    let (t, n, b, c, e) = Reach-AtTurn l sy r in
    step-AtTurn l sy a t n b c (ap (step (uninterrupted l sy) a) (sym e) ∙ h)
