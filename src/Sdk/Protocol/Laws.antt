-- ===== src/Sdk/Protocol/Laws.antt =====
-- What doCoredump answers, and whether it comes back
-- (opencore/src/main/java/penguin/opencore/sdk/Coredump.java).
use open_core_sdk.Prelude.{
  ℕ, zero, suc, ◌≡◌, ◌⊎◌, inl, inr, refl, sym, subst, Bool, true, false, List, [], ◌∷◌, Option,
  none, some, All,
}
use open_core_sdk.Sdk.Protocol.{
  Sdk, Config, Action, step, Reach, outside, listening, call, send, wake, interrupt, take_work,
  call_back, clear_completed, send_completed, wake_callback, native_returns, notify_core, take_post,
  run_listener, notify_completed,
}
use open_core_sdk.Sdk.Protocol.Turns.{
  uninterrupted, before, succeeded, Turn, state_of, away, asked, queued, dumps_core, called,
  to_post, posted, in_listener, heard, told, goes_back, dumped, notified, Reach-AtTurn,
}

-- The calls below some number have returned, each with true, and their dumps are done, and at most
-- the dump of the call behind them.
abbrev pub InOrder : Sdk → Type 0
InOrder s =
    (k : ℕ) × (s.returns ≡ succeeded (before k))
    × ((s.dumps ≡ before k) ⊎ (s.dumps ≡ before (suc k)))

turn-InOrder : (t : Turn) (n : ℕ) (b c : Bool) → InOrder (state_of t n b c)
turn-InOrder dumped n b c = (n, refl, inr refl)
turn-InOrder notified n b c = (n, refl, inr refl)
turn-InOrder t n b c = (n, refl, inl refl)

-- When the class is ready and nobody interrupts a call of doCoredump, in whatever order the threads
-- take their steps, each call that has returned has answered true, once and in the order of the
-- calls, with its own nativeCoredump done before, and at most one more dump is done.
pub returns-InOrder :
    (listener synchronized : Bool) {s : Sdk}
    → Reach (uninterrupted listener synchronized) s
    → InOrder s
returns-InOrder l sy r =
    let (t, n, b, c, e) = Reach-AtTurn l sy r in subst InOrder (sym e) (turn-InOrder t n b c)

abbrev add : Option Sdk → List Sdk → List Sdk
add none states = states
add (some s) states = s ∷ states

-- The states after one step of any thread.
unfoldable pub successors_by : Config → List Action → Sdk → List Sdk
successors_by c [] s = []
successors_by c (a ∷ rest) s = add (step c a s) (successors_by c rest s)

abbrev pub actions : List Action
actions =
    call ∷ send ∷ wake ∷ interrupt ∷ take_work ∷ call_back ∷ clear_completed ∷ send_completed
    ∷ wake_callback ∷ native_returns ∷ notify_core ∷ take_post ∷ run_listener ∷ notify_completed
    ∷ []

abbrev pub successors : Bool → Bool → Sdk → List Sdk
successors l sy = successors_by (uninterrupted l sy) actions

-- No call is on its way; or the listener, which calls a synchronized method, runs, and no thread can
-- take a step any more.
abbrev pub IsOver : Bool → Bool → Sdk → Type 0
IsOver l sy s =
    (s.caller ≡ outside)
    ⊎ ((sy ≡ true) × ((n : ℕ) × (s.post ≡ listening n)) × (successors l sy s ≡ []))

-- Every run comes to such a state within so many steps, and does not stop before.
abbrev pub Ends : Bool → Bool → ℕ → Sdk → Type 0
Ends l sy zero s = IsOver l sy s
Ends l sy (suc m) s =
    IsOver l sy s
    ⊎ (((t : Sdk) × (ts : List Sdk) × (successors l sy s ≡ t ∷ ts))
        × All (λ t. Ends l sy m t) (successors l sy s))

-- From each turn on, with the number of steps that are left.
module _ (l sy : Bool) (n : ℕ) (b : Bool) where
  away-Ends : (m k : ℕ) (d c : Bool) → Ends l sy m (state_of away k d c)
  away-Ends zero k d c = inl refl
  away-Ends (suc m) k d c = inl (inl refl)

  notified-Ends : (m : ℕ) (c : Bool) → Ends l sy (suc m) (state_of notified n b c)
  unfolding step successors_by
  notified-Ends m c = inr ((_, _, refl), (away-Ends m (suc n) true c, tt))

  dumped-Ends : (m : ℕ) (c : Bool) → Ends l sy (suc (suc m)) (state_of dumped n b c)
  unfolding step successors_by
  dumped-Ends m c = inr ((_, _, refl), (notified-Ends m c, tt))

  goes_back-Ends : (m : ℕ) (c : Bool) → Ends l sy (suc (suc (suc m))) (state_of goes_back n b c)
  unfolding step successors_by
  goes_back-Ends m c = inr ((_, _, refl), (dumped-Ends m c, tt))

  told-Ends : (m : ℕ) (c : Bool) → Ends l sy (suc (suc (suc (suc m)))) (state_of told n b c)
  unfolding step successors_by
  told-Ends m c = inr ((_, _, refl), (goes_back-Ends m true, tt))

  heard-Ends : (m : ℕ) (c : Bool) → Ends l sy (suc (suc (suc (suc (suc m))))) (state_of heard n b c)
  unfolding step successors_by
  heard-Ends m c = inr ((_, _, refl), (told-Ends m c, tt))

pub in_listener-Ends :
    (l sy : Bool) (n : ℕ) (b : Bool) (m : ℕ) (c : Bool)
    → Ends l sy (suc (suc (suc (suc (suc (suc m)))))) (state_of in_listener n b c)
unfolding step successors_by
in_listener-Ends l true n b m c = inl (inr (refl, (n, refl), refl))
in_listener-Ends l false n b m c = inr ((_, _, refl), (heard-Ends l false n b m c, tt))

posted-Ends :
    (l sy : Bool) (n : ℕ) (b : Bool) (m : ℕ) (c : Bool)
    → Ends l sy (suc (suc (suc (suc (suc (suc (suc m))))))) (state_of posted n b c)
unfolding step successors_by
posted-Ends l sy n b m c = inr ((_, _, refl), (in_listener-Ends l sy n b m c, tt))

to_post-Ends :
    (l sy : Bool) (n : ℕ) (b : Bool) (m : ℕ) (c : Bool)
    → Ends l sy (suc (suc (suc (suc (suc (suc (suc (suc m)))))))) (state_of to_post n b c)
unfolding step successors_by
to_post-Ends l sy n b m c = inr ((_, _, refl), (posted-Ends l sy n b m c, tt))

called-Ends :
    (l sy : Bool) (n : ℕ) (b : Bool) (m : ℕ) (c : Bool)
    → Ends l sy (suc (suc (suc (suc (suc (suc (suc (suc (suc m))))))))) (state_of called n b c)
unfolding step successors_by
called-Ends true sy n b m c = inr ((_, _, refl), (to_post-Ends true sy n b m c, tt))
called-Ends false sy n b m c =
    inr ((_, _, refl), (goes_back-Ends false sy n b (suc (suc (suc (suc (suc m))))) c, tt))

dumps_core-Ends :
    (l sy : Bool) (n : ℕ) (b : Bool) (m : ℕ) (c : Bool)
    → Ends l sy
        (suc (suc (suc (suc (suc (suc (suc (suc (suc (suc m))))))))))
        (state_of dumps_core n b c)
unfolding step successors_by
dumps_core-Ends l sy n b m c = inr (
  (_, _, refl),
  (
    called-Ends l sy n b m c,
    (dumped-Ends l sy n b (suc (suc (suc (suc (suc (suc (suc m))))))) c, tt),
  ),
)

queued-Ends :
    (l sy : Bool) (n : ℕ) (b : Bool) (m : ℕ) (c : Bool)
    → Ends l sy
        (suc (suc (suc (suc (suc (suc (suc (suc (suc (suc (suc m)))))))))))
        (state_of queued n b c)
unfolding step successors_by
queued-Ends l sy n b m c = inr ((_, _, refl), (dumps_core-Ends l sy n b m c, tt))

asked-Ends :
    (l sy : Bool) (n : ℕ) (b : Bool) (m : ℕ) (c : Bool)
    → Ends l sy
        (suc (suc (suc (suc (suc (suc (suc (suc (suc (suc (suc (suc m))))))))))))
        (state_of asked n b c)
unfolding step successors_by
asked-Ends l sy n b m c = inr ((_, _, refl), (queued-Ends l sy n b m c, tt))

turn-Ends : (l sy : Bool) (t : Turn) (n : ℕ) (b c : Bool) → Ends l sy 12 (state_of t n b c)
turn-Ends l sy away n b c = away-Ends l sy n b 12 n b c
turn-Ends l sy asked n b c = asked-Ends l sy n b 0 c
turn-Ends l sy queued n b c = queued-Ends l sy n b 1 c
turn-Ends l sy dumps_core n b c = dumps_core-Ends l sy n b 2 c
turn-Ends l sy called n b c = called-Ends l sy n b 3 c
turn-Ends l sy to_post n b c = to_post-Ends l sy n b 4 c
turn-Ends l sy posted n b c = posted-Ends l sy n b 5 c
turn-Ends l sy in_listener n b c = in_listener-Ends l sy n b 6 c
turn-Ends l sy heard n b c = heard-Ends l sy n b 7 c
turn-Ends l sy told n b c = told-Ends l sy n b 8 c
turn-Ends l sy goes_back n b c = goes_back-Ends l sy n b 9 c
turn-Ends l sy dumped n b c = dumped-Ends l sy n b 10 c
turn-Ends l sy notified n b c = notified-Ends l sy n b 11 c

-- When the class is ready and nobody interrupts a call of doCoredump, then from any state that the
-- threads come to, in whatever order they take their steps, they go on until within twelve steps no
-- call is on its way, or the listener runs and calls a synchronized method: then no thread can take
-- a step any more. Without such a listener every call returns.
pub do_coredump-Ends :
    (listener synchronized : Bool) {s : Sdk}
    → Reach (uninterrupted listener synchronized) s
    → Ends listener synchronized 12 s
do_coredump-Ends l sy r =
    let (t, n, b, c, e) = Reach-AtTurn l sy r in
    subst (Ends l sy 12) (sym e) (turn-Ends l sy t n b c)
