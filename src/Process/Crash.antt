-- ===== src/Process/Crash.antt =====
-- Opencore::Dump in the parent and Opencore::HandleSignal
-- (opencore/src/main/cpp/opencore/opencore.cpp): what they do to the process, and the calls of
-- Coredump, of the callback and of `raise`, in order.
pub mod Restored
pub mod Calls
pub mod Raised
use open_core_sdk.Prelude.{
  ℕ, ◌-◌, ◌^◌, Bool, List, [], ◌∷◌, ◌++◌, Option, none, some, ◌==◌, if◌then◌else◌, get_elem?,
}
use open_core_sdk.Opencore.{Opencore, Context}
use open_core_sdk.Opencore.Handlers.{Sigaction, Handlers, disable}
use open_core_sdk.Opencore.DumpName.{DumpOption, Names, dump}
use open_core_sdk.Lp.{OpencoreImpl}

-- PR_SET_PTRACER_ANY, an `unsigned long`.
abbrev pub ptracer_any : ℕ
ptracer_any = 2 ^ 64 - 1

-- The system around the process: what `sigaction`, `prctl` and the files of Dump answer, who asks,
-- and the two values of `struct sigaction` that the program makes.
pub record System (A : Type 0) : Type 0 where
  pub sigaction : Sigaction
  pub takes_dumpable : ℕ → Bool
  pub takes_ptracer : ℕ → Bool
  pub names : Names
  pub getpid : ℕ
  pub gettid : ℕ
  pub stact : A
  pub zero_action : A

-- `instance_` is what GetInstance returns.
pub record Process (A : Type 0) : Type 0 where
  pub instance_ : Option OpencoreImpl
  pub handlers : Handlers A
  pub dumpable : ℕ
  pub ptracer : ℕ

-- A call of Coredump, with the object and the actions that the child takes over and the process's
-- PR_GET_DUMPABLE and tracer; a call of the callback; and a signal that is raised, with the
-- process's action for it.
pub data Event (A : Type 0) : Type 0 where
  coredump : List ℕ → Process A → Event A
  called_back : ℕ → List ℕ → Event A
  raised : ℕ → Option A → Event A

module _ {A : Type 0} (os : System A) where
  -- `prctl(PR_SET_DUMPABLE, value)`.
  unfoldable pub set_dumpable : ℕ → Process A → Process A
  set_dumpable value p = if os.takes_dumpable value then record p { dumpable = value } else p

  -- `prctl(PR_SET_PTRACER, value)`.
  unfoldable pub set_ptracer : ℕ → Process A → Process A
  set_ptracer value p = if os.takes_ptracer value then record p { ptracer = value } else p

  -- `if (need_restore_…) prctl(…)`, the one and the other.
  unfoldable pub restore : ℕ → Process A → Process A
  restore ori_dumpable p =
      let p' = if os.takes_dumpable 1 then set_dumpable ori_dumpable p else p in
      if os.takes_ptracer ptracer_any then set_ptracer 0 p' else p'

  unfoldable pub callback_calls : Option ℕ → List ℕ → List (Event A)
  callback_calls none output = []
  callback_calls (some callback) output = called_back callback output ∷ []

  -- Dump from the first `prctl` on; `s` is the object with the members set.
  unfoldable pub dump_as : Option (List ℕ) → OpencoreImpl → Process A → List (Event A) × Process A
  dump_as none s p = ([], p)
  dump_as (some output) s p =
      let p1 = record p { instance_ = some s } in
      let p2 = set_ptracer ptracer_any (set_dumpable 1 p1) in
      (coredump output p2 ∷ callback_calls s.cb output, restore p.dumpable p2)

  -- Dump with an object, or with none.
  unfoldable pub dump_instance :
      Option DumpOption → Option OpencoreImpl → Process A → List (Event A) × Process A
  dump_instance option none p = ([], p)
  dump_instance option (some s) p =
      let (output, base) = dump os.names option s.base in
      dump_as output (record s { base = base }) p

  -- Opencore::Dump(DumpOption*).
  unfoldable pub dump_option : Option DumpOption → Process A → List (Event A) × Process A
  dump_option option p = dump_instance option p.instance_ p

  abbrev pub own_option : DumpOption
  own_option = record {
    filename = none;
    pid = os.getpid;
    tid = os.gettid;
    siginfo = none;
    context = none;
  }

  -- Opencore::Dump().
  unfoldable pub dump_self : Process A → List (Event A) × Process A
  dump_self = dump_option (some own_option)

  -- Opencore::Dump(const char*); a null pointer is `none`.
  unfoldable pub dump_file : Option (List ℕ) → Process A → List (Event A) × Process A
  dump_file filename = dump_option (some (record own_option { filename = filename }))

  -- Opencore::Dump(const char*, int).
  unfoldable pub dump_thread : Option (List ℕ) → ℕ → Process A → List (Event A) × Process A
  dump_thread filename tid =
      dump_option (some (record own_option { filename = filename; tid = tid }))

  -- Opencore::Dump(siginfo_t*, void*).
  unfoldable pub dump_signal :
      Option (List ℕ) → Option Context → Process A → List (Event A) × Process A
  dump_signal siginfo context =
      dump_option (some (record own_option { siginfo = siginfo; context = context }))

  -- Opencore::HandleSignal, for the signal at an index of `kExceptionSignals`. The raised signal is
  -- blocked until the handler returns, and nothing else changes its action in between.
  unfoldable pub handle_signal :
      ℕ → Option (List ℕ) → Option Context → Process A → List (Event A) × Process A
  handle_signal signal siginfo context p =
      let p1 = record p { handlers = (disable os.sigaction os.zero_action p.handlers).1 } in
      let (events, p2) = dump_signal siginfo context p1 in
      (events ++ (raised signal (get_elem? p2.handlers.actions signal) ∷ []), p2)
