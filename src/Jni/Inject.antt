-- ===== src/Jni/Inject.antt =====
-- The constructor and the destructor of the injected library
-- (opencore/src/main/cpp/opencore_jni.cpp).
use open_core_sdk.Prelude.{ℕ, ◌≡◌, ap, true, false, List, map, some, length}
use open_core_sdk.Opencore.Handlers.{is_enabled}
use open_core_sdk.Opencore.Handlers.Laws.{disable-enable}
use open_core_sdk.Opencore.DumpName.{set_timeout}
use open_core_sdk.Lp.{OpencoreImpl}
use open_core_sdk.Process.{
  on_instance, set_dir, set_flag, set_filter, get_dir, get_flag, get_timeout, get_filter,
}
use open_core_sdk.Process.Crash.{System, Process}
use open_core_sdk.Jni.Methods.{inject_flag, inject_filter, opencore_ctor_init, opencore_dtor_init}

module _ {A : Type 0} (os : System A) where
  -- The object after the constructor.
  abbrev injected : List ℕ → OpencoreImpl → OpencoreImpl
  injected dir s = record s {
    base = record (s.base) { dir = dir; timeout = 180; flag = inject_flag; filter = inject_filter };
  }

  set_up :
      (dir : List ℕ) (p : Process A) (s : OpencoreImpl)
      → p.instance_ ≡ some s
      → (opencore_ctor_init os dir p).instance_ ≡ some (injected dir s)
  unfolding opencore_ctor_init on_instance set_dir set_flag set_filter set_timeout
  set_up dir p s e =
      ap
        (λ i.
          set_filter inject_filter
            (set_flag inject_flag (on_instance (set_timeout 180) (set_dir dir i))))
        e

  -- With an object, when the handlers are not installed and `sigaction` does not fail, the library's
  -- constructor sets the directory, a timeout of 180 seconds, the flags for the name
  -- core.COMM_PID_TIME (39) and the filters 57, and puts the library's action on every signal; its
  -- destructor then gives every signal the action from before, and leaves the handlers uninstalled.
  pub dtor-ctor :
      (dir : List ℕ) (p : Process A) (s : OpencoreImpl)
      → p.instance_ ≡ some s
      → ((j : ℕ) → os.sigaction.queries j ≡ true)
      → ((j : ℕ) → os.sigaction.sets j ≡ true)
      → is_enabled p.handlers ≡ false
      → length p.handlers.g_restore_action ≡ length p.handlers.actions
      → let p' = opencore_ctor_init os dir p in
        let p'' = opencore_dtor_init os p' in
        (get_dir p'.instance_ ≡ dir)
        × (get_timeout p'.instance_ ≡ 180)
        × (get_flag p'.instance_ ≡ 39)
        × (get_filter p'.instance_ ≡ 57)
        × (p'.handlers.actions ≡ map (λ a. os.stact) p.handlers.actions)
        × (p''.handlers.actions ≡ p.handlers.actions)
        × (is_enabled p''.handlers ≡ false)
  unfolding opencore_ctor_init opencore_dtor_init get_dir get_timeout get_flag get_filter is_enabled
  dtor-ctor dir p s e queries sets off l =
      let i = set_up dir p s e in
      let (_, installed, _, disabled, restored) =
        disable-enable os.sigaction os.stact os.zero_action p.handlers queries sets off l in
      (
        ap get_dir i,
        ap get_timeout i,
        ap get_flag i,
        ap get_filter i,
        installed,
        restored,
        disabled,
      )
