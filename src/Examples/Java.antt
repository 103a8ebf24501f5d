-- ===== src/Examples/Java.antt =====
-- The theorems on the Java class Coredump.
use open_core_sdk.Prelude.{
  ℕ, ◌≡◌, ◌≢◌, ◌⊎◌, refl, true, false, arith, List, [], ◌∷◌, Option, none, some,
}
use open_core_sdk.Opencore.{has_bit, filter_non_read_vma}
use open_core_sdk.Opencore.Filter.{codes}
use open_core_sdk.Sdk.Strings.{
  core_filter_to_string, core_flag_to_string, append_names, append_name,
}
use open_core_sdk.Sdk.Strings.Laws.{set_names, filter_titles, core_filter_to_string-set_names}
use open_core_sdk.Sdk.CrashHandler
use open_core_sdk.Sdk.Members
use open_core_sdk.Sdk.Members.{Coredump}
use open_core_sdk.Jni.Methods.{
  native_init, native_enable, native_disable, native_is_enabled, native_set_timeout,
  native_get_timeout, native_version, native_get_dir, native_get_flag, native_get_filter,
}
use open_core_sdk.Opencore.Handlers
use open_core_sdk.Process.{set_callback, on_instance, get_timeout, get_dir, get_flag, get_filter}
use open_core_sdk.Opencore.DumpName.{set_timeout, digits}
use open_core_sdk.Examples.Processes.{app, java, no_user, system}
use open_core_sdk.Sdk.Protocol.{
  Sdk, Config, Action, Reach, start, next, step, init, call, send, take_work, call_back,
  clear_completed, send_completed, take_post, interrupt, native_returns, notify_core, wake,
}
use open_core_sdk.Sdk.Protocol.Turns.{uninterrupted, state_of, in_listener}
use open_core_sdk.Sdk.Protocol.Laws.{InOrder, Ends, returns-InOrder, do_coredump-Ends}

-- FILTER_NON_READ_VMA with three others.
core_filter_to_string-set_names_example :
    ((has_bit 57 filter_non_read_vma ≡ false)
      × (core_filter_to_string 57 ≡ set_names 57 filter_titles))
    ⊎ ((has_bit 57 filter_non_read_vma ≡ true)
        × (core_filter_to_string 57 ≢ set_names 57 filter_titles))
core_filter_to_string-set_names_example = core_filter_to_string-set_names 57 (omega arith)

core_filter_to_string_test : core_filter_to_string 17 ≡ codes "FILTER_SPECIAL_VMA|FLAG_TID"
unfolding core_filter_to_string append_names append_name
core_filter_to_string_test = refl

core_flag_to_string_test : core_flag_to_string 5 ≡ codes "FLAG_CORE|FLAG_PID"
unfolding core_flag_to_string append_names append_name
core_flag_to_string_test = refl

-- The listener runs, and calls a synchronized method.
abbrev stuck : Sdk
stuck = state_of in_listener 0 false false

stuck-Reach : Reach (uninterrupted true true) stuck
unfolding step
stuck-Reach =
    next
      (next
        (next (next (next (next (next start call refl) send refl) take_work refl) call_back refl)
          clear_completed refl)
        send_completed refl)
      take_post refl

returns-InOrder_example : InOrder stuck
returns-InOrder_example = returns-InOrder true true stuck-Reach

do_coredump-Ends_example : Ends true true 12 stuck
do_coredump-Ends_example = do_coredump-Ends true true stuck-Reach

-- A thread that is interrupted in waitCore: the call behind it returns true at the end of the dump
-- of the first, and its own dump is not done.
abbrev run : Config → List Action → Sdk → Option Sdk
run c [] s = some s
run c (a ∷ rest) s = elim (step c a s) [ none ↦ none | some t ↦ run c rest t ]

abbrev interruptible : Config
interruptible = record (uninterrupted false false) { interruptible = true }

interrupted_test :
    run interruptible
      (call ∷ send ∷ take_work ∷ interrupt ∷ call ∷ send ∷ native_returns ∷ notify_core ∷ wake ∷ [])
      init
    ≡ some (record init {
      coredumped = true;
      work_queue = 1 ∷ [];
      dumps = 0 ∷ [];
      returns = (1, true) ∷ (0, false) ∷ [];
      requests = 2;
    })
unfolding step
interrupted_test = refl

-- A class that has not been initialised, in a process with a handler of Java crashes.
abbrev blank : Coredump ℕ
blank = record {
  ready = false;
  core_work = false;
  post_work = false;
  listener = none;
  crash = record { default_handler = none; current = some 3 };
  user = no_user;
  process = app;
}

abbrev initialised : Coredump ℕ
initialised = (Members.init java true blank).1

-- Both kinds of handlers are installed and taken back; before init nothing is.
enable_test :
    (((Members.enable system 9 Members.java blank).0 ≡ false)
      × ((Members.init java false blank).0 ≡ false))
    × (let c1 = (Members.enable system 9 Members.java initialised).1 in
        let c2 = (Members.enable system 9 Members.native c1).1 in
        let c3 = (Members.disable system 9 Members.java c2).1 in
        let c4 = (Members.disable system 9 Members.native c3).1 in
        (Members.is_enabled system 9 Members.java c2 ≡ true)
        × (Members.is_enabled system 9 Members.native c2 ≡ true)
        × (Members.is_enabled system 9 Members.java c4 ≡ false)
        × (Members.is_enabled system 9 Members.native c4 ≡ false)
        × (c4.crash.current ≡ some 3))
unfolding Members.init Members.enable Members.disable Members.is_enabled native_init native_enable
    native_disable native_is_enabled Handlers.enable Handlers.disable Handlers.is_enabled
    Handlers.store_old CrashHandler.enable CrashHandler.disable CrashHandler.is_enabled set_callback
    on_instance
enable_test = ((refl, refl), (refl, refl, refl, refl, refl))

-- A timeout that is not above zero is passed over, and so is one before init.
set_core_timeout_test :
    (Members.get_core_timeout (Members.set_core_timeout 30 initialised) ≡ 30)
    × (Members.get_core_timeout (Members.set_core_timeout 30 blank) ≡ 120)
unfolding Members.init Members.set_core_timeout Members.get_core_timeout native_init
    native_set_timeout native_get_timeout set_callback on_instance set_timeout get_timeout
set_core_timeout_test = (refl, refl)

-- A class in use, and one that is not.
coredump_text_test :
    (Members.coredump_text java 9 initialised
      ≡ codes
          "Coredump[1,,FLAG_CORE|FLAG_PROCESS_COMM|FLAG_PID|FLAG_TIMESTAMP,FILTER_NONE,false,false,120]")
    × (Members.coredump_text java 9 blank ≡ codes "Coredump[NOT READY!!]")
unfolding Members.coredump_text Members.init native_init native_version native_get_dir get_dir
    set_callback on_instance core_flag_to_string native_get_flag get_flag append_names append_name
    core_filter_to_string native_get_filter get_filter native_get_timeout get_timeout
    native_is_enabled Handlers.is_enabled CrashHandler.is_enabled digits
coredump_text_test = (refl, refl)
