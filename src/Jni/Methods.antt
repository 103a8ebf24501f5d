-- ===== src/Jni/Methods.antt =====
-- The native methods of the Java class Coredump, nativeInit, and the constructor and destructor of
-- the injected library (opencore/src/main/cpp/opencore_jni.cpp).
use mathlib.Core.Option
use open_core_sdk.Prelude.{ℕ, Bool, true, false, List, Option, none, some, if◌then◌else◌}
use open_core_sdk.Opencore.{
  flag_core, flag_process_comm, flag_pid, flag_timestamp, filter_special_vma,
  filter_sanitizer_shadow_vma, filter_non_read_vma, filter_signal_context,
}
use open_core_sdk.Prelude.{bit_or}
use open_core_sdk.Opencore.Handlers.{enable, disable, is_enabled}
use open_core_sdk.Opencore.DumpName.{set_timeout}
use open_core_sdk.Lp.{OpencoreImpl}
use open_core_sdk.Process.{
  on_instance, set_dir, set_callback, set_flag, set_filter, get_dir, get_flag, get_timeout,
  get_filter,
}
use open_core_sdk.Process.Crash.{System, Process, Event, dump_thread}
use open_core_sdk.Jni.{Machine, Userdata}

-- A static function that sets something in the object.
abbrev pub with_instance :
    {A : Type 0} → (Option OpencoreImpl → Option OpencoreImpl) → Process A → Process A
with_instance f p = record p { instance_ = f p.instance_ }

-- penguin_opencore_sdk_Coredump_nativeVersion.
unfoldable pub native_version : {J : Type 0} → Machine J → J
native_version vm = vm.new_string_utf vm.version

module _ {A J : Type 0} (os : System A) (vm : Machine J) where
  -- penguin_opencore_sdk_Coredump_nativeCoredump.
  unfoldable pub native_coredump : ℕ → Option J → Process A → Bool × List (Event A) × Process A
  native_coredump tid filename p =
      let (events, p') = dump_thread os (Option.map vm.get_string_utf_chars filename) tid p in
      (true, events, p')

module _ {A : Type 0} (os : System A) where
  -- penguin_opencore_sdk_Coredump_nativeEnable.
  unfoldable pub native_enable : Process A → Bool × Process A
  native_enable p =
      let (ok, handlers) = enable os.sigaction os.stact p.handlers in
      (ok, record p { handlers = handlers })

  -- penguin_opencore_sdk_Coredump_nativeDisable.
  unfoldable pub native_disable : Process A → Bool × Process A
  native_disable p =
      let (ok, handlers) = disable os.sigaction os.zero_action p.handlers in
      (ok, record p { handlers = handlers })

module _ {A J : Type 0} (vm : Machine J) where
  -- penguin_opencore_sdk_Coredump_nativeSetDir.
  unfoldable pub native_set_dir : Option J → Process A → Process A
  native_set_dir none p = p
  native_set_dir (some dir) p = with_instance (set_dir (vm.get_string_utf_chars dir)) p

  -- penguin_opencore_sdk_Coredump_nativeGetDir.
  unfoldable pub native_get_dir : Process A → J
  native_get_dir p = vm.new_string_utf (get_dir p.instance_)

  -- Java_penguin_opencore_sdk_Coredump_nativeInit.
  unfoldable pub native_init : Userdata → Process A → Bool × Userdata × Process A
  native_init user p =
      let user' = record user { g_coredump = vm.new_global_ref } in
      if vm.registers
      then (
        true,
        record user' { g_callback_event = vm.get_static_method_id },
        with_instance (set_callback vm.callback) p,
      )
      else (false, user', p)

module _ {A : Type 0} where
  -- penguin_opencore_sdk_Coredump_nativeSetFlag.
  unfoldable pub native_set_flag : ℕ → Process A → Process A
  native_set_flag flag = with_instance (set_flag flag)

  -- penguin_opencore_sdk_Coredump_nativeSetTimeout.
  unfoldable pub native_set_timeout : ℕ → Process A → Process A
  native_set_timeout sec = with_instance (on_instance (set_timeout sec))

  -- penguin_opencore_sdk_Coredump_nativeSetFilter.
  unfoldable pub native_set_filter : ℕ → Process A → Process A
  native_set_filter filter = with_instance (set_filter filter)

  -- penguin_opencore_sdk_Coredump_nativeIsEnabled.
  unfoldable pub native_is_enabled : Process A → Bool
  native_is_enabled p = is_enabled p.handlers

  -- penguin_opencore_sdk_Coredump_nativeGetFlag.
  unfoldable pub native_get_flag : Process A → ℕ
  native_get_flag p = get_flag p.instance_

  -- penguin_opencore_sdk_Coredump_nativeGetTimeout.
  unfoldable pub native_get_timeout : Process A → ℕ
  native_get_timeout p = get_timeout p.instance_

  -- penguin_opencore_sdk_Coredump_nativeGetFilter.
  unfoldable pub native_get_filter : Process A → ℕ
  native_get_filter p = get_filter p.instance_

-- FLAG_CORE | FLAG_PROCESS_COMM | FLAG_PID | FLAG_TIMESTAMP.
abbrev pub inject_flag : ℕ
inject_flag = bit_or (bit_or (bit_or flag_core flag_process_comm) flag_pid) flag_timestamp

-- FILTER_SPECIAL_VMA | FILTER_SANITIZER_SHADOW_VMA | FILTER_NON_READ_VMA | FILTER_SIGNAL_CONTEXT.
abbrev pub inject_filter : ℕ
inject_filter =
    bit_or (bit_or (bit_or filter_special_vma filter_sanitizer_shadow_vma) filter_non_read_vma)
      filter_signal_context

module _ {A : Type 0} (os : System A) where
  -- opencore_ctor_init; `dir` is what the build defines as INJECT_OPENCORE_DIR.
  unfoldable pub opencore_ctor_init : List ℕ → Process A → Process A
  opencore_ctor_init dir p =
      let p1 = with_instance (set_dir dir) p in
      let p2 = with_instance (on_instance (set_timeout 180)) p1 in
      let p3 = with_instance (set_flag inject_flag) p2 in
      let p4 = with_instance (set_filter inject_filter) p3 in
      record p4 { handlers = (enable os.sigaction os.stact p4.handlers).1 }

  -- opencore_dtor_init.
  unfoldable pub opencore_dtor_init : Process A → Process A
  opencore_dtor_init p = record p { handlers = (disable os.sigaction os.zero_action p.handlers).1 }
