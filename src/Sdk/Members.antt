-- ===== src/Sdk/Members.antt =====
-- The methods of class Coredump but for doCoredump
-- (opencore/src/main/java/penguin/opencore/sdk/Coredump.java), over the native methods and the
-- handler of uncaught exceptions. An `int` of Java goes by its 32-bit pattern.
use open_core_sdk.Prelude.{
  ℕ, ◌-◌, ◌^◌, Bool, true, false, List, [], ◌∷◌, ◌++◌, Option, none, some, ◌&&◌, ◌==◌, ltb,
  if◌then◌else◌,
}
use open_core_sdk.Opencore.Filter.{codes}
use open_core_sdk.Opencore.DumpName.{to_string}
use open_core_sdk.Sdk.Strings.{core_flag_to_string, core_filter_to_string}
use open_core_sdk.Opencore.{def_timeout, filter_none}
use open_core_sdk.Process.Crash.{System, Process}
use open_core_sdk.Jni.{Machine, Userdata}
use open_core_sdk.Jni.Methods.{
  native_init, native_version, native_enable, native_disable, native_is_enabled, native_set_dir,
  native_set_flag, native_set_timeout, native_set_filter, native_get_dir, native_get_flag,
  native_get_timeout, native_get_filter,
}
use open_core_sdk.Sdk.CrashHandler
use open_core_sdk.Sdk.CrashHandler.{CrashHandler}

-- `sReady`, whether `mCoredumpWork` and `mCoredumpPostWork` are set, `mListener`, the handler of Java
-- crashes with what it changes, and the native side.
pub record Coredump (A : Type 0) : Type 0 where
  pub ready : Bool
  pub core_work : Bool
  pub post_work : Bool
  pub listener : Option ℕ
  pub crash : CrashHandler
  pub user : Userdata
  pub process : Process A

abbrev pub java : ℕ
java = 1

abbrev pub native : ℕ
native = 2

-- A method that answers and changes the native side.
abbrev on_process : {A : Type 0} → Coredump A → Bool × Process A → Bool × Coredump A
on_process c (ok, p) = (ok, record c { process = p })

abbrev on_crash : {A : Type 0} → Coredump A → Bool × CrashHandler → Bool × Coredump A
on_crash c (ok, h) = (ok, record c { crash = h })

module _ {A J : Type 0} (vm : Machine J) where
  -- The end of init, when nativeInit has answered: the two threads are started and the class is
  -- ready.
  after_init : Coredump A → Bool × Userdata × Process A → Bool × Coredump A
  after_init c (false, user, p) = (false, record c { user = user; process = p })
  after_init c (true, user, p) = (
    true,
    record c { ready = true; core_work = true; post_work = true; user = user; process = p },
  )

  -- init; `linked` is false where nativeInit throws UnsatisfiedLinkError.
  unfoldable pub init : Bool → Coredump A → Bool × Coredump A
  unfolding after_init
  init linked c =
      if c.core_work && c.post_work
      then (c.ready, c)
      else if linked
      then after_init c (native_init vm c.user c.process)
      else (c.ready, c)

module _ {A : Type 0} (os : System A) (this : ℕ) where
  -- enable.
  unfoldable pub enable : ℕ → Coredump A → Bool × Coredump A
  enable type c =
      if c.ready
      then (if type == java
          then on_crash c (CrashHandler.enable this c.crash)
          else if type == native
          then on_process c (native_enable os c.process)
          else (false, c))
      else (false, c)

  -- disable.
  unfoldable pub disable : ℕ → Coredump A → Bool × Coredump A
  disable type c =
      if c.ready
      then (if type == java
          then on_crash c (CrashHandler.disable this c.crash)
          else if type == native
          then on_process c (native_disable os c.process)
          else (false, c))
      else (false, c)

  -- isEnabled.
  unfoldable pub is_enabled : ℕ → Coredump A → Bool
  is_enabled type c =
      if c.ready
      then (if type == java
          then CrashHandler.is_enabled this c.crash
          else if type == native
          then native_is_enabled c.process
          else false)
      else false

module _ {A J : Type 0} (vm : Machine J) where
  -- setCoreDir.
  unfoldable pub set_core_dir : Option J → Coredump A → Coredump A
  set_core_dir none c = c
  set_core_dir (some dir) c =
      if c.ready then record c { process = native_set_dir vm (some dir) c.process } else c

  -- getCoreDir; `empty` is the empty string.
  unfoldable pub get_core_dir : J → Coredump A → J
  get_core_dir empty c = if c.ready then native_get_dir vm c.process else empty

  -- getVersion; `unknown` is the string of that name.
  unfoldable pub get_version : J → Coredump A → J
  get_version unknown c = if c.ready then native_version vm else unknown

module _ {A : Type 0} where
  -- setCoreFlag.
  unfoldable pub set_core_flag : ℕ → Coredump A → Coredump A
  set_core_flag flag c =
      if c.ready then record c { process = native_set_flag flag c.process } else c

  -- setCoreTimeout.
  unfoldable pub set_core_timeout : ℕ → Coredump A → Coredump A
  set_core_timeout sec c =
      if c.ready then record c { process = native_set_timeout sec c.process } else c

  -- setCoreFilter.
  unfoldable pub set_core_filter : ℕ → Coredump A → Coredump A
  set_core_filter filter c =
      if c.ready then record c { process = native_set_filter filter c.process } else c

  -- getCoreFlag.
  unfoldable pub get_core_flag : Coredump A → ℕ
  get_core_flag c = if c.ready then native_get_flag c.process else 0

  -- getCoreTimeout.
  unfoldable pub get_core_timeout : Coredump A → ℕ
  get_core_timeout c = if c.ready then native_get_timeout c.process else def_timeout

  -- getCoreFilter.
  unfoldable pub get_core_filter : Coredump A → ℕ
  get_core_filter c = if c.ready then native_get_filter c.process else filter_none

  -- setListener.
  unfoldable pub set_listener : Option ℕ → Coredump A → Coredump A
  set_listener listener c = record c { listener = listener }

-- What uncaughtException calls after disable, in order.
pub data LastCall : Type 0 where
  call_do_coredump : LastCall
  kill_process : LastCall
  exit : ℕ → LastCall

module _ {A : Type 0} (this : ℕ) where
  -- JavaCrashHandler.uncaughtException.
  unfoldable pub uncaught_exception : Coredump A → List LastCall × Coredump A
  uncaught_exception c = (
    call_do_coredump ∷ kill_process ∷ exit 10 ∷ [],
    record c { crash = (CrashHandler.disable this c.crash).1 },
  )

-- What `append` makes of a Boolean and of an `int`.
abbrev pub boolean_text : Bool → List ℕ
boolean_text true = codes "true"
boolean_text false = codes "false"

abbrev pub int_text : ℕ → List ℕ
int_text n = if ltb n (2 ^ 31) then to_string n else b'-' ∷ to_string (2 ^ 32 - n)

module _ {A J : Type 0} (vm : Machine J) (this : ℕ) where
  -- toString, byte by byte.
  unfoldable pub coredump_text : Coredump A → List ℕ
  coredump_text c =
      codes "Coredump["
      ++ (if c.ready
          then (vm.get_string_utf_chars (native_version vm)
              ++ (codes ","
                  ++ (vm.get_string_utf_chars (native_get_dir vm c.process)
                      ++ (codes ","
                          ++ (core_flag_to_string (native_get_flag c.process)
                              ++ (codes ","
                                  ++ (core_filter_to_string (native_get_filter c.process)
                                      ++ (codes ","
                                          ++ (boolean_text (CrashHandler.is_enabled this c.crash)
                                              ++ (codes ","
                                                  ++ (boolean_text (native_is_enabled c.process)
                                                      ++ (codes ","
                                                          ++ (int_text
                                                            (native_get_timeout c.process)
                                                            ++ codes "]")))))))))))))
          else codes "NOT READY!!]")
