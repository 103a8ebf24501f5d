-- ===== src/Jni.antt =====
-- The native side of the Java class Coredump (opencore/src/main/cpp/opencore_jni.cpp): the native
-- methods, their table, nativeInit, the callback into Java, and the constructor and destructor of
-- the injected library. An `int` of Java goes by its 32-bit pattern.
pub mod Methods
pub mod Table
pub mod Settings
pub mod Callback
pub mod Inject
use mathlib.Core.Option
use open_core_sdk.Prelude.{
  ℕ, ◌+◌, Bool, true, false, ◌&&◌, List, [], ◌∷◌, ◌++◌, Option, none, some, ◌==◌, if◌then◌else◌,
}
use open_core_sdk.Opencore.{Opencore}
use open_core_sdk.Opencore.Handlers.{enable, disable, is_enabled}
use open_core_sdk.Opencore.DumpName.{set_timeout}
use open_core_sdk.Process.{
  on_instance, set_dir, set_callback, set_flag, set_filter, get_dir, get_flag, get_timeout,
  get_filter,
}
use open_core_sdk.Lp.{OpencoreImpl}
use open_core_sdk.Process.Crash.{System, Process, Event, coredump, called_back, raised, dump_thread}

-- What the Java machine answers: its strings `J` and their bytes, the results of RegisterNatives,
-- NewGlobalRef and GetStaticMethodID (a null pointer is `none`), and whether a thread can be made.
-- `callback` is the address of penguin_opencore_sdk_coredump_callback, and `version` what the build
-- defines as __OPENCORE_VERSION__.
pub record Machine (J : Type 0) : Type 0 where
  pub new_string_utf : List ℕ → J
  pub get_string_utf_chars : J → List ℕ
  pub registers : Bool
  pub new_global_ref : Option ℕ
  pub get_static_method_id : Option ℕ
  pub creates_java_thread : Bool
  pub callback : ℕ
  pub version : List ℕ

-- `struct userdata`.
pub record Userdata : Type 0 where
  pub g_coredump : Option ℕ
  pub g_callback_event : Option ℕ

-- CallStaticVoidMethod: the class, the method and the path.
pub record JavaCall (J : Type 0) : Type 0 where
  pub class_ : ℕ
  pub method : ℕ
  pub path : J

module _ {J : Type 0} (vm : Machine J) where
  -- penguin_opencore_sdk_coredump_docallback, on the members of `gUser`.
  unfoldable pub call_event : Option ℕ → Option ℕ → List ℕ → List (JavaCall J)
  call_event (some c) (some m) path =
      record { class_ = c; method = m; path = vm.new_string_utf path } ∷ []
  call_event (some c) none path = []
  call_event none m path = []

  abbrev pub docallback : Userdata → List ℕ → List (JavaCall J)
  docallback user path = call_event user.g_coredump user.g_callback_event path

  -- penguin_opencore_sdk_coredump_callback, which waits for the thread.
  unfoldable pub coredump_callback : Userdata → List ℕ → List (JavaCall J)
  coredump_callback user filepath = if vm.creates_java_thread then docallback user filepath else []

  -- The calls into Java that a run of the library makes: those of this callback.
  unfoldable pub java_calls : {A : Type 0} → Userdata → List (Event A) → List (JavaCall J)
  java_calls user [] = []
  java_calls user (coredump name q ∷ events) = java_calls user events
  java_calls user (raised signal action ∷ events) = java_calls user events
  java_calls user (called_back callback path ∷ events) =
      let rest = java_calls user events in
      if callback == vm.callback then coredump_callback user path ++ rest else rest
