-- ===== src/Jni/Callback.antt =====
-- The callback into Java (opencore/src/main/cpp/opencore_jni.cpp): nativeInit, then nativeCoredump.
use mathlib.Core.Option
use open_core_sdk.Prelude.{
  ℕ, ◌≡◌, refl, sym, ap, ◌∙◌, subst, arith, Bool, true, false, List, [], ◌∷◌, Option, some, ◌==◌,
  if◌then◌else◌,
}
use open_core_sdk.Opencore.DumpName.{DumpOption, dump, output_name}
use open_core_sdk.Lp.{OpencoreImpl}
use open_core_sdk.Process.{on_instance, set_callback}
use open_core_sdk.Process.Crash.{System, Process, coredump, callback_calls, dump_thread, own_option}
use open_core_sdk.Process.Crash.Calls.{dump_option-Dumps, name_for, set_up_for}
use open_core_sdk.Jni.{Machine, Userdata, call_event, coredump_callback, java_calls}
use open_core_sdk.Jni.Methods.{with_instance, native_init, native_coredump}

module _ {A J : Type 0} (os : System A) (vm : Machine J) (user : Userdata) (c m : ℕ)
    (threads : vm.creates_java_thread ≡ true) where
  abbrev ready : Userdata
  ready = record { g_coredump = some c; g_callback_event = some m }

  -- The calls into Java that a dump with the callback leads to.
  java_calls_lem :
      (name : List ℕ) (q : Process A)
      → java_calls vm ready (coredump name q ∷ callback_calls os (some vm.callback) name)
        ≡ record { class_ = c; method = m; path = vm.new_string_utf name } ∷ []
  unfolding java_calls coredump_callback call_event callback_calls
  java_calls_lem name q =
      let e : (vm.callback == vm.callback) ≡ true = ground arith in rw (e, threads) refl

  cb-set_up_for : (option : DumpOption) (s : OpencoreImpl) → (set_up_for os option s).cb ≡ s.cb
  unfolding dump
  cb-set_up_for option s = ground arith

  abbrev with_callback : OpencoreImpl → OpencoreImpl
  with_callback s = record s { base = record (s.base) { cb = some vm.callback } }

  abbrev option_for : ℕ → Option J → DumpOption
  option_for tid filename = record (own_option os) {
    filename = Option.map vm.get_string_utf_chars filename;
    tid = tid;
  }

  dumped_calls :
      (tid : ℕ) (filename : Option J) (p : Process A) (s : OpencoreImpl)
      → p.instance_ ≡ some (with_callback s)
      → (os.getpid == 0) ≡ false
      → let (_, events, _) = native_coredump os vm tid filename p in
        java_calls vm ready events
        ≡ record {
          class_ = c;
          method = m;
          path = vm.new_string_utf (name_for os (option_for tid filename) s);
        }
          ∷ []
  unfolding native_coredump dump_thread
  dumped_calls tid filename p s e pid =
      let option = option_for tid filename in
      let s' = with_callback s in
      let (q, calls, _, _, _) = dump_option-Dumps os option p s' e pid in
      ap (java_calls vm ready) (
        calls
        ∙ ap (λ cb. coredump (name_for os option s) q ∷ callback_calls os cb (name_for os option s))
            (cb-set_up_for option s'))
      ∙ java_calls_lem (name_for os option s) q

  abbrev userdata : Option ℕ → Option ℕ → Userdata
  userdata g e = record { g_coredump = g; g_callback_event = e }

  abbrev initialised : Process A → Process A
  initialised p = with_instance (set_callback vm.callback) p

  init_lem :
      (p : Process A)
      → vm.registers ≡ true
      → vm.new_global_ref ≡ some c
      → vm.get_static_method_id ≡ some m
      → native_init vm user p ≡ (true, ready, initialised p)
  unfolding native_init
  init_lem p registers class_ method =
      ap
        (λ b.
          if b
          then (true, userdata vm.new_global_ref vm.get_static_method_id, initialised p)
          else (false, userdata vm.new_global_ref user.g_callback_event, p))
        registers
      ∙ ap (λ g. (true, userdata g vm.get_static_method_id, initialised p)) class_
      ∙ ap (λ e. (true, userdata (some c) e, initialised p)) method

  -- When the Java machine can make threads, registers the natives and finds the class and
  -- `callbackEvent`, then nativeInit followed by nativeCoredump, which both return true, calls
  -- `callbackEvent` once, with the name of the file: under the directory, the name that the caller
  -- gives, or else the one that the flags make.
  pub callback-init :
      (tid : ℕ) (filename : Option J) (p : Process A) (s : OpencoreImpl)
      → vm.registers ≡ true
      → vm.new_global_ref ≡ some c
      → vm.get_static_method_id ≡ some m
      → p.instance_ ≡ some s
      → (os.getpid == 0) ≡ false
      → let (ok, user', p1) = native_init vm user p in
        let (done, events, _) = native_coredump os vm tid filename p1 in
        (ok ≡ true)
        × (done ≡ true)
        × (java_calls vm user' events
            ≡ record {
              class_ = c;
              method = m;
              path = vm.new_string_utf (
                  output_name os.names s.dir s.flag os.getpid tid
                    (Option.map vm.get_string_utf_chars filename));
            }
              ∷ [])
  unfolding native_coredump set_callback on_instance
  callback-init tid filename p s registers class_ method e pid =
      subst Calls (sym (init_lem p registers class_ method)) (
        refl,
        refl,
        dumped_calls tid filename (initialised p) s (ap (set_callback vm.callback) e) pid,
      )
    where
      Calls : Bool × Userdata × Process A → Type 0
      Calls (ok, user', p1) =
          let (done, events, _) = native_coredump os vm tid filename p1 in
          (ok ≡ true)
          × (done ≡ true)
          × (java_calls vm user' events
              ≡ record {
                class_ = c;
                method = m;
                path = vm.new_string_utf (name_for os (option_for tid filename) s);
              }
                ∷ [])
