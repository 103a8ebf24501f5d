-- ===== src/Examples/Processes.antt =====
-- The theorems on the process, its child and the Java side, on the small process of Examples.
use open_core_sdk.Prelude.{
  ℕ, ◌≡◌, refl, ◌⊎◌, true, false, arith, List, [], ◌∷◌, ◌++◌, map, none, some, get_elem?, subst,
  All,
}
use open_core_sdk.Lp.Load.Memory.{Reads}
use open_core_sdk.Lp.Layout.Core.{core_phdrs}
use open_core_sdk.Stream.{fresh}
use open_core_sdk.Lp.{OpencoreImpl}
use open_core_sdk.Lp.Dump.{collect, write_core, finish}
use open_core_sdk.Opencore.Handlers.{Handlers, is_enabled, enable}
use open_core_sdk.Opencore.Filter.{codes}
use open_core_sdk.Opencore.DumpName.{DumpOption, dump, output_name}
use open_core_sdk.Cpu.Arm.{arm}
use open_core_sdk.Cpu.Arm.Notes.{arm-NotesLaws}
use open_core_sdk.Process.{get_dir, get_flag, get_timeout, get_filter}
use open_core_sdk.Process.Child.{
  Child, Undisturbed, Reachable, here, next, forked, exited, fork, arm_child, arm as arms,
  times_out, finish_and_exit,
}
use open_core_sdk.Process.Attached.{Cleared, AtMostOne, exited-Cleared}
use open_core_sdk.Process.Ends.{exits-do_coredump}
use open_core_sdk.Process.Ignored.{ignored}
use open_core_sdk.Process.Crash.{
  System, Process, coredump, raised, callback_calls, dump_option, handle_signal, own_option,
}
use open_core_sdk.Process.Crash.Calls.{set_up_for}
use open_core_sdk.Process.Whole.{Dumped, dump-Dumped}
use open_core_sdk.Lp.Prepare.{prepare}
use open_core_sdk.Prelude.{ap, ◌∙◌}
use open_core_sdk.Process.Crash.Restored.{SameSettings, dump_option-Restores}
use open_core_sdk.Process.Crash.Raised.{handle_signal-enable}
use open_core_sdk.Jni.{Machine, Userdata, java_calls}
use open_core_sdk.Jni.Methods.{
  native_init, native_coredump, native_get_dir, native_get_flag, native_get_timeout,
  native_get_filter, opencore_ctor_init, opencore_dtor_init,
}
use open_core_sdk.Jni.Settings.{
  to_dir, to_timeout, to_flag, SetCall, latest, run, settings_of, get-set,
}
use open_core_sdk.Jni.Callback.{callback-init}
use open_core_sdk.Jni.Inject.{dtor-ctor}
use open_core_sdk.Jni.Table.{version_fn, g_methods, registered, registered-declared}
use open_core_sdk.Examples.{
  one_page, unused, collected, two_handlers, willing, names, do_coredump_done, sevens, sevens_read,
  core_phdrs_page, page-IsMapping, collected-IsCountable, unused-IsUnused, collects,
}
use mathlib.Core.Option

abbrev own_actions : ℕ × Handlers ℕ
own_actions = (7, two_handlers)

abbrev start : Child ℕ
start = fork own_actions unused

-- The alarm comes before DoCoredump.
abbrev timed_out : Child ℕ
timed_out = finish_and_exit (arm_child willing 1 start)

timed_out_reached : Reachable willing 1 arm one_page (b'c' ∷ []) [] start timed_out
unfolding fork arm_child
timed_out_reached =
    next (next here (arms start refl)) (times_out (arm_child willing 1 start) refl (omega arith))

exited-Cleared_example : Cleared timed_out.impl × AtMostOne one_page timed_out.tracees
unfolding finish_and_exit
exited-Cleared_example =
    exited-Cleared willing 1 arm arm-NotesLaws one_page (b'c' ∷ []) [] own_actions unused timed_out
      refl timed_out_reached refl

exits-do_coredump_example :
    let (s', f) = write_core arm one_page collected (fresh []) in
    (c : Child ℕ) × Undisturbed willing 1 arm one_page (b'c' ∷ []) [] (fork own_actions unused) c
    × (c.phase ≡ exited)
    × (c.file ≡ some f)
    × (c.impl ≡ (finish s').1)
    × (c.tracees ≡ [])
exits-do_coredump_example =
    exits-do_coredump willing 1 arm arm-NotesLaws one_page (b'c' ∷ []) [] own_actions unused
      (write_core arm one_page collected (fresh [])).0 true
      (some (write_core arm one_page collected (fresh [])).1) refl do_coredump_done

ignored_example :
    (timed_out.phase ≡ forked)
    ⊎ ((timed_out.handlers.0 ≡ 1)
        × (timed_out.handlers.1.actions ≡ map (λ a. 1) two_handlers.actions)
        × (timed_out.alarm ≡ unused.timeout))
ignored_example =
    ignored willing 1 arm one_page (b'c' ∷ []) [] own_actions unused timed_out (λ j. refl)
      timed_out_reached

abbrev pub system : System ℕ
system = record {
  sigaction = willing;
  takes_dumpable = λ value. true;
  takes_ptracer = λ value. true;
  names = names;
  getpid = 5;
  gettid = 6;
  stact = 99;
  zero_action = 0;
}

abbrev pub app : Process ℕ
app = record { instance_ = some unused; handlers = two_handlers; dumpable = 0; ptracer = 0 }

dump_option-Restores_example :
    let q = (dump_option system (some (own_option system)) app).1 in
    (q.handlers ≡ app.handlers)
    × (q.dumpable ≡ app.dumpable)
    × ((q.ptracer ≡ app.ptracer) ⊎ (q.ptracer ≡ 0))
    × SameSettings app.instance_ q.instance_
dump_option-Restores_example = dump_option-Restores system (some (own_option system)) app refl refl

-- The signal at index 1.
handle_signal-enable_example :
    let enabled = record app { handlers = (enable willing 99 two_handlers).1 } in
    let name = output_name names [] 39 5 6 none in
    let (events, p') = handle_signal system 1 (some (4 ∷ [])) none enabled in
    (q : Process ℕ) × (o : OpencoreImpl) × (events
      ≡ coredump name q
        ∷ (callback_calls system none name ++ (raised 1 (get_elem? two_handlers.actions 1) ∷ [])))
    × (is_enabled q.handlers ≡ false)
    × (q.handlers.actions ≡ two_handlers.actions)
    × (q.instance_ ≡ some o)
    × (o.siginfo ≡ some (4 ∷ []))
    × (o.pid ≡ 5)
    × (o.tid ≡ 6)
    × (is_enabled p'.handlers ≡ false)
unfolding is_enabled
handle_signal-enable_example =
    handle_signal-enable system 1 (some (4 ∷ [])) none app unused (λ j. refl) (λ j. refl) refl refl
      refl refl

abbrev pub java : Machine (List ℕ)
java = record {
  new_string_utf = λ bytes. bytes;
  get_string_utf_chars = λ string. string;
  registers = true;
  new_global_ref = some 1;
  get_static_method_id = some 2;
  creates_java_thread = true;
  callback = 77;
  version = b'1' ∷ [];
}

abbrev setters : List (SetCall (List ℕ))
setters = to_dir (some (b'd' ∷ [])) ∷ to_timeout 0 ∷ to_flag 3 ∷ to_dir none ∷ []

get-set_example :
    let x = latest java setters (settings_of unused) in
    (native_get_dir java (run java setters app) ≡ x.dir)
    × (native_get_flag (run java setters app) ≡ x.flag)
    × (native_get_timeout (run java setters app) ≡ x.timeout)
    × (native_get_filter (run java setters app) ≡ x.filter)
get-set_example = get-set java setters app unused refl

abbrev pub no_user : Userdata
no_user = record { g_coredump = none; g_callback_event = none }

callback-init_example :
    let (ok, user', p1) = native_init java no_user app in
    let (done, events, _) = native_coredump system java 6 (some (b'f' ∷ [])) p1 in
    (ok ≡ true)
    × (done ≡ true)
    × (java_calls java user' events
        ≡ record {
          class_ = 1;
          method = 2;
          path = output_name names [] 39 5 6 (Option.map (λ string. string) (some (b'f' ∷ [])));
        }
          ∷ [])
callback-init_example =
    callback-init system java no_user 1 2 refl 6 (some (b'f' ∷ [])) app unused refl refl refl refl
      refl

dtor-ctor_example :
    let p' = opencore_ctor_init system (b'd' ∷ []) app in
    let p'' = opencore_dtor_init system p' in
    (get_dir p'.instance_ ≡ b'd' ∷ [])
    × (get_timeout p'.instance_ ≡ 180)
    × (get_flag p'.instance_ ≡ 39)
    × (get_filter p'.instance_ ≡ 57)
    × (p'.handlers.actions ≡ map (λ a. 99) two_handlers.actions)
    × (p''.handlers.actions ≡ two_handlers.actions)
    × (is_enabled p''.handlers ≡ false)
unfolding is_enabled
dtor-ctor_example = dtor-ctor system (b'd' ∷ []) app unused refl (λ j. refl) (λ j. refl) refl refl

registered-declared_example :
    registered (codes "nativeVersion") (codes "()Ljava/lang/String;") g_methods ≡ version_fn ∷ []
registered-declared_example = registered-declared version_fn

abbrev main_thread : DumpOption
main_thread = record { filename = none; pid = 5; tid = 5; siginfo = none; context = none }

set_up_unused : set_up_for system main_thread unused ≡ unused
unfolding dump
set_up_unused = refl

dump-Dumped_example :
    Dumped system 7 1 arm one_page main_thread app unused sevens (core_phdrs arm one_page collected)
dump-Dumped_example =
    dump-Dumped system 7 1 arm arm-NotesLaws one_page main_thread app unused collected sevens refl
      refl unused-IsUnused refl refl
      (ap (λ o. collect arm one_page (prepare o)) set_up_unused ∙ collects) (page-IsMapping, tt)
      collected-IsCountable refl
      (record { aligned = refl; moderate = omega arith; inside = omega arith }, tt)
      (subst (All (Reads (one_page.pread collected.pid) sevens)) core_phdrs_page (sevens_read, tt))
