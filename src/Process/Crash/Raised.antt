-- ===== src/Process/Crash/Raised.antt =====
-- The signal that Opencore::HandleSignal raises again (opencore/src/main/cpp/opencore/opencore.cpp).
use open_core_sdk.Prelude.{
  ℕ, ◌≡◌, refl, ap, ◌∙◌, true, false, List, [], ◌∷◌, ◌++◌, Option, none, some, get_elem?, length,
  ◌==◌,
}
use open_core_sdk.Opencore.{Context}
use open_core_sdk.Opencore.Handlers.{Handlers, enable, disable, is_enabled}
use open_core_sdk.Opencore.Handlers.Laws.{disable-enable}
use open_core_sdk.Opencore.DumpName.{DumpOption, dump, output_name}
use open_core_sdk.Lp.{OpencoreImpl}
use open_core_sdk.Process.Crash.{
  System, Process, Event, coredump, raised, callback_calls, dump_signal, own_option, handle_signal,
}
use open_core_sdk.Process.Crash.Calls.{dump_option-Dumps}

module _ {A : Type 0} (os : System A) where
  abbrev signal_option : Option (List ℕ) → Option Context → DumpOption
  signal_option siginfo context = record (own_option os) { siginfo = siginfo; context = context }

  -- Coredump, the callback and `raise`.
  abbrev in_order : List ℕ → Process A → Option ℕ → ℕ → List A → List (Event A)
  in_order name q cb signal actions =
      coredump name q
      ∷ (callback_calls os cb name ++ (raised signal (get_elem? actions signal) ∷ []))

  -- The object that Dump hands over for a signal.
  abbrev pub signalled : Option (List ℕ) → Option Context → OpencoreImpl → OpencoreImpl
  signalled siginfo context s = record s {
    base = (dump os.names (some (signal_option siginfo context)) s.base).1;
  }

  abbrev signal_name : OpencoreImpl → List ℕ
  signal_name s = output_name os.names s.dir s.flag os.getpid os.gettid none

  handle_signal-Dumps :
      (signal : ℕ) (siginfo : Option (List ℕ)) (context : Option Context) (p : Process A)
      (s : OpencoreImpl)
      → p.instance_ ≡ some s
      → (os.getpid == 0) ≡ false
      → let h = (disable os.sigaction os.zero_action p.handlers).1 in
        let s' = signalled siginfo context s in
        let (events, p') = handle_signal os signal siginfo context p in
        (q : Process A) × (events ≡ in_order (signal_name s) q s'.cb signal h.actions)
        × (q.handlers ≡ h)
        × (q.instance_ ≡ some s')
        × (p'.handlers ≡ h)
  unfolding handle_signal dump_signal
  handle_signal-Dumps signal siginfo context p s e pid =
      let h = (disable os.sigaction os.zero_action p.handlers).1 in
      let p1 = record p { handlers = h } in
      let s' = signalled siginfo context s in
      let (q, calls, handlers, instance_, kept) =
        dump_option-Dumps os (signal_option siginfo context) p1 s e pid in
      (
        q,
        ap
              (λ es.
                es
                ++ (raised signal
                      (get_elem? (dump_signal os siginfo context p1).1.handlers.actions signal)
                    ∷ []))
              calls
            ∙ ap (λ (g : Handlers A). in_order (signal_name s) q s'.cb signal g.actions) kept,
        handlers,
        instance_,
        kept,
      )

  signalled_lem :
      (siginfo : Option (List ℕ)) (context : Option Context) (s : OpencoreImpl)
      → (os.getpid == 0) ≡ false
      → let s' = signalled siginfo context s in
        (s'.cb ≡ s.cb) × (s'.siginfo ≡ siginfo) × (s'.pid ≡ os.getpid) × (s'.tid ≡ os.gettid)
  unfolding dump
  signalled_lem siginfo context s pid = rw pid (refl, refl, refl, refl)

  -- When Enable installs the handlers and `sigaction` does not fail, HandleSignal makes three calls:
  -- Coredump, with the handlers taken away and every signal under the action from before Enable, and
  -- with an object that has the process's ids and the siginfo of the signal; the callback, if one is
  -- set, with the same file name; and `raise`, with the signal under its action from before Enable.
  -- The handlers stay uninstalled.
  pub handle_signal-enable :
      (signal : ℕ) (siginfo : Option (List ℕ)) (context : Option Context) (p : Process A)
      (s : OpencoreImpl)
      → ((j : ℕ) → os.sigaction.queries j ≡ true)
      → ((j : ℕ) → os.sigaction.sets j ≡ true)
      → is_enabled p.handlers ≡ false
      → length p.handlers.g_restore_action ≡ length p.handlers.actions
      → p.instance_ ≡ some s
      → (os.getpid == 0) ≡ false
      → let enabled = record p { handlers = (enable os.sigaction os.stact p.handlers).1 } in
        let name = output_name os.names s.dir s.flag os.getpid os.gettid none in
        let (events, p') = handle_signal os signal siginfo context enabled in
        (q : Process A) × (o : OpencoreImpl) × (events
          ≡ coredump name q
            ∷ (callback_calls os s.cb name
                ++ (raised signal (get_elem? p.handlers.actions signal) ∷ [])))
        × (is_enabled q.handlers ≡ false)
        × (q.handlers.actions ≡ p.handlers.actions)
        × (q.instance_ ≡ some o)
        × (o.siginfo ≡ siginfo)
        × (o.pid ≡ os.getpid)
        × (o.tid ≡ os.gettid)
        × (is_enabled p'.handlers ≡ false)
  unfolding is_enabled
  handle_signal-enable signal siginfo context p s queries sets off l e pid =
      let enabled = record p { handlers = (enable os.sigaction os.stact p.handlers).1 } in
      let (_, _, _, disabled, actions) =
        disable-enable os.sigaction os.stact os.zero_action p.handlers queries sets off l in
      let (q, calls, handlers, instance_, kept) =
        handle_signal-Dumps signal siginfo context enabled s e pid in
      let (cb, info, pids, tids) = signalled_lem siginfo context s pid in
      (
        q,
        signalled siginfo context s,
        calls
            ∙ ap
                (λ c.
                  in_order (signal_name s) q c signal
                    (disable os.sigaction os.zero_action enabled.handlers).1.actions)
                cb
            ∙ ap (in_order (signal_name s) q s.cb signal) actions,
        ap (λ (h : Handlers A). h.handlers_installed) handlers ∙ disabled,
        ap (λ (h : Handlers A). h.actions) handlers ∙ actions,
        instance_,
        info,
        pids,
        tids,
        ap (λ (h : Handlers A). h.handlers_installed) kept ∙ disabled,
      )
