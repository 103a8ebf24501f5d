-- ===== src/Process/Crash/Calls.antt =====
-- The calls of Opencore::Dump in the parent (opencore/src/main/cpp/opencore/opencore.cpp).
use open_core_sdk.Prelude.{ℕ, ◌≡◌, refl, sym, ap, ◌∙◌, subst, arith, false, List, ◌∷◌, some, ◌==◌}
use open_core_sdk.Opencore.{Opencore}
use open_core_sdk.Opencore.Handlers.{Handlers}
use open_core_sdk.Opencore.DumpName.{DumpOption, dump, output_name}
use open_core_sdk.Lp.{OpencoreImpl}
use open_core_sdk.Process.Crash.{
  System, Process, Event, coredump, set_dumpable, set_ptracer, restore, callback_calls, dump_as,
  dump_instance, dump_option, ptracer_any,
}
use open_core_sdk.Process.Crash.Restored.{handlers-set_dumpable, handlers-set_ptracer}

module _ {A : Type 0} (os : System A) where
  handlers-restore : (v : ℕ) (p : Process A) → (restore os v p).handlers ≡ p.handlers
  unfolding restore set_dumpable set_ptracer
  handlers-restore v p = ground arith

  instance-set_dumpable : (v : ℕ) (p : Process A) → (set_dumpable os v p).instance_ ≡ p.instance_
  unfolding set_dumpable
  instance-set_dumpable v p = ground arith

  instance-set_ptracer : (v : ℕ) (p : Process A) → (set_ptracer os v p).instance_ ≡ p.instance_
  unfolding set_ptracer
  instance-set_ptracer v p = ground arith

  -- One call of Coredump with the object `s` under the actions `h`, then the callback's.
  abbrev pub Dumps : Handlers A → OpencoreImpl → List ℕ → List (Event A) × Process A → Type 0
  Dumps h s name (events, p) =
      (q : Process A) × (events ≡ coredump name q ∷ callback_calls os s.cb name)
      × (q.handlers ≡ h)
      × (q.instance_ ≡ some s)
      × (p.handlers ≡ h)

  dump_as-Dumps :
      (output : List ℕ) (s : OpencoreImpl) (p : Process A)
      → Dumps p.handlers s output (dump_as os (some output) s p)
  unfolding dump_as
  dump_as-Dumps output s p =
      let p1 = record p { instance_ = some s } in
      let p2 = set_dumpable os 1 p1 in
      let p3 = set_ptracer os ptracer_any p2 in
      let kept = handlers-set_ptracer os ptracer_any p2 ∙ handlers-set_dumpable os 1 p1 in
      (
        p3,
        refl,
        kept,
        instance-set_ptracer ptracer_any p2 ∙ instance-set_dumpable 1 p1,
        handlers-restore p.dumpable p3 ∙ kept,
      )

  named :
      (option : DumpOption) (s : Opencore)
      → (option.pid == 0) ≡ false
      → (dump os.names (some option) s).0
        ≡ some (output_name os.names s.dir s.flag option.pid option.tid option.filename)
  unfolding dump
  named option s pid = rw pid refl

  -- The file name for an object and an option, and the object that the child takes over.
  abbrev pub name_for : DumpOption → OpencoreImpl → List ℕ
  name_for option s = output_name os.names s.dir s.flag option.pid option.tid option.filename

  abbrev pub set_up_for : DumpOption → OpencoreImpl → OpencoreImpl
  set_up_for option s = record s { base = (dump os.names (some option) s.base).1 }

  pub dump_option-Dumps :
      (option : DumpOption) (p : Process A) (s : OpencoreImpl)
      → p.instance_ ≡ some s
      → (option.pid == 0) ≡ false
      → Dumps p.handlers (set_up_for option s) (name_for option s) (dump_option os (some option) p)
  unfolding dump_option dump_instance
  dump_option-Dumps option p s e pid =
      subst (Dumps p.handlers (set_up_for option s) (name_for option s))
        (sym (
          ap (λ i. dump_instance os (some option) i p) e
          ∙ ap (λ o. dump_as os o (set_up_for option s) p) (named option s.base pid)))
        (dump_as-Dumps (name_for option s) (set_up_for option s) p)
