-- ===== src/Process/Ignored.antt =====
-- The signals of the dumping child (Opencore::IgnoreHandler and Coredump,
-- opencore/src/main/cpp/opencore/opencore.cpp).
use open_core_sdk.Prelude.{
  ℕ, ◌≡◌, refl, sym, ap, ◌∙◌, ◌⊎◌, inl, inr, if◌then◌else◌, Bool, true, false, List, map,
  length-map,
}
use open_core_sdk.Kernel.{Kernel}
use open_core_sdk.Opencore.Handlers.{Sigaction, Handlers, ignore_handler}
use open_core_sdk.Opencore.Handlers.Laws.{set_actions_lem}
use open_core_sdk.Stream.{Outcome}
use open_core_sdk.Lp.{OpencoreImpl}
use open_core_sdk.Lp.Dump.{Arch}
use open_core_sdk.Process.Child.{
  Phase, forked, armed, stopping, attaching, gathered, dumped, exited, killed, Child, is_armed,
  finish_and_exit, arm_child, Step, arm, refuse, create, skip, attaches, records, gathers, faults,
  writes, finishes, times_out, Reachable, here, next, fork,
}

abbrev is_forked : Phase → Bool
is_forked forked = true
is_forked _ = false

armed-is_forked : (p : Phase) → is_armed p ≡ true → is_forked p ≡ false
armed-is_forked forked h = cc
armed-is_forked armed h = refl
armed-is_forked (stopping names) h = refl
armed-is_forked (attaching tid names) h = refl
armed-is_forked gathered h = refl
armed-is_forked dumped h = refl
armed-is_forked exited h = refl
armed-is_forked killed h = refl

module _ {A : Type 0} (os : Sigaction) (ignore : A) (arch : Arch) (k : Kernel) (filename : List ℕ)
    (outcomes : List Outcome) (handlers : A × Handlers A) (s : OpencoreImpl) where
  abbrev Armed : Child A → Type 0
  Armed c = (c.handlers ≡ ignore_handler os ignore handlers) × (c.alarm ≡ s.timeout)

  abbrev Kept : Child A → Type 0
  Kept c = (c ≡ fork handlers s) ⊎ ((is_forked c.phase ≡ false) × Armed c)

  live : (c : Child A) → is_forked c.phase ≡ false → Kept c → Armed c
  unfolding fork
  live c e (inl h) =
      absurd (let no : true ≡ false = ap (λ (d : Child A). is_forked d.phase) (sym h) ∙ e in cc)
  live c e (inr h) = h.1

  Step-Kept : {c d : Child A} → Step os ignore arch k filename outcomes c d → Kept c → Kept d
  unfolding arm_child finish_and_exit fork
  Step-Kept (arm c e) (inl h) = inr (
    refl,
    (
      ap (λ (d : Child A). ignore_handler os ignore d.handlers) h,
      ap (λ (d : Child A). d.impl.timeout) h,
    ),
  )
  Step-Kept (arm c e) (inr (n, _)) = absurd (let no : true ≡ false = sym (ap is_forked e) ∙ n in cc)
  Step-Kept (refuse c e n) h = inr (refl, live c (ap is_forked e) h)
  Step-Kept (create c e n) h = inr (refl, live c (ap is_forked e) h)
  Step-Kept (skip c name names e n) h = inr (refl, live c (ap is_forked e) h)
  Step-Kept (attaches c name names e n) h = inr (refl, live c (ap is_forked e) h)
  Step-Kept (records c tid names e) h = inr (refl, live c (ap is_forked e) h)
  Step-Kept (gathers c t e n) h = inr (refl, live c (ap is_forked e) h)
  Step-Kept (faults c e n) h = inr (refl, live c (ap is_forked e) h)
  Step-Kept (writes c e) h = inr (refl, live c (ap is_forked e) h)
  Step-Kept (finishes c e) h = inr (refl, live c (ap is_forked e) h)
  Step-Kept (times_out c a t) h = inr (refl, live c (armed-is_forked c.phase a) h)

  Reachable-Kept :
      {c : Child A} → Reachable os ignore arch k filename outcomes (fork handlers s) c → Kept c
  Reachable-Kept here = inl refl
  Reachable-Kept (next r st) = Step-Kept st (Reachable-Kept r)

  -- When `sigaction` takes the actions, the child is at its first step, or SIGCHLD and every signal
  -- that the library handles are ignored, whatever actions it took over from the parent, and the alarm
  -- is set to the object's timeout: no fault of the child while it dumps comes to HandleSignal.
  pub ignored :
      (c : Child A)
      → ((j : ℕ) → os.sets j ≡ true)
      → Reachable os ignore arch k filename outcomes (fork handlers s) c
      → (c.phase ≡ forked)
        ⊎ ((c.handlers.0 ≡ ignore)
            × (c.handlers.1.actions ≡ map (λ a. ignore) handlers.1.actions)
            × (c.alarm ≡ s.timeout))
  unfolding ignore_handler fork
  ignored c sets r = elim (Reachable-Kept r) [
    | inl h ↦ inl (ap (λ (d : Child A). d.phase) h)
    | inr (_, (h, alarm)) ↦ inr (
      ap (λ g. g.0) h ∙ ap (λ b. if b then ignore else handlers.0) (sets 6),
      ap (λ g. g.1.actions) h
          ∙ set_actions_lem os 0 (map (λ a. ignore) handlers.1.actions) handlers.1.actions sets
              (length-map handlers.1.actions _),
      alarm,
    )
  ]
