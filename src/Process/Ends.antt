-- ===== src/Process/Ends.antt =====
-- The dumping child without the alarm (Opencore::Coredump,
-- opencore/src/main/cpp/opencore/opencore.cpp): it comes to its end, and on the way does what
-- DoCoredump does.
use open_core_sdk.Prelude.{
  ℕ, ◌≡◌, refl, sym, ap, ◌∙◌, subst, inl, inr, Bool, true, false, List, [], ◌∷◌, ◌++◌, Option, none,
  some, Bool-cases, some-inj,
}
use mathlib.Core.Option
use open_core_sdk.Kernel.{Kernel}
use open_core_sdk.Opencore.{Opencore}
use open_core_sdk.Opencore.Handlers.{Sigaction, Handlers}
use open_core_sdk.Opencore.Threads.{atoi, is_hidden, detached, stop_entries, stop_listed, continue}
use open_core_sdk.Stream.{Outcome, Stream, fresh}
use open_core_sdk.Lp.{OpencoreImpl}
use open_core_sdk.Lp.Prepare.{prepare}
use open_core_sdk.Lp.Dump.{
  Arch, gather, collect, write_core, do_coredump, finish, impl_finish, base_finish,
}
use open_core_sdk.Lp.Dump.Filtered.{map-eq-some}
use open_core_sdk.Lp.Layout.File.{NotesLaws}
use open_core_sdk.Process.Child.{
  armed, stopping, gathered, dumped, exited, Child, release, listing, finish_and_exit, arm_child,
  attach, recorded, arm, refuse, create, skip, attaches, records, gathers, writes, finishes,
  Undisturbed, unmoved, undisturbed, Undisturbed-Reachable, is_alarm, fork,
}
use open_core_sdk.Process.Attached.{Tracks, Reachable-Tracks, release-append}

module _ {A : Type 0} (os : Sigaction) (ignore : A) (arch : Arch) (k : Kernel) (filename : List ℕ)
    (outcomes : List Outcome) (start : Child A) where
  abbrev Reaches : Child A → Type 0
  Reaches = Undisturbed os ignore arch k filename outcomes start

  abbrev after_stop : List (List ℕ) → OpencoreImpl → OpencoreImpl
  after_stop names s = record s { base = stop_entries k names s.base }

  -- StopTheWorld, from the names that are left.
  stops :
      (names : List (List ℕ)) (c : Child A)
      → Reaches c
      → c.phase ≡ stopping names
      → (d : Child A) × Reaches d × (d.phase ≡ stopping []) × (d.impl ≡ after_stop names c.impl)
  unfolding stop_entries is_alarm
  stops [] c r e = (c, r, e, refl)
  stops (name ∷ names) c r e = elim (Bool-cases (is_hidden name)) [
    | inl h ↦
        let d = record c { phase = stopping names } in
        rw h (stops names d (undisturbed r (skip c name names e h) refl) refl)
    | inr h ↦
        let a = attach k (atoi name) names c in
        let d = recorded k (atoi name) names a in
        rw h (
          stops names d
            (undisturbed (undisturbed r (attaches c name names e h) refl)
              (records a (atoi name) names refl) refl)
            refl)
  ]

  -- DoCoredump comes to its end with that object and that file.
  abbrev Dumps : OpencoreImpl → Option Stream → Type 0
  Dumps s f = (d : Child A) × Reaches d × (d.phase ≡ dumped) × (d.impl ≡ s) × (d.file ≡ f)

  -- From the names on: the rest of StopTheWorld, the tables and the writes.
  writes_after :
      (names : List (List ℕ)) (c : Child A) (s : OpencoreImpl)
      → Reaches c
      → c.phase ≡ stopping names
      → gather arch k (after_stop names c.impl) ≡ some s
      → let (s', f) = write_core arch k s (fresh outcomes) in Dumps s' (some f)
  unfolding is_alarm
  writes_after names c s r e found =
      let (d, r', stopped, same) = stops names c r e in
      let g = record d { phase = gathered; impl = s } in
      let gathers_s = gathers d s stopped (ap (gather arch k) same ∙ found) in
      (_, undisturbed (undisturbed r' gathers_s refl) (writes g refl) refl, refl, refl, refl)

  stop_listed-listing :
      (o : Option (List (List ℕ))) (b : Opencore) → stop_entries k (listing o) b ≡ stop_listed k o b
  unfolding stop_entries stop_listed
  stop_listed-listing none b = refl
  stop_listed-listing (some names) b = refl

  abbrev returned : OpencoreImpl → Bool × OpencoreImpl × Option Stream
  returned s = let (s', f) = write_core arch k s (fresh outcomes) in (true, s', some f)

  created :
      (s : OpencoreImpl)
      → k.creates filename ≡ true
      → do_coredump arch k filename outcomes s ≡ Option.map returned (collect arch k (prepare s))
  unfolding do_coredump
  created s h = rw h refl

  refused :
      (s : OpencoreImpl)
      → k.creates filename ≡ false
      → do_coredump arch k filename outcomes s ≡ some (false, prepare s, none)
  unfolding do_coredump
  refused s h = rw h refl

  collect_listed :
      (s : OpencoreImpl)
      → collect arch k (prepare s)
        ≡ gather arch k (after_stop (listing (k.proc_task s.pid)) (prepare s))
  unfolding collect prepare
  collect_listed s =
      ap (λ b. gather arch k (record (prepare s) { base = b }))
        (sym (stop_listed-listing (k.proc_task s.pid) s.base))

  dumps :
      (c : Child A) (ok : Bool) (s' : OpencoreImpl) (f : Option Stream)
      → Reaches c
      → c.phase ≡ armed
      → c.file ≡ none
      → do_coredump arch k filename outcomes c.impl ≡ some (ok, s', f)
      → Dumps s' f
  unfolding is_alarm
  dumps c ok s' f r e empty done = elim (Bool-cases (k.creates filename)) [
    | inl h ↦
        let (s, collected, back) =
          map-eq-some (collect arch k (prepare c.impl)) returned (sym (created c.impl h) ∙ done) in
        let names = listing (k.proc_task c.impl.pid) in
        let d = record c { phase = stopping names; impl = prepare c.impl } in
        let (e', r', dumped', same, file) =
          writes_after names d s (undisturbed r (create c e h) refl) refl
            (sym (collect_listed c.impl) ∙ collected) in
        (e', r', dumped', same ∙ ap (λ t. t.1) back, file ∙ ap (λ t. t.2) back)
    | inr h ↦
        let back = some-inj (sym (refused c.impl h) ∙ done) in
        (_, undisturbed r (refuse c e h) refl, refl, ap (λ t. t.1) back, empty ∙ ap (λ t. t.2) back)
  ]

module _ {A : Type 0} (os : Sigaction) (ignore : A) (arch : Arch) (laws : NotesLaws arch)
    (k : Kernel) (filename : List ℕ) (outcomes : List Outcome) where
  released_all :
      (c : Child A) → c.phase ≡ dumped → Tracks k c.phase c → (finish_and_exit c).tracees ≡ []
  unfolding finish_and_exit finish impl_finish base_finish continue
  released_all c e h =
      ap (release (detached c.impl.threads)) (subst (λ p. Tracks k p c) e h)
      ∙ release-append (detached c.impl.threads) []

  -- If the parent's object has stopped no thread, and DoCoredump on it would return, the forked
  -- child can run to its end by steps none of which is the alarm's: it exits with the file that DoCoredump leaves, with the object that Finish makes of
  -- DoCoredump's, and with no thread attached any more.
  pub exits-do_coredump :
      (handlers : A × Handlers A) (s s' : OpencoreImpl) (ok : Bool) (f : Option Stream)
      → s.threads ≡ []
      → do_coredump arch k filename outcomes s ≡ some (ok, s', f)
      → (c : Child A) × Undisturbed os ignore arch k filename outcomes (fork handlers s) c
        × (c.phase ≡ exited)
        × (c.file ≡ f)
        × (c.impl ≡ (finish s').1)
        × (c.tracees ≡ [])
  unfolding fork arm_child finish_and_exit detached is_alarm
  exits-do_coredump handlers s s' ok f none_stopped done =
      let start = fork handlers s in
      let r = undisturbed unmoved (arm start refl) refl in
      let (d, r', e, same, file) =
        dumps os ignore arch k filename outcomes start (arm_child os ignore start) ok s' f r refl
          refl done in
      let tracks =
        Reachable-Tracks os ignore arch laws k filename outcomes
          (Undisturbed-Reachable os ignore arch k filename outcomes r')
          (ap (λ ts. detached ts ++ []) (sym none_stopped)) in
      (
        finish_and_exit d,
        undisturbed r' (finishes d e) refl,
        refl,
        file,
        ap (λ t. (finish t).1) same,
        released_all d e tracks,
      )
