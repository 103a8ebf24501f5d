-- ===== src/Process/Attached.antt =====
-- The threads that the dumping child leaves attached (Opencore::Coredump, TimeoutHandle and Finish,
-- opencore/src/main/cpp/opencore/opencore.cpp).
use open_core_sdk.Prelude.{
  ℕ, ◌≡◌, refl, sym, ap, ◌∙◌, subst, ◌⊎◌, inl, inr, arith, true, List, [], ◌∷◌, ◌++◌, append-nil,
  none, ◌==◌, if◌then◌else◌, Bool-cases,
}
use open_core_sdk.Kernel.{Kernel}
use open_core_sdk.Opencore.{Opencore, ThreadRecord}
use open_core_sdk.Opencore.Handlers.{Sigaction, Handlers}
use open_core_sdk.Opencore.Threads.{atoi, detached, stop_the_thread, continue}
use open_core_sdk.Opencore.Threads.Laws.{thread_of, threads-stop_the_thread}
use open_core_sdk.Stream.{Outcome, fresh}
use open_core_sdk.Lp.{OpencoreImpl}
use open_core_sdk.Lp.Prepare.{prepare}
use open_core_sdk.Lp.Dump.{Arch, finish, impl_finish, base_finish}
use open_core_sdk.Lp.Layout.File.{NotesLaws}
use open_core_sdk.Process.Child.{
  Phase, forked, armed, stopping, attaching, gathered, dumped, exited, killed, Child, remove,
  release, is_armed, finish_and_exit, arm_child, attach, recorded, Step, arm, refuse, create, skip,
  attaches, records, gathers, faults, writes, finishes, times_out, Reachable, here, next, fork,
}
use open_core_sdk.Process.Frame.{gather-threads, write_core-base}

remove_self : (tid : ℕ) (ts : List ℕ) → remove tid (tid ∷ ts) ≡ ts
remove_self tid ts = let e : (tid == tid) ≡ true = ground arith in rw e refl

pub release-append : (xs ys : List ℕ) → release xs (xs ++ ys) ≡ ys
release-append [] ys = refl
release-append (x ∷ xs) ys = ap (release xs) (remove_self x (xs ++ ys)) ∙ release-append xs ys

detached-append :
    (ts : List ThreadRecord) (t : ThreadRecord)
    → detached (ts ++ (t ∷ [])) ≡ detached ts ++ (if t.attached then t.pid ∷ [] else [])
unfolding detached
detached-append [] t = refl
detached-append (u ∷ ts) t = ground (arith, detached-append ts t)

-- The threads whose attachment is not recorded yet.
abbrev pending : Kernel → Phase → List ℕ
pending k (attaching tid names) = if k.attaches tid then tid ∷ [] else []
pending k _ = []

-- All attached threads are recorded, but for one that is being attached; after the exit at most that
-- one is left, and the object has nothing of the dump.
abbrev pub Cleared : OpencoreImpl → Type 0
Cleared s = (s.threads ≡ []) × (s.maps ≡ []) × (s.ucontext_raw ≡ none) × (s.siginfo ≡ none)

abbrev pub AtMostOne : Kernel → List ℕ → Type 0
AtMostOne k tids = (tids ≡ []) ⊎ ((tid : ℕ) × (tids ≡ tid ∷ []) × (k.attaches tid ≡ true))

abbrev pub Tracks : {A : Type 0} → Kernel → Phase → Child A → Type 0
Tracks k exited c = Cleared c.impl × AtMostOne k c.tracees
Tracks k killed c = c.tracees ≡ []
Tracks k p c = c.tracees ≡ detached c.impl.threads ++ pending k p

pending-AtMostOne : (k : Kernel) (p : Phase) → AtMostOne k (pending k p)
pending-AtMostOne k forked = inl refl
pending-AtMostOne k armed = inl refl
pending-AtMostOne k (stopping names) = inl refl
pending-AtMostOne k (attaching tid names) = elim (Bool-cases (k.attaches tid)) [
  | inl e ↦ inr (tid, rw e refl, e)
  | inr e ↦ inl (rw e refl)
]
pending-AtMostOne k gathered = inl refl
pending-AtMostOne k dumped = inl refl
pending-AtMostOne k exited = inl refl
pending-AtMostOne k killed = inl refl

module _ {A : Type 0} (k : Kernel) where
  armed-Tracks :
      (p : Phase) (c : Child A)
      → is_armed p ≡ true
      → Tracks k p c
      → c.tracees ≡ detached c.impl.threads ++ pending k p
  armed-Tracks forked c a h = h
  armed-Tracks armed c a h = h
  armed-Tracks (stopping names) c a h = h
  armed-Tracks (attaching tid names) c a h = h
  armed-Tracks gathered c a h = h
  armed-Tracks dumped c a h = h
  armed-Tracks exited c a h = cc
  armed-Tracks killed c a h = cc

  exit-Tracks :
      (p : Phase) (c : Child A)
      → c.tracees ≡ detached c.impl.threads ++ pending k p
      → Tracks k exited (finish_and_exit c)
  unfolding finish_and_exit finish impl_finish base_finish continue
  exit-Tracks p c h = (
    (refl, refl, refl, refl),
    subst (AtMostOne k)
        (sym (
          ap (release (detached c.impl.threads)) h
          ∙ release-append (detached c.impl.threads) (pending k p)))
        (pending-AtMostOne k p),
  )

  attach-Tracks :
      (c : Child A) (tid : ℕ) (names : List (List ℕ))
      → c.tracees ≡ detached c.impl.threads ++ []
      → Tracks k (attaching tid names) (attach k tid names c)
  attach-Tracks c tid names h = elim (Bool-cases (k.attaches tid)) [
    | inl e ↦ rw (e, h, append-nil (detached c.impl.threads)) refl
    | inr e ↦ rw (e, h) refl
  ]

  records-Tracks :
      (c : Child A) (tid : ℕ) (names : List (List ℕ))
      → c.tracees ≡ detached c.impl.threads ++ pending k (attaching tid names)
      → Tracks k (stopping names) (recorded k tid names c)
  records-Tracks c tid names h =
      h
      ∙ sym (detached-append c.impl.threads (thread_of k tid))
      ∙ ap detached (sym (threads-stop_the_thread k tid c.impl.base))
      ∙ sym (append-nil (detached (stop_the_thread k tid c.impl.base).1.threads))

module _ {A : Type 0} (os : Sigaction) (ignore : A) (arch : Arch) (laws : NotesLaws arch)
    (k : Kernel) (filename : List ℕ) (outcomes : List Outcome) where
  tracked : (c : Child A) {p : Phase} → c.phase ≡ p → Tracks k c.phase c → Tracks k p c
  tracked c e h = subst (λ p. Tracks k p c) e h

  pub Step-Tracks :
      {c d : Child A}
      → Step os ignore arch k filename outcomes c d
      → Tracks k c.phase c
      → Tracks k d.phase d
  unfolding arm_child prepare finish_and_exit
  Step-Tracks (arm c e) h = tracked c e h
  Step-Tracks (refuse c e n) h = tracked c e h
  Step-Tracks (create c e n) h = tracked c e h
  Step-Tracks (skip c name names e n) h = tracked c e h
  Step-Tracks (attaches c name names e n) h = attach-Tracks k c (atoi name) names (tracked c e h)
  Step-Tracks (records c tid names e) h = records-Tracks k c tid names (tracked c e h)
  Step-Tracks (gathers c s e found) h =
      tracked c e h ∙ ap (λ ts. detached ts ++ []) (sym (gather-threads arch laws k c.impl s found))
  Step-Tracks (faults c e n) h = refl
  Step-Tracks (writes c e) h =
      tracked c e h
      ∙ ap (λ (b : Opencore). detached b.threads ++ [])
          (sym (write_core-base arch laws k c.impl (fresh outcomes)))
  Step-Tracks (finishes c e) h = exit-Tracks k dumped c (tracked c e h)
  Step-Tracks (times_out c a t) h = exit-Tracks k c.phase c (armed-Tracks k c.phase c a h)

  pub Reachable-Tracks :
      {c d : Child A}
      → Reachable os ignore arch k filename outcomes c d
      → Tracks k c.phase c
      → Tracks k d.phase d
  Reachable-Tracks here h = h
  Reachable-Tracks (next r st) h = Step-Tracks st (Reachable-Tracks r h)

  -- Whenever the child, forked from an object that has stopped no thread, comes to its end, whether
  -- after DoCoredump or by the alarm between two steps, the object has no threads, mappings, context or
  -- siginfo any more, and nothing is left attached but, at most, one thread whose PTRACE_ATTACH
  -- succeeded and that the alarm kept from being recorded.
  pub exited-Cleared :
      (handlers : A × Handlers A) (s : OpencoreImpl) (c : Child A)
      → s.threads ≡ []
      → Reachable os ignore arch k filename outcomes (fork handlers s) c
      → c.phase ≡ exited
      → Cleared c.impl × AtMostOne k c.tracees
  unfolding fork detached
  exited-Cleared handlers s c none_stopped r e =
      tracked c e (Reachable-Tracks r (ap (λ ts. detached ts ++ []) (sym none_stopped)))
