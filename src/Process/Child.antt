-- ===== src/Process/Child.antt =====
-- The child that Opencore::Coredump forks (opencore/src/main/cpp/opencore/opencore.cpp): it arms the
-- alarm, runs DoCoredump and Finish, and SIGALRM may come in between (TimeoutHandle). StopTheWorld
-- takes two steps for each thread, PTRACE_ATTACH and the entry in `threads`; the calls that fill the
-- tables are one step, and the writes another. A step that the kernel blocks is one that is not taken.
use open_core_sdk.Prelude.{
  ℕ, ◌<◌, ◌≡◌, Bool, true, false, List, [], ◌∷◌, ◌++◌, Option, none, some, ◌==◌, if◌then◌else◌,
}
use open_core_sdk.Kernel.{Kernel}
use open_core_sdk.Opencore.Handlers.{Sigaction, Handlers, ignore_handler}
use open_core_sdk.Opencore.Threads.{atoi, is_hidden, stop_the_thread}
use open_core_sdk.Stream.{Outcome, Stream, fresh}
use open_core_sdk.Lp.{OpencoreImpl}
use open_core_sdk.Lp.Prepare.{prepare}
use open_core_sdk.Lp.Dump.{Arch, gather, write_core, finish}

-- Where the child is. `stopping` has the names that StopTheWorld has not read yet, and `attaching`
-- is between the two steps for a thread. `killed` is the end by SIGBUS.
pub data Phase : Type 0 where
  forked : Phase
  armed : Phase
  stopping : List (List ℕ) → Phase
  attaching : ℕ → List (List ℕ) → Phase
  gathered : Phase
  dumped : Phase
  exited : Phase
  killed : Phase

-- The child's copy of the object and of the signals' actions (that of SIGCHLD apart), the seconds
-- that `alarm` was given, the threads that the kernel has attached to it, and the file once
-- DoCoredump has returned.
pub record Child (A : Type 0) : Type 0 where
  pub phase : Phase
  pub impl : OpencoreImpl
  pub handlers : A × Handlers A
  pub alarm : ℕ
  pub tracees : List ℕ
  pub file : Option Stream

abbrev pub remove : ℕ → List ℕ → List ℕ
remove tid [] = []
remove tid (t ∷ ts) = if t == tid then ts else t ∷ remove tid ts

-- What is still attached after a PTRACE_DETACH for each of the threads.
abbrev pub release : List ℕ → List ℕ → List ℕ
release [] tracees = tracees
release (tid ∷ tids) tracees = release tids (remove tid tracees)

-- The names that `readdir` gives; a directory that cannot be opened has none.
abbrev pub listing : Option (List (List ℕ)) → List (List ℕ)
listing none = []
listing (some names) = names

-- SIGALRM has its handler, and the child has not ended.
abbrev pub is_armed : Phase → Bool
is_armed forked = false
is_armed exited = false
is_armed killed = false
is_armed _ = true

-- Finish and `_exit(0)`: the end of the child, and of TimeoutHandle.
unfoldable pub finish_and_exit : {A : Type 0} → Child A → Child A
finish_and_exit c =
    let (released, impl) = finish c.impl in
    record c { phase = exited; impl = impl; tracees = release released c.tracees }

-- IgnoreHandler, `signal` and `alarm(getTimeout())`.
unfoldable pub arm_child : {A : Type 0} → Sigaction → A → Child A → Child A
arm_child os ignore c = record c {
  phase = armed;
  handlers = ignore_handler os ignore c.handlers;
  alarm = c.impl.timeout;
}

-- PTRACE_ATTACH.
abbrev pub attach : {A : Type 0} → Kernel → ℕ → List (List ℕ) → Child A → Child A
attach k tid names c = record c {
  phase = attaching tid names;
  tracees = if k.attaches tid then c.tracees ++ (tid ∷ []) else c.tracees;
}

-- The rest of StopTheThread.
abbrev pub recorded : {A : Type 0} → Kernel → ℕ → List (List ℕ) → Child A → Child A
recorded k tid names c = record c {
  phase = stopping names;
  impl = record (c.impl) { base = (stop_the_thread k tid c.impl.base).1 };
}

module _ {A : Type 0} (os : Sigaction) (ignore : A) (arch : Arch) (k : Kernel) (filename : List ℕ)
    (outcomes : List Outcome) where
  pub data Step : Child A → Child A → Type 0 where
    arm : (c : Child A) → c.phase ≡ forked → Step c (arm_child os ignore c)
    -- Prepare, and the file cannot be created.
    refuse :
        (c : Child A)
        → c.phase ≡ armed
        → k.creates filename ≡ false
        → Step c (record c { phase = dumped; impl = prepare c.impl })
    -- Prepare, `fopen` and `opendir`.
    create :
        (c : Child A)
        → c.phase ≡ armed
        → k.creates filename ≡ true
        → Step c (record c {
          phase = stopping (listing (k.proc_task c.impl.pid));
          impl = prepare c.impl;
        })
    skip :
        (c : Child A) (name : List ℕ) (names : List (List ℕ))
        → c.phase ≡ stopping (name ∷ names)
        → is_hidden name ≡ true
        → Step c (record c { phase = stopping names })
    attaches :
        (c : Child A) (name : List ℕ) (names : List (List ℕ))
        → c.phase ≡ stopping (name ∷ names)
        → is_hidden name ≡ false
        → Step c (attach k (atoi name) names c)
    records :
        (c : Child A) (tid : ℕ) (names : List (List ℕ))
        → c.phase ≡ attaching tid names
        → Step c (recorded k tid names c)
    gathers :
        (c : Child A) (s : OpencoreImpl)
        → c.phase ≡ stopping []
        → gather arch k c.impl ≡ some s
        → Step c (record c { phase = gathered; impl = s })
    -- A fault in NeedFilterFile: the kernel ends the child, and lets its threads go.
    faults :
        (c : Child A)
        → c.phase ≡ stopping []
        → gather arch k c.impl ≡ none
        → Step c (record c { phase = killed; tracees = [] })
    writes :
        (c : Child A)
        → c.phase ≡ gathered
        → Step c (
            let (s, f) = write_core arch k c.impl (fresh outcomes) in
            record c { phase = dumped; impl = s; file = some f })
    finishes : (c : Child A) → c.phase ≡ dumped → Step c (finish_and_exit c)
    -- SIGALRM, between any two steps after `alarm` with a number of seconds.
    times_out : (c : Child A) → is_armed c.phase ≡ true → 0 < c.alarm → Step c (finish_and_exit c)

  -- The step is that of the alarm.
  unfoldable pub is_alarm : {c d : Child A} → Step c d → Bool
  is_alarm (arm c e) = false
  is_alarm (refuse c e h) = false
  is_alarm (create c e h) = false
  is_alarm (skip c name names e h) = false
  is_alarm (attaches c name names e h) = false
  is_alarm (records c tid names e) = false
  is_alarm (gathers c s e h) = false
  is_alarm (faults c e h) = false
  is_alarm (writes c e) = false
  is_alarm (finishes c e) = false
  is_alarm (times_out c e h) = true

  pub data Reachable (start : Child A) : Child A → Type 0 where
    here : Reachable start start
    next : {c d : Child A} → Reachable start c → Step c d → Reachable start d

  -- Reachable by steps none of which is the alarm's.
  pub data Undisturbed (start : Child A) : Child A → Type 0 where
    unmoved : Undisturbed start start
    undisturbed :
        {c d : Child A}
        → Undisturbed start c
        → (st : Step c d) → is_alarm st ≡ false
        → Undisturbed start d

  pub Undisturbed-Reachable : {start c : Child A} → Undisturbed start c → Reachable start c
  Undisturbed-Reachable unmoved = here
  Undisturbed-Reachable (undisturbed r st calm) = next (Undisturbed-Reachable r) st

-- What `fork` gives: the parent's object and actions, no alarm and nothing attached.
unfoldable pub fork : {A : Type 0} → A × Handlers A → OpencoreImpl → Child A
fork handlers s = record {
  phase = forked;
  impl = s;
  handlers = handlers;
  alarm = 0;
  tracees = [];
  file = none;
}
