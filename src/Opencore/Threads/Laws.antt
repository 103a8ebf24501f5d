-- ===== src/Opencore/Threads/Laws.antt =====
-- Opencore::StopTheWorld followed by Continue (opencore/src/main/cpp/opencore/opencore.cpp): the
-- threads that are let go are those that were attached.
use open_core_sdk.Prelude.{
  ℕ, ◌≡◌, refl, sym, ap, ◌∙◌, arith, List, [], ◌∷◌, ◌++◌, append_assoc, append-nil, some,
  if◌then◌else◌,
}
use open_core_sdk.Kernel.{Kernel}
use open_core_sdk.Opencore.{Opencore, ThreadRecord}
use open_core_sdk.Opencore.Threads.{
  atoi, is_hidden, stop_the_thread, stop_entries, stop_listed, stop_the_world, detached, continue,
}
use open_core_sdk.Opencore.Threads.Frame.{stop_listed_frame}

module _ (k : Kernel) where
  -- The threads of a listing of /proc/PID/task that PTRACE_ATTACH succeeds on.
  abbrev pub attachable : List (List ℕ) → List ℕ
  attachable [] = []
  attachable (name ∷ names) =
      if is_hidden name
      then attachable names
      else if k.attaches (atoi name)
      then atoi name ∷ attachable names
      else attachable names

  abbrev pub thread_of : ℕ → ThreadRecord
  thread_of tid = record { pid = tid; attached = k.attaches tid }

  abbrev listed_threads : List (List ℕ) → List ThreadRecord
  listed_threads [] = []
  listed_threads (name ∷ names) =
      if is_hidden name then listed_threads names else thread_of (atoi name) ∷ listed_threads names

  pub threads-stop_the_thread :
      (tid : ℕ) (s : Opencore)
      → (stop_the_thread k tid s).1.threads ≡ s.threads ++ (thread_of tid ∷ [])
  unfolding stop_the_thread
  threads-stop_the_thread tid s = ground arith

  threads-stop_entries :
      (names : List (List ℕ)) (s : Opencore)
      → (stop_entries k names s).threads ≡ s.threads ++ listed_threads names
  unfolding stop_entries
  threads-stop_entries [] s = sym (append-nil s.threads)
  threads-stop_entries (name ∷ names) s = ground (
    arith,
    threads-stop_entries names s,
    threads-stop_entries names (stop_the_thread k (atoi name) s).1
        ∙ ap (λ ts. ts ++ listed_threads names) (threads-stop_the_thread (atoi name) s)
        ∙ append_assoc s.threads (thread_of (atoi name) ∷ []) (listed_threads names),
  )

  detached-listed_threads :
      (names : List (List ℕ)) → detached (listed_threads names) ≡ attachable names
  unfolding detached
  detached-listed_threads [] = refl
  detached-listed_threads (name ∷ names) = ground (arith, detached-listed_threads names)

  -- With no thread stopped yet, Continue after StopTheWorld detaches each listed thread that could
  -- be attached, in the order of the listing, and no other, and the object is as before.
  pub continue-stop_the_world :
      (pid : ℕ) (names : List (List ℕ)) (s : Opencore)
      → k.proc_task pid ≡ some names
      → s.threads ≡ []
      → continue (stop_the_world k pid s) ≡ (attachable names, record s { threads = [] })
  unfolding continue stop_listed
  continue-stop_the_world pid names s listed none_yet =
      rw listed (λ i. (let_go i, record (stop_listed_frame k (some names) s i) { threads = [] }))
    where
      let_go : detached (stop_entries k names s).threads ≡ attachable names
      let_go =
          ap detached
            (threads-stop_entries names s ∙ ap (λ ts. ts ++ listed_threads names) none_yet)
          ∙ detached-listed_threads names
