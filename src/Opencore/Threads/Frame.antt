-- ===== src/Opencore/Threads/Frame.antt =====
-- Stopping the threads changes the list of threads alone.
use open_core_sdk.Prelude.{ℕ, ◌≡◌, refl, arith, List, [], ◌∷◌, Option, none, some}
use open_core_sdk.Kernel.{Kernel}
use open_core_sdk.Opencore.{Opencore, ThreadRecord}
use open_core_sdk.Opencore.Threads.{stop_the_thread, stop_entries, stop_listed, atoi}

abbrev pub with_threads : List ThreadRecord → Opencore → Opencore
with_threads ts s = record s { threads = ts }

module _ (k : Kernel) where
  stop_the_thread_frame :
      (tid : ℕ) (s : Opencore)
      → (stop_the_thread k tid s).1 ≡ with_threads (stop_the_thread k tid s).1.threads s
  unfolding stop_the_thread
  stop_the_thread_frame tid s = ground arith

  stop_entries_frame :
      (names : List (List ℕ)) (s : Opencore)
      → stop_entries k names s ≡ with_threads (stop_entries k names s).threads s
  unfolding stop_entries
  stop_entries_frame [] s = refl
  stop_entries_frame (name ∷ names) s = ground (
    arith,
    stop_entries_frame names s,
    stop_entries_frame names (stop_the_thread k (atoi name) s).1,
    stop_the_thread_frame (atoi name) s,
  )

  pub stop_listed_frame :
      (listed : Option (List (List ℕ))) (s : Opencore)
      → stop_listed k listed s ≡ with_threads (stop_listed k listed s).threads s
  unfolding stop_listed
  stop_listed_frame none s = refl
  stop_listed_frame (some names) s = stop_entries_frame names s
