-- ===== src/Opencore/Threads.antt =====
-- Opencore::StopTheWorld, StopTheThread and Continue (opencore/src/main/cpp/opencore/opencore.cpp).
pub mod Frame
pub mod Laws
use open_core_sdk.Prelude.{
  ℕ, ◌+◌, ◌-◌, ◌*◌, ◌%◌, ◌^◌, Bool, true, false, ◌&&◌, List, [], ◌∷◌, ◌++◌, Option, none, some, leb,
  ◌==◌, if◌then◌else◌,
}
use open_core_sdk.Kernel.{Kernel}
use open_core_sdk.Opencore.{Opencore, ThreadRecord}

abbrev pub is_digit : ℕ → Bool
is_digit c = leb b'0' c && leb c b'9'

-- The number that the digits at the front of a name stand for.
unfoldable pub atoi_from : ℕ → List ℕ → ℕ
atoi_from acc [] = acc
atoi_from acc (c ∷ cs) =
    let rest = atoi_from (acc * 10 + (c - b'0')) cs in if is_digit c then rest else acc

-- `std::atoi` on a name in /proc/PID/task, an `int` of 32 bits.
abbrev pub atoi : List ℕ → ℕ
atoi name = atoi_from 0 name % 2 ^ 32

-- The thread is recorded whether or not it could be attached.
unfoldable pub stop_the_thread : Kernel → ℕ → Opencore → Bool × Opencore
stop_the_thread k tid s =
    if k.attaches tid
    then (k.stops tid, record s { threads = s.threads ++ (stopped ∷ []) })
    else (false, record s { threads = s.threads ++ (missed ∷ []) })
  where
    stopped : ThreadRecord
    stopped = record { pid = tid; attached = true }

    missed : ThreadRecord
    missed = record { pid = tid; attached = false }

-- `!strncmp(entry->d_name, ".", 1)`
abbrev pub is_hidden : List ℕ → Bool
is_hidden [] = false
is_hidden (c ∷ cs) = c == b'.'

unfoldable pub stop_entries : Kernel → List (List ℕ) → Opencore → Opencore
stop_entries k [] s = s
stop_entries k (name ∷ names) s =
    stop_entries k names (if is_hidden name then s else (stop_the_thread k (atoi name) s).1)

unfoldable pub stop_listed : Kernel → Option (List (List ℕ)) → Opencore → Opencore
stop_listed k none s = s
stop_listed k (some names) s = stop_entries k names s

abbrev pub stop_the_world : Kernel → ℕ → Opencore → Opencore
stop_the_world k pid s = stop_listed k (k.proc_task pid) s

-- The threads that PTRACE_DETACH is called for, in order.
unfoldable pub detached : List ThreadRecord → List ℕ
detached [] = []
detached (t ∷ ts) = if t.attached then t.pid ∷ detached ts else detached ts

-- A PTRACE_DETACH that fails is passed over, so the calls and the empty list are all there is.
unfoldable pub continue : Opencore → List ℕ × Opencore
continue s = (detached s.threads, record s { threads = [] })
