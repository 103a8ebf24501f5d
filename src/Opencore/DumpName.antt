-- ===== src/Opencore/DumpName.antt =====
-- Opencore::Dump (opencore/src/main/cpp/opencore/opencore.cpp): what it sets in the object, and the
-- name that it gives the file when the caller gives none.
pub mod Laws
use Prim.Native.String.{String}
use open_core_sdk.Prelude.{
  ℕ, zero, suc, ◌+◌, ◌/◌, ◌%◌, Bool, true, false, not, ◌||◌, List, [], ◌∷◌, ◌++◌, Option, none,
  some, bit_or, ◌==◌, ltb, if◌then◌else◌, length, take,
}
use open_core_sdk.Opencore.{
  Opencore, Context, has_bit, flag_core, flag_process_comm, flag_pid, flag_thread_comm, flag_tid,
  flag_timestamp, flag_all, filter_signal_context,
}
use open_core_sdk.Opencore.Filter.{codes}

-- Opencore::DumpOption.
pub record DumpOption : Type 0 where
  pub filename : Option (List ℕ)
  pub pid : ℕ
  pub tid : ℕ
  pub siginfo : Option (List ℕ)
  pub context : Option Context

-- What Dump asks the system: the bytes that `read` delivers of a `comm` file (`none` if it cannot be
-- opened), and the second that it is.
pub record Names : Type 0 where
  pub process_comm : ℕ → Option (List ℕ)
  pub thread_comm : ℕ → ℕ → Option (List ℕ)
  pub tv_sec : ℕ

-- `std::to_string`, on as many digits as the number can have.
unfoldable pub digits : ℕ → ℕ → List ℕ
digits zero n = []
digits (suc fuel) n =
    let rest = digits fuel (n / 10) in (if ltb n 10 then [] else rest) ++ ((b'0' + n % 10) ∷ [])

abbrev pub to_string : ℕ → List ℕ
to_string n = digits 20 n

-- The C string at the front of `comm`: up to a newline or a zero.
unfoldable pub c_string : List ℕ → List ℕ
c_string [] = []
c_string (b ∷ bs) = let rest = c_string bs in if b == b'\n' || b == 0 then [] else b ∷ rest

-- What is appended for a `comm` file: 15 bytes are read, and without any it is "unknown".
unfoldable pub comm_name : Option (List ℕ) → List ℕ
comm_name none = []
comm_name (some []) = codes "unknown"
comm_name (some (b ∷ bs)) = c_string (take 15 (b ∷ bs))

-- `output` and `need_split` along the chain of tests.
abbrev Naming : Type 0
Naming = List ℕ × Bool

-- One part: the underscore if a part stands before it, and the text.
unfoldable pub add_part : Bool → List ℕ → List ℕ × Bool → List ℕ × Bool
add_part present text (output, need_split) =
    if present
    then ((if need_split then output ++ (b'_' ∷ []) else output) ++ text, true)
    else (output, need_split)

-- The flags that the name is made by.
unfoldable pub name_flag : ℕ → ℕ
name_flag flag = if has_bit flag flag_all then flag else bit_or (bit_or flag flag_core) flag_tid

-- The parts from the process's name on, in order, with the test of each.
unfoldable pub name_parts : Names → ℕ → ℕ → ℕ → List (Bool × List ℕ)
name_parts os flag pid tid =
    (has_bit flag flag_process_comm, comm_name (os.process_comm pid))
    ∷ (has_bit flag flag_pid, to_string pid)
    ∷ (has_bit flag flag_thread_comm, comm_name (os.thread_comm pid tid))
    ∷ (has_bit flag flag_tid, to_string tid)
    ∷ (has_bit flag flag_timestamp, to_string os.tv_sec)
    ∷ []

unfoldable pub add_parts : List (Bool × List ℕ) → List ℕ × Bool → List ℕ × Bool
add_parts [] naming = naming
add_parts ((present, text) ∷ parts) naming = add_parts parts (add_part present text naming)

-- `dir + "/"`, if there is a directory.
unfoldable pub dir_prefix : List ℕ → List ℕ
dir_prefix dir = if ltb 0 (length dir) then dir ++ (b'/' ∷ []) else []

-- The whole of `output`.
unfoldable pub output_name : Names → List ℕ → ℕ → ℕ → ℕ → Option (List ℕ) → List ℕ
output_name os dir flag pid tid (some filename) = dir_prefix dir ++ filename
output_name os dir flag pid tid none =
    let flag' = name_flag flag in
    let start = dir_prefix dir ++ (if has_bit flag' flag_core then codes "core." else []) in
    (add_parts (name_parts os flag' pid tid) (start, false)).0

-- The members that Dump sets before the child is forked, and the name that it hands to Coredump and
-- to the callback; `none` if there is nothing to dump.
unfoldable pub dump : Names → Option DumpOption → Opencore → Option (List ℕ) × Opencore
dump os none s = (none, s)
dump os (some option) s =
    if option.pid == 0
    then (none, s)
    else (some (output_name os s.dir s.flag option.pid option.tid option.filename), set_up)
  where
    set_up : Opencore
    set_up = record s {
      pid = option.pid;
      tid = option.tid;
      siginfo = option.siginfo;
      ucontext_raw =
          if has_bit s.filter filter_signal_context then option.context else s.ucontext_raw;
    }

-- Opencore::SetTimeout; the seconds are a 32-bit `int`.
unfoldable pub set_timeout : ℕ → Opencore → Opencore
set_timeout sec s =
    if ltb 0 sec then (if ltb sec 0x8000_0000 then record s { timeout = sec } else s) else s
