-- ===== src/Kernel.antt =====
-- What the program reads from the operating system: /proc, ptrace, and files. None of it is code of
-- the repository, so it is a record that the operations take.
use open_core_sdk.Prelude.{ℕ, Bool, List, Option}
use open_core_sdk.Elf.{Auxv}

-- Opencore::VirtualMemoryArea (opencore/src/main/cpp/opencore/opencore.h). `char flags[4]` is four
-- fields: read, write, execute, and private or shared.
pub record VirtualMemoryArea : Type 0 where
  pub begin : ℕ
  pub end : ℕ
  pub flags0 : ℕ
  pub flags1 : ℕ
  pub flags2 : ℕ
  pub flags3 : ℕ
  pub offset : ℕ
  pub major : ℕ
  pub minor : ℕ
  pub inode : ℕ
  pub file : List ℕ

pub record Kernel : Type 0 where
  -- Whether `fopen(filename, "wb")` gives a stream.
  pub creates : List ℕ → Bool
  -- The lines of /proc/PID/maps as `sscanf` reads them; `none` if it cannot be opened.
  pub proc_maps : ℕ → Option (List VirtualMemoryArea)
  -- The whole entries of /proc/PID/auxv.
  pub proc_auxv : ℕ → Option (List Auxv)
  -- The names that `readdir` lists in /proc/PID/task.
  pub proc_task : ℕ → Option (List (List ℕ))
  -- Whether PTRACE_ATTACH succeeds, and whether `waitpid` then reports that thread stopped.
  pub attaches : ℕ → Bool
  pub stops : ℕ → Bool
  -- PTRACE_GETREGSET with NT_PRSTATUS: the registers, word by word.
  pub get_registers : ℕ → Option (List ℕ)
  -- PTRACE_GETREGSET with another note type: the bytes that it fills in.
  pub get_regset : ℕ → ℕ → Option (List ℕ)
  -- Whether /proc/PID/mem can be opened, and what `pread64` delivers at an address: at most as
  -- many bytes as it is asked for.
  pub opens_mem : ℕ → Bool
  pub pread : ℕ → ℕ → ℕ → List ℕ
  -- The contents of a file that can be opened and mapped.
  pub map_file : List ℕ → Option (List ℕ)
  -- What stands on the stack where a local variable without initialiser lies.
  pub stack : List ℕ
