-- ===== src/Opencore.antt =====
-- The base class Opencore (opencore/src/main/cpp/opencore/opencore.h and opencore.cpp): constants,
-- the members, and the constructor.
pub mod Filter
pub mod Maps
pub mod Threads
pub mod Handlers
pub mod DumpName
use open_core_sdk.Prelude.{ℕ, Bool, not, List, [], Option, none, bit_and, ◌==◌}
use open_core_sdk.Kernel.{VirtualMemoryArea}

abbrev pub flag_core : ℕ
flag_core = 1

abbrev pub flag_process_comm : ℕ
flag_process_comm = 2

abbrev pub flag_pid : ℕ
flag_pid = 4

abbrev pub flag_thread_comm : ℕ
flag_thread_comm = 8

abbrev pub flag_tid : ℕ
flag_tid = 16

abbrev pub flag_timestamp : ℕ
flag_timestamp = 32

abbrev pub flag_all : ℕ
flag_all = 63

abbrev pub invalid_tid : ℕ
invalid_tid = 0

abbrev pub filter_none : ℕ
filter_none = 0

abbrev pub filter_special_vma : ℕ
filter_special_vma = 1

abbrev pub filter_file_vma : ℕ
filter_file_vma = 2

abbrev pub filter_shared_vma : ℕ
filter_shared_vma = 4

abbrev pub filter_sanitizer_shadow_vma : ℕ
filter_sanitizer_shadow_vma = 8

abbrev pub filter_non_read_vma : ℕ
filter_non_read_vma = 16

abbrev pub filter_signal_context : ℕ
filter_signal_context = 32

abbrev pub filter_minidump : ℕ
filter_minidump = 64

abbrev pub filter_javaheap_vma : ℕ
filter_javaheap_vma = 128

abbrev pub filter_jit_cache_vma : ℕ
filter_jit_cache_vma = 256

abbrev pub vma_normal : ℕ
vma_normal = 0

abbrev pub vma_null : ℕ
vma_null = 1

abbrev pub vma_include : ℕ
vma_include = 2

abbrev pub def_timeout : ℕ
def_timeout = 120

abbrev pub elf_page_size : ℕ
elf_page_size = 0x1000

-- `filter & FILTER_X` as a condition.
abbrev pub has_bit : ℕ → ℕ → Bool
has_bit word bit = not (bit_and word bit == 0)

-- Opencore::ThreadRecord.
pub record ThreadRecord : Type 0 where
  pub pid : ℕ
  pub attached : Bool

-- What `ucontext_raw` points to: where the context lies, and the registers in it.
pub record Context : Type 0 where
  pub address : ℕ
  pub registers : List ℕ

-- The members of class Opencore. `zero` is left out: it is a scratch page that every user clears
-- first. `cb` is the address of the callback.
pub record Opencore : Type 0 where
  pub extra_note_filesz : ℕ
  pub threads : List ThreadRecord
  pub maps : List VirtualMemoryArea
  pub align_size : ℕ
  pub page_size : ℕ
  pub ucontext_raw : Option Context
  pub siginfo : Option (List ℕ)
  pub dir : List ℕ
  pub flag : ℕ
  pub pid : ℕ
  pub tid : ℕ
  pub filter : ℕ
  pub cb : Option ℕ
  pub timeout : ℕ

-- Opencore::Opencore(); the page size is what `sysconf(_SC_PAGE_SIZE)` gives. The flags are
-- FLAG_CORE | FLAG_PID | FLAG_PROCESS_COMM | FLAG_TIMESTAMP.
unfoldable pub new_opencore : ℕ → Opencore
new_opencore sysconf_page_size = record {
  extra_note_filesz = 0;
  threads = [];
  maps = [];
  align_size = elf_page_size;
  page_size = sysconf_page_size;
  ucontext_raw = none;
  siginfo = none;
  dir = [];
  flag = 39;
  pid = invalid_tid;
  tid = invalid_tid;
  filter = filter_none;
  cb = none;
  timeout = def_timeout;
}
