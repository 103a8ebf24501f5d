-- ===== src/Lp.antt =====
-- Class OpencoreImpl: opencore/src/main/cpp/opencore/lp64/opencore.{h,cpp}, and lp32, which is the
-- same text over Elf32 types and 4-byte words. What differs is read off the `ElfClass`.
pub mod Prepare
pub mod Write
pub mod Load
pub mod FilterFile
pub mod Dump
pub mod Layout
use open_core_sdk.Prelude.{ℕ, List, []}
use open_core_sdk.Elf.{Ehdr, Phdr, Auxv, File, zero_phdr}
use open_core_sdk.Opencore.{Opencore}

-- `Elf64_prstatus` of each processor: the program sets `pr_pid` and `pr_reg` and leaves the other
-- members zero. `pr_reg` is kept word by word.
pub record PrStatus : Type 0 where
  pub pr_pid : ℕ
  pub pr_reg : List ℕ

-- The members of OpencoreImpl over those of Opencore. `prstatus` is the one member of the classes
-- for the processors, which all have it.
pub record OpencoreImpl : Type 0 where
  pub base : Opencore
  pub open base use *
  pub ehdr : Ehdr
  pub phdr : List Phdr
  pub note : Phdr
  pub auxv : List Auxv
  pub auxvnum : ℕ
  pub file_table : List File
  pub fileslen : ℕ
  pub prstatus : List PrStatus

-- `memset(&ehdr, 0, sizeof(ehdr))`.
abbrev pub zero_ehdr : Ehdr
zero_ehdr = record {
  ei_class = 0;
  ei_data = 0;
  ei_version = 0;
  e_type = 0;
  e_machine = 0;
  e_version = 0;
  e_entry = 0;
  e_phoff = 0;
  e_shoff = 0;
  e_flags = 0;
  e_ehsize = 0;
  e_phentsize = 0;
  e_phnum = 0;
  e_shentsize = 0;
  e_shnum = 0;
  e_shstrndx = 0;
}

-- OpencoreImpl(): the C++ members with no initialiser are zero in the one static object.
unfoldable pub new_impl : Opencore → OpencoreImpl
new_impl base = record {
  base = base;
  ehdr = zero_ehdr;
  phdr = [];
  note = zero_phdr;
  auxv = [];
  auxvnum = 0;
  file_table = [];
  fileslen = 0;
  prstatus = [];
}
