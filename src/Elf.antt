-- ===== src/Elf.antt =====
-- The ELF structures that opencore/src/main/cpp/opencore/lp64/opencore.{h,cpp} and
-- opencore/src/main/cpp/opencore/lp32/opencore.{h,cpp} fill in, as records, and the two word sizes.
-- A field holds the number that is stored; `Elf.Encode` writes it in little-endian bytes.
pub mod Encode
pub mod Wrap
pub mod Decode
pub mod NoteList
use open_core_sdk.Prelude.{ℕ, ◌+◌, ◌-◌, ◌%◌, ◌^◌, if◌then◌else◌, ltb}

-- lp32 and lp64 are the same code over Elf32 and Elf64 types.
pub data ElfClass : Type 0 where
  class32 class64 : ElfClass

-- `sizeof(Elf32_Addr)` and `sizeof(Elf64_Addr)`, which also are the sizes of `size_t`.
abbrev pub word_size : ElfClass → ℕ
word_size class32 = 4
word_size class64 = 8

abbrev pub word_bits : ElfClass → ℕ
word_bits class32 = 32
word_bits class64 = 64

-- Arithmetic in `Elf32_Addr` and `Elf64_Addr` wraps.
abbrev pub wrap : ElfClass → ℕ → ℕ
wrap class32 n = n % 2 ^ 32
wrap class64 n = n % 2 ^ 64

-- An `int`, kept as its 32-bit pattern, where it is converted to `size_t`.
abbrev pub sign_extend : ElfClass → ℕ → ℕ
sign_extend class32 n = n
sign_extend class64 n = if ltb n (2 ^ 31) then n else n + (2 ^ 64 - 2 ^ 32)

abbrev pub int : ℕ → ℕ
int n = n % 2 ^ 32

abbrev pub ehdr_size : ElfClass → ℕ
ehdr_size class32 = 52
ehdr_size class64 = 64

abbrev pub phdr_size : ElfClass → ℕ
phdr_size class32 = 32
phdr_size class64 = 56

-- `sizeof(Elf32_Nhdr)` and `sizeof(Elf64_Nhdr)`: three 4-byte words in both classes.
abbrev pub nhdr_size : ℕ
nhdr_size = 12

-- lp64::Auxv and lp32::Auxv: two words.
abbrev pub auxv_size : ElfClass → ℕ
auxv_size class32 = 8
auxv_size class64 = 16

-- lp64::File and lp32::File: three words.
abbrev pub file_size : ElfClass → ℕ
file_size class32 = 12
file_size class64 = 24

-- `sizeof(siginfo_t)`, which the kernel fixes at 128 bytes.
abbrev pub siginfo_size : ℕ
siginfo_size = 128

-- `Elf32_Ehdr` and `Elf64_Ehdr`. Of `e_ident` only the bytes that the program sets are kept.
pub record Ehdr : Type 0 where
  pub ei_class : ℕ
  pub ei_data : ℕ
  pub ei_version : ℕ
  pub e_type : ℕ
  pub e_machine : ℕ
  pub e_version : ℕ
  pub e_entry : ℕ
  pub e_phoff : ℕ
  pub e_shoff : ℕ
  pub e_flags : ℕ
  pub e_ehsize : ℕ
  pub e_phentsize : ℕ
  pub e_phnum : ℕ
  pub e_shentsize : ℕ
  pub e_shnum : ℕ
  pub e_shstrndx : ℕ

-- `Elf32_Phdr` and `Elf64_Phdr`.
pub record Phdr : Type 0 where
  pub p_type : ℕ
  pub p_flags : ℕ
  pub p_offset : ℕ
  pub p_vaddr : ℕ
  pub p_paddr : ℕ
  pub p_filesz : ℕ
  pub p_memsz : ℕ
  pub p_align : ℕ

-- `Elf32_Nhdr` and `Elf64_Nhdr`.
pub record Nhdr : Type 0 where
  pub n_namesz : ℕ
  pub n_descsz : ℕ
  pub n_type : ℕ

-- lp64::Auxv, lp32::Auxv.
pub record Auxv : Type 0 where
  pub type : ℕ
  pub value : ℕ

-- lp64::File, lp32::File: an entry of the NT_FILE note.
pub record File : Type 0 where
  pub begin : ℕ
  pub end : ℕ
  pub offset : ℕ

abbrev pub zero_phdr : Phdr
zero_phdr = record {
  p_type = 0;
  p_flags = 0;
  p_offset = 0;
  p_vaddr = 0;
  p_paddr = 0;
  p_filesz = 0;
  p_memsz = 0;
  p_align = 0;
}

abbrev pub zero_file : File
zero_file = record { begin = 0; end = 0; offset = 0 }

abbrev pub pt_load : ℕ
pt_load = 1

abbrev pub pt_note : ℕ
pt_note = 4

abbrev pub pf_x : ℕ
pf_x = 1

abbrev pub pf_w : ℕ
pf_w = 2

abbrev pub pf_r : ℕ
pf_r = 4

abbrev pub et_core : ℕ
et_core = 4

abbrev pub ev_current : ℕ
ev_current = 1

abbrev pub elfdata2lsb : ℕ
elfdata2lsb = 1

abbrev pub elfclass : ElfClass → ℕ
elfclass class32 = 1
elfclass class64 = 2

abbrev pub nt_prstatus : ℕ
nt_prstatus = 1

abbrev pub nt_fpregset : ℕ
nt_fpregset = 2

abbrev pub nt_auxv : ℕ
nt_auxv = 6

-- "SIGI"
abbrev pub nt_siginfo : ℕ
nt_siginfo = 0x53494749

-- "FILE"
abbrev pub nt_file : ℕ
nt_file = 0x46494c45

abbrev pub nt_arm_tls : ℕ
nt_arm_tls = 0x401

abbrev pub nt_arm_pac_mask : ℕ
nt_arm_pac_mask = 0x406

abbrev pub nt_arm_tagged_addr_ctrl : ℕ
nt_arm_tagged_addr_ctrl = 0x409

abbrev pub nt_arm_pac_enabled_keys : ℕ
nt_arm_pac_enabled_keys = 0x40a
