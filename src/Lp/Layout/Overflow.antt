-- ===== src/Lp/Layout/Overflow.antt =====
-- Where the widths of the program are too narrow (opencore/src/main/cpp/opencore/lp64/opencore.cpp
-- and lp32/opencore.cpp): `e_phnum`, and the product `i * align_size`.
use open_core_sdk.Prelude.{
  ℕ, ◌+◌, ◌*◌, ◌^◌, ◌≤◌, ◌<◌, ◌≡◌, ◌⊎◌, inl, inr, arith, length, Bool-cases, ltb, ltb→lt, ltb→le,
}
use open_core_sdk.Elf.{ElfClass, class32, class64, word_bits, Phdr}
use open_core_sdk.Lp.{OpencoreImpl}
use open_core_sdk.Lp.Prepare.{create_core_header, create_core_note_header}
use open_core_sdk.Lp.Load.{block_address}
use open_core_sdk.Lp.Layout.{headers_size}

-- CreateCoreNoteHeader after CreateCoreHeader puts the notes right behind the program headers as long
-- as their number, that of the notes included, fits the 16 bits of `e_phnum`, and into the headers if
-- it does not.
pub note-behind_headers :
    (c : ElfClass) (machine : ℕ) (s : OpencoreImpl)
    → let offset = (create_core_note_header c (create_core_header c machine s)).note.p_offset in
      ((length s.phdr + 1 < 2 ^ 16) × (offset ≡ headers_size c (length s.phdr)))
      ⊎ ((2 ^ 16 ≤ length s.phdr + 1) × (offset < headers_size c (length s.phdr)))
unfolding create_core_header create_core_note_header
note-behind_headers class32 machine s = elim (Bool-cases (ltb (length s.phdr + 1) (2 ^ 16))) [
  | inl h ↦ let fits = ltb→lt (length s.phdr + 1) (2 ^ 16) h in inl (fits, omega arith)
  | inr h ↦ let over = ltb→le (length s.phdr + 1) (2 ^ 16) h in inr (over, omega arith)
]
note-behind_headers class64 machine s = elim (Bool-cases (ltb (length s.phdr + 1) (2 ^ 16))) [
  | inl h ↦ let fits = ltb→lt (length s.phdr + 1) (2 ^ 16) h in inl (fits, omega arith)
  | inr h ↦ let over = ltb→le (length s.phdr + 1) (2 ^ 16) h in inr (over, omega arith)
]

-- Within the address space, block `i` of a segment is read from its place as long as what lies before
-- it is less than 4 GiB, and from a lower address otherwise.
pub block_address-bounds :
    (c : ElfClass) (p : Phdr) (i : ℕ)
    → p.p_vaddr + i * 4096 < 2 ^ word_bits c
    → ((i * 4096 < 2 ^ 32) × (block_address c 4096 p i ≡ p.p_vaddr + i * 4096))
      ⊎ ((2 ^ 32 ≤ i * 4096) × (block_address c 4096 p i < p.p_vaddr + i * 4096))
unfolding block_address
block_address-bounds class32 p i inside = elim (Bool-cases (ltb (i * 4096) (2 ^ 32))) [
  | inl h ↦ let fits = ltb→lt (i * 4096) (2 ^ 32) h in inl (fits, omega arith)
  | inr h ↦ let over = ltb→le (i * 4096) (2 ^ 32) h in inr (over, omega arith)
]
block_address-bounds class64 p i inside = elim (Bool-cases (ltb (i * 4096) (2 ^ 32))) [
  | inl h ↦ let fits = ltb→lt (i * 4096) (2 ^ 32) h in inl (fits, omega arith)
  | inr h ↦ let over = ltb→le (i * 4096) (2 ^ 32) h in inr (over, omega arith)
]
