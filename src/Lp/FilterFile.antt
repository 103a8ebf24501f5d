-- ===== src/Lp/FilterFile.antt =====
-- NeedFilterFile (opencore/src/main/cpp/opencore/lp64/opencore.cpp and lp32/opencore.cpp): a
-- mapping that only reads a file is kept if the ELF file maps that offset writable.
pub mod Writable
use open_core_sdk.Prelude.{
  ℕ, zero, suc, ◌+◌, ◌-◌, ◌*◌, ◌/◌, Bool, ◌&&◌, List, [], ◌∷◌, Option, none, some, ltb, leb, ◌==◌,
  if◌then◌else◌, length, drop,
}
use mathlib.Core.Option
use open_core_sdk.Elf.{
  ElfClass, class32, class64, word_size, word_bits, int, ehdr_size, phdr_size, pt_load, pf_w,
}
use open_core_sdk.Rounding.{round_down}
use open_core_sdk.Kernel.{Kernel, VirtualMemoryArea}
use open_core_sdk.Opencore.{has_bit, vma_normal, vma_null}

-- The number that `n` bytes stand for, lowest first; bytes that are not there read as zeros.
unfoldable pub from_le : ℕ → List ℕ → ℕ
from_le zero bs = 0
from_le (suc n) [] = 0
from_le (suc n) (b ∷ bs) = b + 256 * from_le n bs

-- A read of the mapped file. The last page is filled up with zeros, and what lies behind it is
-- not mapped: `none` is the fault (SIGBUS).
unfoldable pub load_field : ℕ → List ℕ → ℕ → ℕ → Option ℕ
load_field page_size mem at_ n =
    if leb (at_ + n) ((length mem + page_size - 1) / page_size * page_size)
    then some (from_le n (drop at_ mem))
    else none

-- Where the members of Elf64_Phdr and Elf32_Phdr lie.
abbrev pub flags_at : ElfClass → ℕ
flags_at class32 = 24
flags_at class64 = 4

abbrev pub offset_at : ElfClass → ℕ
offset_at class32 = 4
offset_at class64 = 8

abbrev pub memsz_at : ElfClass → ℕ
memsz_at class32 = 20
memsz_at class64 = 40

-- `e_phnum` follows three words and 20 + 4 + 2 + 2 bytes.
abbrev pub phnum_at : ElfClass → ℕ
phnum_at class32 = 44
phnum_at class64 = 56

-- `pos` and `end` are `int`s, compared with a `uint32_t`: both go by their 32-bit patterns.
unfoldable pub covers : ElfClass → ℕ → ℕ → ℕ → ℕ → Bool
covers c page_size p_offset p_memsz offset =
    let pos = int (round_down (word_bits c) p_offset page_size) in
    leb pos offset && ltb offset (int (pos + p_memsz))

infixl 5 ◌>>=◌
abbrev ◌>>=◌ : {A B : Type 0} → Option A → (A → Option B) → Option B
m >>= f = Option.bind m f

-- A PT_LOAD entry: the writable ones that cover the offset keep the mapping.
unfoldable pub filter_load : ElfClass → ℕ → List ℕ → ℕ → ℕ → ℕ → Option ℕ
filter_load c page_size mem offset at_ ret = do
  p_offset ← load_field page_size mem (at_ + offset_at c) (word_size c)
  p_memsz ← load_field page_size mem (at_ + memsz_at c) (word_size c)
  if covers c page_size p_offset p_memsz offset then keep else some ret
  where
    keep : Option ℕ
    keep = do
      p_flags ← load_field page_size mem (at_ + flags_at c) 4
      some (if has_bit p_flags pf_w then vma_normal else ret)

-- The loop over the program headers, `n` of them from `at_` on; `ret` is carried along.
unfoldable pub filter_rounds : ElfClass → ℕ → List ℕ → ℕ → ℕ → ℕ → ℕ → Option ℕ
filter_rounds c page_size mem offset zero at_ ret = some ret
filter_rounds c page_size mem offset (suc n) at_ ret = do
  p_type ← load_field page_size mem at_ 4
  next ← if p_type == pt_load then filter_load c page_size mem offset at_ ret else some ret
  filter_rounds c page_size mem offset n (at_ + phdr_size c) next

-- The file is mapped: `mem` is its contents. ELFMAG is the bytes 7f 45 4c 46.
unfoldable pub filter_mapped : ElfClass → ℕ → ℕ → List ℕ → ℕ → Option ℕ
filter_mapped c machine page_size mem offset = do
  magic ← load_field page_size mem 0 4
  if magic == 0x464c457f then as_elf else some vma_null
  where
    rounds : ℕ → Option ℕ
    rounds e_phnum = filter_rounds c page_size mem offset e_phnum (ehdr_size c) vma_null

    as_elf : Option ℕ
    as_elf = do
      e_machine ← load_field page_size mem 18 2
      e_phnum ← load_field page_size mem (phnum_at c) 2
      if e_machine == machine then rounds e_phnum else some vma_null

-- NeedFilterFile. An empty file cannot be mapped.
unfoldable pub need_filter_file : Kernel → ElfClass → ℕ → ℕ → VirtualMemoryArea → Option ℕ
need_filter_file k c machine page_size vma = elim (k.map_file vma.file) [
  | none ↦ some vma_null
  | some [] ↦ some vma_null
  | some (b ∷ bs) ↦ filter_mapped c machine page_size (b ∷ bs) vma.offset
]
