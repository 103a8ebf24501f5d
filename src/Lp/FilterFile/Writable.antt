-- ===== src/Lp/FilterFile/Writable.antt =====
-- NeedFilterFile finds what it looks for (opencore/src/main/cpp/opencore/lp64/opencore.cpp and
-- lp32/opencore.cpp).
use open_core_sdk.Prelude.{
  ℕ, ◌+◌, ◌*◌, ◌/◌, ◌<◌, Bool, false, ◌&&◌, ◌||◌, List, [], ◌∷◌, ltb, leb, ◌^◌, ◌%◌, ◌==◌, drop,
}
use mathlib.Core.Option
use open_core_sdk.Elf.{ElfClass, ehdr_size, pt_load, pf_w, Phdr}
use open_core_sdk.Elf.Decode.{field, read_phdrs, read_table}
use open_core_sdk.Kernel.{Kernel}
use open_core_sdk.Opencore.{has_bit}
use open_core_sdk.Lp.FilterFile.{covers, phnum_at}

-- A writable segment of the file that has the offset, in the pages that the segment's contents
-- begin in.
abbrev pub keeps : ℕ → Phdr → Bool
keeps offset p =
    let page = p.p_offset / 4096 * 4096 in
    p.p_type == pt_load
    && ((leb page offset && ltb offset (page + p.p_memsz)) && p.p_flags / 2 % 2 == 1)

abbrev pub any_keeps : ℕ → List Phdr → Bool
any_keeps offset [] = false
any_keeps offset (p ∷ ps) = keeps offset p || any_keeps offset ps

-- The test of the code on an entry.
abbrev covered : ElfClass → ℕ → ℕ → Phdr → Bool
covered c page_size offset p =
    p.p_type == pt_load
    && (covers c page_size p.p_offset p.p_memsz offset && has_bit p.p_flags pf_w)

abbrev any_covered : ElfClass → ℕ → ℕ → List Phdr → Bool
any_covered c page_size offset [] = false
any_covered c page_size offset (p ∷ ps) =
    covered c page_size offset p || any_covered c page_size offset ps

-- A segment that ends below 4 GiB in the file.
abbrev pub IsModest : Phdr → Type 0
IsModest p = p.p_offset + p.p_memsz < 2 ^ 32

module _ (c : ElfClass) (page_size : ℕ) (mem : List ℕ) (pages : 0 < page_size) where
  module _ (offset : ℕ) where
    abbrev is_covering : Phdr → Bool
    is_covering p = covers c page_size p.p_offset p.p_memsz offset

-- The file is an ELF file for the machine, with a writable segment that has the offset.
abbrev pub has_writable : ElfClass → ℕ → List ℕ → ℕ → Bool
has_writable c machine mem offset =
    field 0 4 mem == 0x464c457f
    && (field 18 2 mem == machine && any_keeps offset (read_table c mem))

-- What the code looks for: the table right behind the ELF header.
abbrev finds : ElfClass → ℕ → ℕ → List ℕ → ℕ → Bool
finds c machine page_size mem offset =
    field 0 4 mem == 0x464c457f
    && (field 18 2 mem == machine
        && any_covered c page_size offset
            (read_phdrs c (field (phnum_at c) 2 mem) (drop (ehdr_size c) mem)))
