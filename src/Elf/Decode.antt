-- ===== src/Elf/Decode.antt =====
-- Reading the ELF structures back from their bytes, as a debugger does: the inverse of Elf/Encode.
use open_core_sdk.Prelude.{
  ℕ, zero, suc, ◌/◌, ◌^◌, ◌<◌, ◌≡◌, refl, sym, ap, ◌∙◌, arith, List, [], ◌∷◌, ◌++◌, map, length,
  drop, drop-append, append_assoc, All,
}
use open_core_sdk.Elf.{
  ElfClass, class32, class64, word_size, word_bits, phdr_size, ehdr_size, Ehdr, Phdr,
}
use open_core_sdk.Elf.Encode.{
  le, encode_ident, encode_ehdr, encode_phdr, length-encode_ehdr, length-encode_phdr,
}
use open_core_sdk.Stream.Append.{concat}
use open_core_sdk.Lp.FilterFile.{from_le, flags_at, offset_at, memsz_at, phnum_at}

-- The number of `n` bytes that begins at `at_`.
abbrev pub field : ℕ → ℕ → List ℕ → ℕ
field at_ n bs = from_le n (drop at_ bs)

abbrev pub vaddr_at : ElfClass → ℕ
vaddr_at class32 = 8
vaddr_at class64 = 16

abbrev pub paddr_at : ElfClass → ℕ
paddr_at class32 = 12
paddr_at class64 = 24

abbrev pub filesz_at : ElfClass → ℕ
filesz_at class32 = 16
filesz_at class64 = 32

abbrev pub align_at : ElfClass → ℕ
align_at class32 = 28
align_at class64 = 48

abbrev pub phoff_at : ElfClass → ℕ
phoff_at class32 = 28
phoff_at class64 = 32

-- The program header at the front of the bytes.
unfoldable pub read_phdr : ElfClass → List ℕ → Phdr
read_phdr c bs = record {
  p_type = field 0 4 bs;
  p_flags = field (flags_at c) 4 bs;
  p_offset = field (offset_at c) (word_size c) bs;
  p_vaddr = field (vaddr_at c) (word_size c) bs;
  p_paddr = field (paddr_at c) (word_size c) bs;
  p_filesz = field (filesz_at c) (word_size c) bs;
  p_memsz = field (memsz_at c) (word_size c) bs;
  p_align = field (align_at c) (word_size c) bs;
}

unfoldable pub read_phdrs : ElfClass → ℕ → List ℕ → List Phdr
read_phdrs c zero bs = []
read_phdrs c (suc n) bs = read_phdr c bs ∷ read_phdrs c n (drop (phdr_size c) bs)

-- The program header table of a file, where the ELF header says that it is.
unfoldable pub read_table : ElfClass → List ℕ → List Phdr
read_table c bs =
    read_phdrs c (field (phnum_at c) 2 bs) (drop (field (phoff_at c) (word_size c) bs) bs)

-- Every member fits the word that it is stored in.
pub record IsStorable (c : ElfClass) (p : Phdr) : Type 0 where
  pub type_word : p.p_type < 2 ^ 32
  pub flags_word : p.p_flags < 2 ^ 32
  pub offset_word : p.p_offset < 2 ^ word_bits c
  pub vaddr_word : p.p_vaddr < 2 ^ word_bits c
  pub paddr_word : p.p_paddr < 2 ^ word_bits c
  pub filesz_word : p.p_filesz < 2 ^ word_bits c
  pub memsz_word : p.p_memsz < 2 ^ word_bits c
  pub align_word : p.p_align < 2 ^ word_bits c

pub from_le-le : (n v : ℕ) (rest : List ℕ) → v < 256 ^ n → from_le n (le n v ++ rest) ≡ v
unfolding from_le le
from_le-le zero v rest h = omega arith
from_le-le (suc n) v rest h = omega (arith, from_le-le n (v / 256) rest (omega arith))

-- The members in a row of bytes, one by one.
members :
    (c : ElfClass) (p : Phdr) (bs : List ℕ)
    → field 0 4 bs ≡ p.p_type
    → field (flags_at c) 4 bs ≡ p.p_flags
    → field (offset_at c) (word_size c) bs ≡ p.p_offset
    → field (vaddr_at c) (word_size c) bs ≡ p.p_vaddr
    → field (paddr_at c) (word_size c) bs ≡ p.p_paddr
    → field (filesz_at c) (word_size c) bs ≡ p.p_filesz
    → field (memsz_at c) (word_size c) bs ≡ p.p_memsz
    → field (align_at c) (word_size c) bs ≡ p.p_align
    → read_phdr c bs ≡ p
unfolding read_phdr
members c p bs type flags offset vaddr paddr filesz memsz align i = record {
  p_type = type i;
  p_flags = flags i;
  p_offset = offset i;
  p_vaddr = vaddr i;
  p_paddr = paddr i;
  p_filesz = filesz i;
  p_memsz = memsz i;
  p_align = align i;
}

pub read_phdr-encode_phdr :
    (c : ElfClass) (p : Phdr) (rest : List ℕ)
    → IsStorable c p
    → read_phdr c (encode_phdr c p ++ rest) ≡ p
unfolding encode_phdr le
read_phdr-encode_phdr class32 p rest v =
    members class32 p (encode_phdr class32 p ++ rest) (from_le-le 4 p.p_type _ v.type_word)
      (from_le-le 4 p.p_flags _ v.flags_word) (from_le-le 4 p.p_offset _ v.offset_word)
      (from_le-le 4 p.p_vaddr _ v.vaddr_word) (from_le-le 4 p.p_paddr _ v.paddr_word)
      (from_le-le 4 p.p_filesz _ v.filesz_word) (from_le-le 4 p.p_memsz _ v.memsz_word)
      (from_le-le 4 p.p_align _ v.align_word)
read_phdr-encode_phdr class64 p rest v =
    members class64 p (encode_phdr class64 p ++ rest) (from_le-le 4 p.p_type _ v.type_word)
      (from_le-le 4 p.p_flags _ v.flags_word) (from_le-le 8 p.p_offset _ v.offset_word)
      (from_le-le 8 p.p_vaddr _ v.vaddr_word) (from_le-le 8 p.p_paddr _ v.paddr_word)
      (from_le-le 8 p.p_filesz _ v.filesz_word) (from_le-le 8 p.p_memsz _ v.memsz_word)
      (from_le-le 8 p.p_align _ v.align_word)

pub read_phdrs-encode_phdr :
    (c : ElfClass) (ps : List Phdr) (rest : List ℕ)
    → All (IsStorable c) ps
    → read_phdrs c (length ps) (concat (map (encode_phdr c) ps) ++ rest) ≡ ps
unfolding read_phdrs
read_phdrs-encode_phdr c [] rest v = refl
read_phdrs-encode_phdr c (p ∷ ps) rest (v, vs) =
    let others = concat (map (encode_phdr c) ps) in
    rw
      (
        append_assoc (encode_phdr c p) others rest,
        read_phdr-encode_phdr c p (others ++ rest) v,
        drop-append (phdr_size c) (encode_phdr c p) (others ++ rest) (sym (length-encode_phdr c p)),
      )
      (ap (λ qs. p ∷ qs) (read_phdrs-encode_phdr c ps rest vs))

phnum_lem :
    (c : ElfClass) (h : Ehdr) (rest : List ℕ)
    → h.e_phnum < 2 ^ 16
    → field (phnum_at c) 2 (encode_ehdr c h ++ rest) ≡ h.e_phnum
unfolding encode_ehdr encode_ident le
phnum_lem class32 h rest half = from_le-le 2 h.e_phnum _ half
phnum_lem class64 h rest half = from_le-le 2 h.e_phnum _ half

phoff_lem :
    (c : ElfClass) (h : Ehdr) (rest : List ℕ)
    → h.e_phoff ≡ ehdr_size c
    → field (phoff_at c) (word_size c) (encode_ehdr c h ++ rest) ≡ ehdr_size c
unfolding encode_ehdr encode_ident le
phoff_lem class32 h rest e = from_le-le 4 h.e_phoff _ (omega (arith, e)) ∙ e
phoff_lem class64 h rest e = from_le-le 8 h.e_phoff _ (omega (arith, e)) ∙ e

-- The table of a file whose ELF header is as CreateCoreHeader makes it.
pub read_table-encode :
    (c : ElfClass) (h : Ehdr) (ps : List Phdr) (rest : List ℕ)
    → h.e_phoff ≡ ehdr_size c
    → h.e_phnum ≡ length ps
    → length ps < 2 ^ 16
    → All (IsStorable c) ps
    → read_table c (encode_ehdr c h ++ (concat (map (encode_phdr c) ps) ++ rest)) ≡ ps
unfolding read_table
read_table-encode c h ps rest at_ n half v =
    let bs = concat (map (encode_phdr c) ps) ++ rest in
    rw
      (
        phnum_lem c h bs (omega (arith, n, half)) ∙ n,
        phoff_lem c h bs at_,
        drop-append (ehdr_size c) (encode_ehdr c h) (concat (map (encode_phdr c) ps) ++ rest)
            (sym (length-encode_ehdr c h)),
      )
      (read_phdrs-encode_phdr c ps rest v)
