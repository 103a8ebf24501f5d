-- ===== src/Lp/Layout/Notes.antt =====
-- How many bytes WriteCoreAUXV and WriteNtFile write.
use open_core_sdk.Prelude.{
  ℕ, ◌+◌, ◌*◌, ◌≡◌, refl, sym, ap, ◌∙◌, arith, List, [], ◌∷◌, ◌++◌, map, length, length-append,
  take, take-length,
}
use open_core_sdk.Elf.{ElfClass, class32, class64, word_size, auxv_size, file_size, int, nt_file}
use open_core_sdk.Elf.Encode.{
  le, encode_nhdr, encode_auxv, encode_file, length-le, length-encode_nhdr, length-encode_auxv,
  length-encode_file,
}
use open_core_sdk.Kernel.{VirtualMemoryArea}
use open_core_sdk.Stream.Append.{concat, length-concat-append, length-concat-map}
use open_core_sdk.Lp.{OpencoreImpl}
use open_core_sdk.Lp.Write.{
  core_nhdr, core_magic, auxv_writes, nt_file_writes, page_size_word, name_bytes, file_desc_size,
}
use open_core_sdk.Lp.Layout.{auxv_part, file_part, names_size}

length-page_size_word :
    (c : ElfClass) (s : OpencoreImpl) → length (page_size_word c s) ≡ word_size c
unfolding page_size_word le
length-page_size_word class32 s = refl
length-page_size_word class64 s = refl

length-names :
    (maps : List VirtualMemoryArea) → length (concat (map name_bytes maps)) ≡ names_size maps
length-names [] = refl
length-names (vma ∷ maps) = omega (
  arith,
  length-append (vma.file ++ (0 ∷ [])) (concat (map name_bytes maps)),
  length-append vma.file (0 ∷ []),
  length-names maps,
)

-- A note's header and its name, before what it holds.
pub length-note :
    (descsz type : ℕ) (rest : List (List ℕ))
    → length (concat (encode_nhdr (core_nhdr descsz type) ∷ core_magic ∷ rest))
      ≡ 20 + length (concat rest)
length-note descsz type rest = omega (
  arith,
  length-append (encode_nhdr (core_nhdr descsz type)) (core_magic ++ concat rest),
  length-encode_nhdr (core_nhdr descsz type),
)

pub length-auxv_writes :
    (c : ElfClass) (s : OpencoreImpl)
    → length s.auxv ≡ s.auxvnum
    → length (concat (auxv_writes c s)) ≡ auxv_part c s.auxvnum
unfolding auxv_writes
length-auxv_writes c s e =
    length-note _ _ (map (encode_auxv c) (take s.auxvnum s.auxv))
    ∙ ap (λ (t : ℕ). 20 + t)
        (length-concat-map (auxv_size c) (encode_auxv c) (take s.auxvnum s.auxv)
            (length-encode_auxv c)
          ∙ ap (λ (t : ℕ). auxv_size c * t) (ap length (all e) ∙ e))
  where
    all : length s.auxv ≡ s.auxvnum → take s.auxvnum s.auxv ≡ s.auxv
    all e = ap (λ n. take n s.auxv) (sym e) ∙ take-length s.auxv

pub length-nt_file_writes :
    (c : ElfClass) (s : OpencoreImpl)
    → length s.file_table ≡ length s.phdr
    → length s.maps ≡ length s.phdr
    → length (concat (nt_file_writes c s)) ≡ file_part c (length s.phdr) (names_size s.maps)
unfolding nt_file_writes
length-nt_file_writes c s ef em = omega (
  arith,
  length-note (int (file_desc_size c n s.fileslen)) nt_file
      (le (word_size c) n ∷ page_size_word c s ∷ (files ++ names)),
  length-append (le (word_size c) n) (page_size_word c s ++ concat (files ++ names)),
  length-append (page_size_word c s) (concat (files ++ names)),
  length-le (word_size c) n,
  length-page_size_word c s,
  length-concat-append files names,
  length-concat-map (file_size c) (encode_file c) (take n s.file_table) (length-encode_file c),
  ap length (front ef),
  ap (λ (t : ℕ). file_size c * t) (ap length (front ef) ∙ ef),
  ap (λ t. length (concat (map name_bytes t))) (whole em),
  length-names s.maps,
)
  where
    n : ℕ
    n = length s.phdr

    files : List (List ℕ)
    files = map (encode_file c) (take n s.file_table)

    names : List (List ℕ)
    names = map name_bytes (take n s.maps)

    front : length s.file_table ≡ length s.phdr → take n s.file_table ≡ s.file_table
    front e = ap (λ k. take k s.file_table) (sym e) ∙ take-length s.file_table

    whole : length s.maps ≡ length s.phdr → take n s.maps ≡ s.maps
    whole e = ap (λ k. take k s.maps) (sym e) ∙ take-length s.maps
