-- ===== src/Lp/Layout/Parsed.antt =====
-- The tables that ParseProcessMapsVma makes in an object that has dumped nothing yet
-- (opencore/src/main/cpp/opencore/lp64/opencore.cpp and lp32/opencore.cpp).
use open_core_sdk.Prelude.{
  ℕ, ◌+◌, ◌^◌, ◌<◌, ◌≡◌, sym, ap, ◌∙◌, subst, arith, List, [], ◌∷◌, map, length, length-map, All,
}
use open_core_sdk.Elf.{ElfClass, int, zero_phdr}
use open_core_sdk.Elf.Decode.{IsStorable}
use open_core_sdk.Kernel.{VirtualMemoryArea}
use open_core_sdk.Lp.{OpencoreImpl}
use open_core_sdk.Lp.Prepare.{parser_phdr, parser_nt_file, add_fileslen, parse_tables}
use open_core_sdk.Lp.Load.Healthy.{IsPaged}
use open_core_sdk.Lp.Dump.Filtered.{IsMapping, parsed-IsPaged, parsed-IsStorable}
use open_core_sdk.Lp.Layout.{names_size}

-- An object that has dumped nothing: its tables are empty, and its sums are zero.
pub record IsUnused (s : OpencoreImpl) : Type 0 where
  pub page : s.align_size ≡ 4096
  pub no_extra : s.extra_note_filesz ≡ 0
  pub no_maps : s.maps ≡ []
  pub no_phdr : s.phdr ≡ []
  pub no_files : s.file_table ≡ []
  pub no_names : s.fileslen ≡ 0
  pub no_auxv : s.auxv ≡ []
  pub no_auxvnum : s.auxvnum ≡ 0
  pub no_prstatus : s.prstatus ≡ []
  pub no_note : s.note ≡ zero_phdr

add_fileslen_lem :
    (maps : List VirtualMemoryArea) (n : ℕ)
    → n + names_size maps < 2 ^ 31
    → add_fileslen n maps ≡ n + names_size maps
unfolding add_fileslen
add_fileslen_lem [] n h = omega arith
add_fileslen_lem (vma ∷ maps) n h =
    let e : int (n + (length vma.file + 1)) ≡ n + (length vma.file + 1) = omega (arith, h) in
    rw e (add_fileslen_lem maps (n + (length vma.file + 1)) (omega (arith, h)) ∙ omega arith)

-- The tables after ParseProcessMapsVma.
pub record IsParsed (c : ElfClass) (s : OpencoreImpl) : Type 0 where
  pub page : s.align_size ≡ 4096
  pub no_extra : s.extra_note_filesz ≡ 0
  pub no_auxv : s.auxv ≡ []
  pub no_auxvnum : s.auxvnum ≡ 0
  pub no_prstatus : s.prstatus ≡ []
  pub no_note : s.note ≡ zero_phdr
  pub files : length s.file_table ≡ length s.phdr
  pub mapped : length s.maps ≡ length s.phdr
  pub names : names_size s.maps < 2 ^ 31 → s.fileslen ≡ names_size s.maps
  pub paged : All (IsMapping c) s.maps → All IsPaged s.phdr
  pub storable : All (IsStorable c) s.phdr

pub parse_tables-IsParsed :
    (c : ElfClass) (ms : List VirtualMemoryArea) (s : OpencoreImpl)
    → IsUnused s
    → IsParsed c (parse_tables c ms (record s { base = record (s.base) { maps = ms } }))
unfolding parse_tables
parse_tables-IsParsed c [] s u = record {
  page = u.page;
  no_extra = u.no_extra;
  no_auxv = u.no_auxv;
  no_auxvnum = u.no_auxvnum;
  no_prstatus = u.no_prstatus;
  no_note = u.no_note;
  files = ap length u.no_files ∙ sym (ap length u.no_phdr);
  mapped = sym (ap length u.no_phdr);
  names = λ h. u.no_names;
  paged = λ v. subst (All IsPaged) (sym u.no_phdr) tt;
  storable = subst (All (IsStorable c)) (sym u.no_phdr) tt;
}
parse_tables-IsParsed c (vma ∷ ms) s u = record {
  page = u.page;
  no_extra = u.no_extra;
  no_auxv = u.no_auxv;
  no_auxvnum = u.no_auxvnum;
  no_prstatus = u.no_prstatus;
  no_note = u.no_note;
  files =
      length-map (vma ∷ ms) (parser_nt_file c)
      ∙ sym (length-map (vma ∷ ms) (parser_phdr c s.align_size zero_phdr));
  mapped = sym (length-map (vma ∷ ms) (parser_phdr c s.align_size zero_phdr));
  names = λ h.
      ap (λ n. add_fileslen n (vma ∷ ms)) u.no_names
      ∙ add_fileslen_lem (vma ∷ ms) 0 (omega (arith, h))
      ∙ omega arith;
  paged = λ v.
      subst (λ a. All IsPaged (map (parser_phdr c a zero_phdr) (vma ∷ ms))) (sym u.page)
        (parsed-IsPaged c (vma ∷ ms) v);
  storable =
      subst (λ a. All (IsStorable c) (map (parser_phdr c a zero_phdr) (vma ∷ ms))) (sym u.page)
        (parsed-IsStorable c (vma ∷ ms));
}
