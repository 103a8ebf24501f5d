-- ===== src/Lp/Layout/Table.antt =====
-- The program header table of the core file, read back from its bytes.
use open_core_sdk.Prelude.{
  ℕ, ◌+◌, ◌^◌, ◌<◌, ◌≡◌, sym, ap, ◌∙◌, arith, true, List, [], ◌∷◌, ◌++◌, append_assoc, map, length,
  All,
}
use open_core_sdk.Elf.{ElfClass, class32, class64, word_bits, wrap, Phdr}
use open_core_sdk.Elf.Encode.{encode_ehdr, encode_phdr}
use open_core_sdk.Elf.Decode.{IsStorable, read_table, read_table-encode}
use open_core_sdk.Kernel.{Kernel}
use open_core_sdk.Stream.Append.{concat, concat-append}
use open_core_sdk.Lp.{OpencoreImpl}
use open_core_sdk.Lp.Write.{sized_note, place_phdrs}
use open_core_sdk.Lp.Load.Healthy.{segments_bytes}
use open_core_sdk.Lp.Load.Place.{length-place_phdrs}
use open_core_sdk.Lp.Dump.{Arch}
use open_core_sdk.Lp.Layout.File.{NotesLaws, IsReady, placed, front_writes, note_writes}
use open_core_sdk.Lp.Layout.Front.{first_page, placed_phdrs_lem}
use open_core_sdk.Lp.Layout.Core.{core_bytes, core_phdrs, core_bytes_lem, core_phdrs_lem}

wrap_word : (c : ElfClass) (n : ℕ) → wrap c n < 2 ^ word_bits c
wrap_word class32 n = omega arith
wrap_word class64 n = omega arith

place_phdrs-IsStorable :
    (c : ElfClass) (offset : ℕ) (ps : List Phdr)
    → offset < 2 ^ word_bits c
    → All (IsStorable c) ps
    → All (IsStorable c) (place_phdrs c offset ps)
unfolding place_phdrs
place_phdrs-IsStorable c offset [] h v = tt
place_phdrs-IsStorable c offset (p ∷ ps) h (v, vs) = (
  record {
    type_word = v.type_word;
    flags_word = v.flags_word;
    offset_word = h;
    vaddr_word = v.vaddr_word;
    paddr_word = v.paddr_word;
    filesz_word = v.filesz_word;
    memsz_word = v.memsz_word;
    align_word = v.align_word;
  },
  place_phdrs-IsStorable c (wrap c (offset + p.p_filesz)) ps (wrap_word c (offset + p.p_filesz)) vs,
)

module _ (arch : Arch) (laws : NotesLaws arch) (k : Kernel) (s : OpencoreImpl)
    (r : IsReady arch.elf_class laws.notes s) (opens : k.opens_mem s.pid ≡ true) where
  open arch use {elf_class as c}

  note-IsStorable : IsStorable c (sized_note c s)
  unfolding sized_note
  note-IsStorable = record {
    type_word = rw (ap (λ p. p.p_type) r.note_rest) (omega arith);
    flags_word = rw (ap (λ p. p.p_flags) r.note_rest) (omega arith);
    offset_word = rw r.note_at (omega (arith, r.fits));
    vaddr_word = omega (arith, ap (λ p. p.p_vaddr) r.note_rest);
    paddr_word = omega (arith, ap (λ p. p.p_paddr) r.note_rest);
    filesz_word = wrap_word c _;
    memsz_word = omega (arith, ap (λ p. p.p_memsz) r.note_rest);
    align_word = omega (arith, ap (λ p. p.p_align) r.note_rest);
  }

  -- What stands between the program headers and the first segment.
  abbrev after_headers : List ℕ
  after_headers = concat (note_writes arch laws k s)

  front_lem :
      concat (front_writes arch laws k s)
      ≡ encode_ehdr c s.ehdr
        ++ (concat (map (encode_phdr c) (sized_note c s ∷ (placed c s).phdr)) ++ after_headers)
  front_lem =
      ap (λ t. encode_ehdr c s.ehdr ++ (encode_phdr c (sized_note c s) ++ t))
        (concat-append (map (encode_phdr c) (placed c s).phdr) (note_writes arch laws k s))
      ∙ ap (λ t. encode_ehdr c s.ehdr ++ t)
          (sym (
            append_assoc (encode_phdr c (sized_note c s))
              (concat (map (encode_phdr c) (placed c s).phdr)) after_headers))

  abbrev pub placed_at : List Phdr
  placed_at = place_phdrs c (first_page arch laws k s r) s.phdr

  -- What stands behind the program headers.
  abbrev pub body : List ℕ
  body = after_headers ++ segments_bytes (k.pread s.pid) c 4096 placed_at

  pub core_parts :
      core_bytes arch k s
      ≡ encode_ehdr c s.ehdr ++ (concat (map (encode_phdr c) (sized_note c s ∷ placed_at)) ++ body)
  core_parts =
      core_bytes_lem arch laws k s r opens
      ∙ ap (λ t. t ++ segments_bytes (k.pread s.pid) c 4096 placed_at) front_lem
      ∙ ap
          (λ qs.
            (encode_ehdr c s.ehdr
              ++ (concat (map (encode_phdr c) (sized_note c s ∷ qs)) ++ after_headers))
            ++ segments_bytes (k.pread s.pid) c 4096 placed_at)
          (placed_phdrs_lem arch laws k s r)
      ∙ append_assoc (encode_ehdr c s.ehdr) _ _
      ∙ ap (λ t. encode_ehdr c s.ehdr ++ t) (append_assoc _ after_headers _)

  pub length-placed_at : length placed_at ≡ length s.phdr
  length-placed_at = length-place_phdrs c (first_page arch laws k s r) s.phdr

  -- When the tables are ready and the process memory can be opened, a reader that follows `e_phoff`
  -- and `e_phnum` of the file finds the header of the notes and those of the segments, each member
  -- as the program has it.
  pub read_table-core_bytes :
      read_table c (core_bytes arch k s) ≡ sized_note c s ∷ core_phdrs arch k s
  read_table-core_bytes =
      ap (read_table c) core_parts
      ∙ read_table-encode c s.ehdr (sized_note c s ∷ placed_at) body r.table_at
          (omega (arith, r.table_entries, length-placed_at))
          (omega (arith, r.table_half, length-placed_at))
          (note-IsStorable, place_phdrs-IsStorable c _ s.phdr (omega (arith, r.fits)) r.storable)
      ∙ ap (λ qs. sized_note c s ∷ qs) (sym (core_phdrs_lem arch laws k s r opens))
