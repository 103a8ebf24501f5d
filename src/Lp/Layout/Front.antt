-- ===== src/Lp/Layout/Front.antt =====
-- How long the front of the core file is: everything before the first segment.
use open_core_sdk.Prelude.{
  ℕ, ◌+◌, ◌-◌, ◌*◌, ◌≡◌, sym, ap, ◌∙◌, arith, List, [], ◌∷◌, ◌++◌, map, length, length-append,
  replicate, length-replicate,
}
use open_core_sdk.Elf.{phdr_size}
use open_core_sdk.Elf.Encode.{encode_ehdr, encode_phdr, length-encode_ehdr, length-encode_phdr}
use open_core_sdk.Kernel.{Kernel}
use open_core_sdk.Stream.Append.{concat, length-concat-append, length-concat-map}
use open_core_sdk.Lp.{OpencoreImpl}
use open_core_sdk.Lp.Write.{
  sized_note, placed_phdrs, place_phdrs, padding_size, auxv_writes, nt_file_writes,
}
use open_core_sdk.Lp.Load.Place.{length-place_phdrs}
use open_core_sdk.Lp.Dump.{Arch}
use open_core_sdk.Lp.Layout.{words, pages, note_size, headers_size, names_size, file_part}
use open_core_sdk.Lp.Layout.Sizes.{note_filesz, padding_at, whole_words, first_offset}
use open_core_sdk.Lp.Layout.Notes.{length-auxv_writes, length-nt_file_writes}
use open_core_sdk.Lp.Layout.File.{NotesLaws, IsReady, placed, front_writes}

module _ (arch : Arch) (laws : NotesLaws arch) (k : Kernel) (s : OpencoreImpl)
    (r : IsReady arch.elf_class laws.notes s) where
  open arch use {elf_class as c}

  abbrev pub phnum : ℕ
  phnum = length s.phdr

  abbrev pub note_bytes : ℕ
  note_bytes = note_size c s.auxvnum s.extra_note_filesz phnum s.fileslen

  -- Where the first segment begins.
  abbrev pub first_page : ℕ
  first_page = pages (headers_size c phnum + note_bytes)

  pub p_filesz-sized_note : (sized_note c s).p_filesz ≡ note_bytes
  unfolding sized_note
  p_filesz-sized_note =
      note_filesz c s.note.p_filesz s.auxvnum s.extra_note_filesz phnum s.fileslen r.note_empty
        r.extra_int r.names_int (omega (arith, r.fits))

  pub p_offset-sized_note : (sized_note c s).p_offset ≡ headers_size c phnum
  unfolding sized_note
  p_offset-sized_note = r.note_at

  pub placed_phdrs_lem : (placed c s).phdr ≡ place_phdrs c first_page s.phdr
  unfolding placed_phdrs
  placed_phdrs_lem =
      ap (λ o. place_phdrs c o s.phdr)
        (first_offset c (sized_note c s).p_offset (sized_note c s).p_filesz s.align_size
          (headers_size c phnum) note_bytes p_offset-sized_note p_filesz-sized_note r.page
          (omega (arith, r.fits)))

  pub length-placed : length (placed c s).phdr ≡ phnum
  length-placed = ap length placed_phdrs_lem ∙ length-place_phdrs c first_page s.phdr

  abbrev pub padding : ℕ
  padding =
      padding_size c s.align_size (sized_note c s).p_offset (sized_note c s).p_filesz s.fileslen

  pub padding_lem :
      padding + (note_bytes - words s.fileslen + s.fileslen) + headers_size c phnum ≡ first_page
  padding_lem =
      padding_at c s.align_size (sized_note c s).p_offset (sized_note c s).p_filesz s.fileslen
        (headers_size c phnum) note_bytes r.page p_offset-sized_note p_filesz-sized_note r.names_int
        (omega arith)
        (whole_words c s.auxvnum s.extra_note_filesz phnum s.fileslen
          (rw r.extra (laws.notes_words (length s.prstatus))))
        (omega (arith, r.fits))

  pub length-front : length (concat (front_writes arch laws k s)) ≡ first_page
  length-front = omega (
    arith,
    padding_lem,
    r.extra,
    r.names,
    length-append (encode_ehdr c s.ehdr) (concat (note ++ (headers ++ (threads ++ rest)))),
    length-append (encode_phdr c (sized_note c s)) (concat (headers ++ (threads ++ rest))),
    length-encode_ehdr c s.ehdr,
    length-encode_phdr c (sized_note c s),
    length-concat-append headers (threads ++ rest),
    length-concat-map (phdr_size c) (encode_phdr c) (placed c s).phdr (length-encode_phdr c),
    ap (λ (t : ℕ). phdr_size c * t) length-placed,
    length-concat-append threads rest,
    laws.writes_size k (placed c s),
    length-concat-append (auxv_writes c (placed c s)) (nt_file_writes c (placed c s) ++ zeros),
    length-auxv_writes c (placed c s) r.auxv_read,
    length-concat-append (nt_file_writes c (placed c s)) zeros,
    length-nt_file_writes c (placed c s) (r.files ∙ sym length-placed)
        (r.mapped ∙ sym length-placed),
    ap (λ (t : ℕ). file_part c t (names_size s.maps)) length-placed,
    length-append {A = ℕ} (replicate padding 0) [],
    length-replicate {A = ℕ} padding 0,
  )
    where
      note : List (List ℕ)
      note = encode_phdr c (sized_note c s) ∷ []

      headers : List (List ℕ)
      headers = map (encode_phdr c) (placed c s).phdr

      threads : List (List ℕ)
      threads = arch.prstatus_writes k (placed c s)

      zeros : List (List ℕ)
      zeros = replicate padding 0 ∷ []

      rest : List (List ℕ)
      rest = auxv_writes c (placed c s) ++ (nt_file_writes c (placed c s) ++ zeros)
