-- ===== src/Lp/Layout/NotesRead.antt =====
-- The notes of the core file, read back from its bytes.
use open_core_sdk.Prelude.{
  ℕ, suc, ◌+◌, ◌*◌, ◌%◌, ◌^◌, ◌<◌, ◌≡◌, sym, ap, ◌∙◌, arith, true, List, [], ◌∷◌, ◌++◌,
  append_assoc, map, some, length, length-append, take, take-append, drop, drop-append, All,
}
use open_core_sdk.Lp.Load.Healthy.{segments_bytes}
use open_core_sdk.Elf.{phdr_size, auxv_size, nt_auxv, nt_file}
use open_core_sdk.Elf.Encode.{length-encode_ehdr, length-encode_phdr, encode_ehdr, encode_phdr}
use open_core_sdk.Elf.NoteList.{IsNote, encoded, IsNote-append, read_notes, read_notes-encode}
use open_core_sdk.Kernel.{Kernel}
use open_core_sdk.Stream.Append.{concat, length-concat-map}
use open_core_sdk.Lp.{OpencoreImpl}
use open_core_sdk.Lp.Write.{sized_note, file_desc_size}
use open_core_sdk.Lp.Dump.{Arch}
use open_core_sdk.Lp.Layout.{headers_size}
use open_core_sdk.Lp.Layout.NoteList.{core_note-IsNote}
use open_core_sdk.Lp.Layout.File.{NotesLaws, IsReady, placed}
use open_core_sdk.Lp.Layout.Front.{
  note_bytes, length-placed, p_filesz-sized_note, p_offset-sized_note,
}
use open_core_sdk.Lp.Layout.Core.{core_bytes}
use open_core_sdk.Lp.Layout.Table.{core_parts, body, placed_at, length-placed_at}
use open_core_sdk.Lp.Layout.NoteBytes.{
  ThreadNotes, auxv_whole, file_int, auxv_note, file_note, all_notes, zeros, auxv_size_lem,
  file_size_lem, notes_lem, length-all_notes,
}

module _ (arch : Arch) (laws : NotesLaws arch) (lists : ThreadNotes arch) (k : Kernel)
    (s : OpencoreImpl) (r : IsReady arch.elf_class laws.notes s) (opens : k.opens_mem s.pid ≡ true)
    (short : auxv_size arch.elf_class * s.auxvnum < 2 ^ 32) where
  open arch use {elf_class as c}

  all_notes-IsNote : All IsNote (all_notes arch laws lists k s r opens short)
  all_notes-IsNote =
      IsNote-append (lists.note_list k (placed c s))
        (auxv_note c (placed c s) ∷ file_note c (placed c s) ∷ [])
        (lists.list_IsNote k (placed c s))
        (
          core_note-IsNote (auxv_size c * s.auxvnum) nt_auxv _
              (auxv_size_lem arch laws lists k s r opens short) (omega arith) short
              (auxv_whole c s.auxvnum),
          (
            core_note-IsNote (file_desc_size c (length (placed c s).phdr) s.fileslen) nt_file _
                (file_size_lem arch laws lists k s r opens short) (omega arith) small whole,
            tt,
          ),
        )
    where
      half : length (placed c s).phdr + 1 < 2 ^ 16
      half = omega (arith, length-placed arch laws k s r, r.table_half)

      small : file_desc_size c (length (placed c s).phdr) s.fileslen < 2 ^ 32
      small = (file_int c _ s.fileslen half r.names_int).1

      whole : file_desc_size c (length (placed c s).phdr) s.fileslen % 4 ≡ 0
      whole = (file_int c _ s.fileslen half r.names_int).2

  -- Suppose that the tables are ready, the process memory can be opened, and the auxiliary vector is
  -- shorter than 4 GiB. Then a reader of the note segment of the file, from `p_offset` on and
  -- `p_filesz` long, finds the notes of the threads, NT_AUXV and NT_FILE, and nothing else.
  pub read_notes-core_bytes :
      read_notes
        (take (sized_note c s).p_filesz (drop (sized_note c s).p_offset (core_bytes arch k s)))
      ≡ some (all_notes arch laws lists k s r opens short)
  read_notes-core_bytes =
      ap (λ o. read_notes (take (sized_note c s).p_filesz (drop o (core_bytes arch k s))))
        (p_offset-sized_note arch laws k s r)
      ∙ ap (λ z. read_notes (take z (drop at_ (core_bytes arch k s))))
          (p_filesz-sized_note arch laws k s r)
      ∙ ap (λ bs. read_notes (take size (drop at_ bs))) (core_parts arch laws k s r opens)
      ∙ ap (λ bs. read_notes (take size (drop at_ bs)))
          (sym (append_assoc (encode_ehdr c s.ehdr) headers (body arch laws k s r opens)))
      ∙ ap (λ bs. read_notes (take size bs))
          (drop-append at_ (encode_ehdr c s.ehdr ++ headers) (body arch laws k s r opens)
            (sym length-headers))
      ∙ ap (λ bs. read_notes (take size (bs ++ segments)))
          (notes_lem arch laws lists k s r opens short)
      ∙ ap (λ bs. read_notes (take size bs))
          (append_assoc (encoded (all_notes arch laws lists k s r opens short))
            (zeros arch laws lists k s r opens short) segments)
      ∙ ap read_notes (
          take-append size (encoded (all_notes arch laws lists k s r opens short))
            ((zeros arch laws lists k s r opens short) ++ segments)
            (sym (length-all_notes arch laws lists k s r opens short)))
      ∙ read_notes-encode (all_notes arch laws lists k s r opens short) all_notes-IsNote
    where
      at_ : ℕ
      at_ = headers_size c (length s.phdr)

      size : ℕ
      size = note_bytes arch laws k s r

      headers : List ℕ
      headers = concat (map (encode_phdr c) (sized_note c s ∷ placed_at arch laws k s r opens))

      segments : List ℕ
      segments = segments_bytes (k.pread s.pid) c 4096 (placed_at arch laws k s r opens)

      length-headers : length (encode_ehdr c s.ehdr ++ headers) ≡ at_
      length-headers = omega (
        arith,
        length-append (encode_ehdr c s.ehdr) headers,
        length-encode_ehdr c s.ehdr,
        length-concat-map (phdr_size c) (encode_phdr c)
            (sized_note c s ∷ placed_at arch laws k s r opens) (length-encode_phdr c),
        ap (λ (n : ℕ). phdr_size c * suc n) (length-placed_at arch laws k s r opens),
      )
