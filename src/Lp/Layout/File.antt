-- ===== src/Lp/Layout/File.antt =====
-- The core file that the writers of DoCoredump leave, over a disk that takes every write.
use open_core_sdk.Prelude.{
  ℕ, ◌+◌, ◌%◌, ◌^◌, ◌<◌, ◌≡◌, refl, ap, ◌∙◌, Bool, true, List, [], ◌∷◌, ◌++◌, map, length,
  replicate, All,
}
use open_core_sdk.Elf.{ElfClass, word_bits, ehdr_size, pt_note, Phdr, zero_phdr}
use open_core_sdk.Elf.Decode.{IsStorable}
use open_core_sdk.Elf.Encode.{encode_ehdr, encode_phdr}
use open_core_sdk.Kernel.{Kernel}
use open_core_sdk.Stream.{Stream, Outcome, fresh, fwrite_all}
use open_core_sdk.Stream.Append.{
  concat, append, fresh-IsAppending, append-IsAppending, fwrite_all-append, fwrite_all-append_calls,
}
use open_core_sdk.Lp.{OpencoreImpl}
use open_core_sdk.Lp.Write.{
  sized_note, placed_phdrs, padding_size, write_core_header, write_core_note_header,
  write_core_program_headers, write_core_auxv, write_nt_file, align_note_segment, auxv_writes,
  nt_file_writes,
}
use open_core_sdk.Lp.Load.{write_core_load_segment, write_segments}
use open_core_sdk.Lp.Load.Healthy.{IsPaged, total_filesz, segments_bytes, write_segments-append}
use open_core_sdk.Lp.Dump.{Arch, write_core}
use open_core_sdk.Lp.Layout.{note_size, headers_size, names_size}

-- What the class of a processor promises about its notes: `notes n` is the size of those of `n`
-- threads, in whole words; that many bytes are announced, and written; and CreateCorePrStatus
-- changes nothing else.
pub record NotesLaws (arch : Arch) : Type 0 where
  pub notes : ℕ → ℕ
  pub notes_words : (n : ℕ) → notes n % 4 ≡ 0
  pub writes_size :
      (k : Kernel) (s : OpencoreImpl)
      → length (concat (arch.prstatus_writes k s)) ≡ notes (length s.prstatus)
  pub create_frame :
      (k : Kernel) (s : OpencoreImpl)
      → let s' = arch.create_core_prstatus k s in
        s' ≡ record s {
          base = record (s.base) { extra_note_filesz = s'.extra_note_filesz };
          prstatus = s'.prstatus;
        }
  pub length-create :
      (k : Kernel) (s : OpencoreImpl)
      → s.prstatus ≡ []
      → length (arch.create_core_prstatus k s).prstatus ≡ length s.threads
  pub extra-create :
      (k : Kernel) (s : OpencoreImpl)
      → s.extra_note_filesz ≡ 0
      → notes (length s.threads) < 2 ^ 31
      → (arch.create_core_prstatus k s).extra_note_filesz ≡ notes (length s.threads)

-- The tables as they stand before the first write.
pub record IsReady (c : ElfClass) (notes : ℕ → ℕ) (s : OpencoreImpl) : Type 0 where
  pub page : s.align_size ≡ 4096
  pub note_at : s.note.p_offset ≡ headers_size c (length s.phdr)
  pub note_empty : s.note.p_filesz ≡ 0
  pub extra : s.extra_note_filesz ≡ notes (length s.prstatus)
  pub extra_int : s.extra_note_filesz < 2 ^ 31
  pub auxv_read : length s.auxv ≡ s.auxvnum
  pub files : length s.file_table ≡ length s.phdr
  pub mapped : length s.maps ≡ length s.phdr
  pub names : s.fileslen ≡ names_size s.maps
  pub names_int : s.fileslen + 3 < 2 ^ 31
  pub paged : All IsPaged s.phdr
  pub storable : All (IsStorable c) s.phdr
  pub table_at : s.ehdr.e_phoff ≡ ehdr_size c
  pub table_entries : s.ehdr.e_phnum ≡ length s.phdr + 1
  pub table_half : length s.phdr + 1 < 2 ^ 16
  pub note_rest : s.note ≡ record zero_phdr { p_type = pt_note; p_offset = s.note.p_offset }
  pub fits :
      headers_size c (length s.phdr)
        + note_size c s.auxvnum s.extra_note_filesz (length s.phdr) s.fileslen
        + 4096
        + total_filesz s.phdr
      < 2 ^ word_bits c

-- The state after the program headers are written.
abbrev pub with_note : ElfClass → OpencoreImpl → OpencoreImpl
with_note c s = record s { note = sized_note c s }

abbrev pub placed : ElfClass → OpencoreImpl → OpencoreImpl
placed c s = record (with_note c s) { phdr = placed_phdrs c (with_note c s) }

pub load_lem :
    (opens : Bool) (pread : ℕ → ℕ → List ℕ) (c : ElfClass) (align_size : ℕ) (ps : List Phdr)
    (f : Stream)
    → opens ≡ true
    → align_size ≡ 4096
    → write_core_load_segment opens pread c align_size ps f ≡ write_segments pread c 4096 ps f
unfolding write_core_load_segment
load_lem opens pread c align_size ps f o a = rw (o, a) refl

module _ (arch : Arch) (laws : NotesLaws arch) (k : Kernel) (s : OpencoreImpl) where
  open arch use {elf_class as c}

  -- The notes of the threads, NT_AUXV, NT_FILE and the padding behind them.
  abbrev pub note_writes : List (List ℕ)
  note_writes =
      arch.prstatus_writes k (placed c s)
      ++ (auxv_writes c (placed c s)
          ++ (nt_file_writes c (placed c s)
              ++ (replicate
                    (padding_size c s.align_size (sized_note c s).p_offset (sized_note c s).p_filesz
                      s.fileslen)
                    0
                  ∷ [])))

  -- All that is written before the segments.
  abbrev pub front_writes : List (List ℕ)
  front_writes =
      (encode_ehdr c s.ehdr ∷ [])
      ++ ((encode_phdr c (sized_note c s) ∷ [])
          ++ (map (encode_phdr c) (placed c s).phdr ++ note_writes))

  pub front_calls :
      (os : List Outcome)
      → align_note_segment c (placed c s) (
          write_nt_file c (placed c s) (
            write_core_auxv c (placed c s) (
              fwrite_all
                (arch.prstatus_writes k (placed c s))
                (write_core_program_headers c
                  (with_note c s)
                  (write_core_note_header c s (write_core_header c s (fresh os))).1).1)))
        ≡ fwrite_all front_writes (fresh os)
  unfolding align_note_segment write_nt_file write_core_auxv write_core_program_headers
      write_core_note_header write_core_header fwrite_all
  front_calls os = simp fwrite_all-append_calls

  -- The writers are those calls, and then the segments.
  pub write_core_lem :
      k.opens_mem s.pid ≡ true
      → s.align_size ≡ 4096
      → (write_core arch k s (fresh [])).1
        ≡ append
            (segments_bytes (k.pread s.pid) c 4096 (placed c s).phdr)
            (append (concat front_writes) (fresh []))
  unfolding write_core write_core_program_headers write_core_note_header
  write_core_lem opens page =
      ap
        (write_core_load_segment (k.opens_mem s.pid) (k.pread s.pid) c s.align_size
          (placed c s).phdr)
        (front_calls [] ∙ fwrite_all-append front_writes fresh-IsAppending)
      ∙ load_lem (k.opens_mem s.pid) (k.pread s.pid) c s.align_size (placed c s).phdr _ opens page
      ∙ write_segments-append (k.pread s.pid) c 4096 (placed c s).phdr
          (append-IsAppending (concat front_writes) fresh-IsAppending)
