-- ===== src/Lp/Write.antt =====
-- The writers up to the load segments: WriteCoreHeader, WriteCoreNoteHeader,
-- WriteCoreProgramHeaders, WriteCoreSignalInfo, WriteCoreAUXV, WriteNtFile, AlignNoteSegment
-- (opencore/src/main/cpp/opencore/lp64/opencore.cpp and lp32/opencore.cpp).
-- Each is the calls of `fwrite` that it makes, in order; none of them looks at the results.
use open_core_sdk.Prelude.{
  ℕ, ◌+◌, ◌-◌, ◌*◌, ◌^◌, List, [], ◌∷◌, ◌++◌, map, Option, none, some, length, take, replicate,
}
use open_core_sdk.Elf.{
  ElfClass, class32, class64, wrap, word_size, word_bits, sign_extend, int, nhdr_size, auxv_size,
  file_size, siginfo_size, Phdr, Nhdr, nt_siginfo, nt_auxv, nt_file,
}
use open_core_sdk.Elf.Encode.{le, encode_ehdr, encode_phdr, encode_nhdr, encode_auxv, encode_file}
use open_core_sdk.Rounding.{round_up}
use open_core_sdk.Kernel.{VirtualMemoryArea}
use open_core_sdk.Opencore.{Context}
use open_core_sdk.Stream.{Stream, fwrite_all}
use open_core_sdk.Lp.{OpencoreImpl}

-- `char magic[8]` cleared, then `snprintf(magic, namesz, ...)`: NOTE_CORE_NAME_SZ and
-- NOTE_LINUX_NAME_SZ count the final zero.
abbrev pub core_magic : List ℕ
core_magic = b'C' ∷ b'O' ∷ b'R' ∷ b'E' ∷ 0 ∷ 0 ∷ 0 ∷ 0 ∷ []

abbrev pub linux_magic : List ℕ
linux_magic = b'L' ∷ b'I' ∷ b'N' ∷ b'U' ∷ b'X' ∷ 0 ∷ 0 ∷ 0 ∷ []

abbrev pub note_core_name_sz : ℕ
note_core_name_sz = 5

abbrev pub note_linux_name_sz : ℕ
note_linux_name_sz = 6

abbrev pub core_nhdr : ℕ → ℕ → Nhdr
core_nhdr descsz type = record { n_namesz = note_core_name_sz; n_descsz = descsz; n_type = type }

abbrev pub linux_nhdr : ℕ → ℕ → Nhdr
linux_nhdr descsz type = record { n_namesz = note_linux_name_sz; n_descsz = descsz; n_type = type }

-- A buffer of `n` bytes, cleared, that a source of bytes is copied into.
unfoldable pub buffer : ℕ → List ℕ → List ℕ
buffer n bs = take n bs ++ replicate (n - length (take n bs)) 0

unfoldable pub write_core_header : ElfClass → OpencoreImpl → Stream → Stream
write_core_header c s = fwrite_all (encode_ehdr c s.ehdr ∷ [])

-- The last line of each of the three sums of WriteCoreNoteHeader.
abbrev pub auxv_note_size : ElfClass → ℕ → ℕ
auxv_note_size c auxvnum = auxv_size c * auxvnum + nhdr_size + 8

abbrev pub file_desc_size : ElfClass → ℕ → ℕ → ℕ
file_desc_size c phnum fileslen =
    file_size c * phnum + 2 * word_size c + sign_extend c (round_up 32 fileslen 4)

-- `note` after the sums.
unfoldable pub sized_note : ElfClass → OpencoreImpl → Phdr
sized_note c s = record (s.note) {
  p_filesz = wrap c (
      wrap c
        (wrap c (s.note.p_filesz + auxv_note_size c s.auxvnum) + sign_extend c s.extra_note_filesz)
      + (nhdr_size + 8 + file_desc_size c (length s.phdr) s.fileslen));
}

unfoldable pub write_core_note_header : ElfClass → OpencoreImpl → Stream → OpencoreImpl × Stream
write_core_note_header c s f =
    let note = sized_note c s in (record s { note = note }, fwrite_all (encode_phdr c note ∷ []) f)

-- The loop of WriteCoreProgramHeaders: the first offset is given, each later one is the end of the
-- entry before.
unfoldable pub place_phdrs : ElfClass → ℕ → List Phdr → List Phdr
place_phdrs c offset [] = []
place_phdrs c offset (p ∷ ps) =
    record p { p_offset = offset } ∷ place_phdrs c (wrap c (offset + p.p_filesz)) ps

-- `phdr` after the loop.
unfoldable pub placed_phdrs : ElfClass → OpencoreImpl → List Phdr
placed_phdrs c s =
    place_phdrs c (round_up (word_bits c) (wrap c (s.note.p_offset + s.note.p_filesz)) s.align_size)
      s.phdr

unfoldable pub write_core_program_headers : ElfClass → OpencoreImpl → Stream → OpencoreImpl × Stream
write_core_program_headers c s f =
    let phdr = placed_phdrs c s in
    (record s { phdr = phdr }, fwrite_all (map (encode_phdr c) phdr) f)

-- The siginfo that the handler was given, or zeros.
abbrev pub siginfo_bytes : Option (List ℕ) → List ℕ
siginfo_bytes none = []
siginfo_bytes (some info) = info

unfoldable pub signal_info_writes : OpencoreImpl → List (List ℕ)
signal_info_writes s =
    encode_nhdr (core_nhdr siginfo_size nt_siginfo)
    ∷ core_magic
    ∷ buffer siginfo_size (siginfo_bytes s.siginfo)
    ∷ []

unfoldable pub write_core_signal_info : OpencoreImpl → Stream → Stream
write_core_signal_info s = fwrite_all (signal_info_writes s)

unfoldable pub auxv_writes : ElfClass → OpencoreImpl → List (List ℕ)
auxv_writes c s =
    encode_nhdr (core_nhdr (int (auxv_size c * s.auxvnum)) nt_auxv)
    ∷ core_magic
    ∷ map (encode_auxv c) (take s.auxvnum s.auxv)

unfoldable pub write_core_auxv : ElfClass → OpencoreImpl → Stream → Stream
write_core_auxv c s = fwrite_all (auxv_writes c s)

-- The two words at the front of NT_FILE. lp32 writes 4 bytes of each; lp64 writes 8, also of the
-- 4-byte member `page_size`: the other 4 are the low half of the member behind it, `ucontext_raw`.
unfoldable pub address_of : Option Context → ℕ
address_of none = 0
address_of (some context) = context.address

unfoldable pub page_size_word : ElfClass → OpencoreImpl → List ℕ
page_size_word class32 s = le 4 s.page_size
page_size_word class64 s = le 4 s.page_size ++ le 4 (address_of s.ucontext_raw)

-- `file.data()` with the zero behind it.
abbrev pub name_bytes : VirtualMemoryArea → List ℕ
name_bytes vma = vma.file ++ (0 ∷ [])

unfoldable pub nt_file_writes : ElfClass → OpencoreImpl → List (List ℕ)
nt_file_writes c s =
    encode_nhdr (core_nhdr (int (file_desc_size c (length s.phdr) s.fileslen)) nt_file)
    ∷ core_magic
    ∷ le (word_size c) (length s.phdr)
    ∷ page_size_word c s
    ∷ (map (encode_file c) (take (length s.phdr) s.file_table)
        ++ map name_bytes (take (length s.phdr) s.maps))

unfoldable pub write_nt_file : ElfClass → OpencoreImpl → Stream → Stream
write_nt_file c s = fwrite_all (nt_file_writes c s)

-- `size` of AlignNoteSegment: from the end of the note as it was written to the page behind it.
unfoldable pub padding_size : ElfClass → ℕ → ℕ → ℕ → ℕ → ℕ
padding_size c align_size p_offset p_filesz fileslen =
    wrap c (offset + 2 ^ word_bits c - wrap c (p_offset + align_filesz))
  where
    align_filesz : ℕ
    align_filesz = wrap c (
        p_filesz
        + 2 ^ word_bits c
        - sign_extend c (round_up 32 fileslen 4)
        + sign_extend c fileslen)

    offset : ℕ
    offset = round_up (word_bits c) (wrap c (p_offset + align_filesz)) align_size

-- That many bytes of the page `zero`, which was cleared.
unfoldable pub align_note_segment : ElfClass → OpencoreImpl → Stream → Stream
align_note_segment c s =
    fwrite_all
      (replicate (padding_size c s.align_size s.note.p_offset s.note.p_filesz s.fileslen) 0 ∷ [])
