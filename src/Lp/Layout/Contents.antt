-- ===== src/Lp/Layout/Contents.antt =====
-- What stands in the core file, from its first byte to its last
-- (opencore/src/main/cpp/opencore/lp64/opencore.cpp and lp32/opencore.cpp).
use open_core_sdk.Prelude.{
  ℕ, ◌+◌, ◌-◌, ◌*◌, ◌^◌, ◌<◌, ◌≡◌, refl, sym, ap, ◌∙◌, subst, arith, true, List, [], ◌∷◌, ◌++◌,
  append_assoc, map, length, replicate, All,
}
use open_core_sdk.Elf.{ElfClass, auxv_size, Phdr}
use open_core_sdk.Elf.Encode.{encode_ehdr, encode_phdr}
use open_core_sdk.Elf.NoteList.{encoded}
use open_core_sdk.Kernel.{Kernel}
use open_core_sdk.Stream.Append.{concat}
use open_core_sdk.Lp.{OpencoreImpl}
use open_core_sdk.Lp.Write.{sized_note}
use open_core_sdk.Lp.Load.Healthy.{IsPaged, segments_bytes}
use open_core_sdk.Lp.Load.Memory.{Reads, memory_bytes, segment_bytes_lem}
use open_core_sdk.Lp.Dump.{Arch}
use open_core_sdk.Lp.Layout.{pages, headers_size, words}
use open_core_sdk.Lp.Layout.File.{NotesLaws, IsReady, note_writes}
use open_core_sdk.Lp.Layout.Front.{padding, padding_lem}
use open_core_sdk.Lp.Layout.Core.{core_bytes, core_phdrs, core_phdrs_lem, core_IsPaged}
use open_core_sdk.Lp.Layout.Table.{core_parts}
use open_core_sdk.Lp.Layout.NoteBytes.{ThreadNotes, all_notes, notes_lem, length-all_notes}
use open_core_sdk.Lp.Layout.Peek.{IsLoad, core_phdrs-IsLoad}

-- The memory of the dumped segments, one behind the other.
abbrev pub dumped_memory : (ℕ → ℕ) → List Phdr → List ℕ
dumped_memory mem [] = []
dumped_memory mem (p ∷ ps) = memory_bytes mem p.p_vaddr p.p_filesz ++ dumped_memory mem ps

segments_bytes-dumped_memory :
    (pread : ℕ → ℕ → List ℕ) (c : ElfClass) (mem : ℕ → ℕ) (ps : List Phdr)
    → All IsPaged ps
    → All (IsLoad c) ps
    → All (Reads pread mem) ps
    → segments_bytes pread c 4096 ps ≡ dumped_memory mem ps
unfolding segments_bytes
segments_bytes-dumped_memory pread c mem [] v l r = refl
segments_bytes-dumped_memory pread c mem (p ∷ ps) (v, vs) (l, ls) (r, rs) =
    ap (λ t. t ++ segments_bytes pread c 4096 ps)
      (segment_bytes_lem pread mem c p v l.aligned l.moderate l.inside r)
    ∙ ap (λ t. memory_bytes mem p.p_vaddr p.p_filesz ++ t)
        (segments_bytes-dumped_memory pread c mem ps vs ls rs)

-- The file header, the headers of the notes and of the segments, the notes, `n` zeros up to the next
-- page, and the memory of the segments.
abbrev pub Contents : ElfClass → OpencoreImpl → List Phdr → List ℕ → (ℕ → ℕ) → List ℕ → Type 0
Contents c s phdrs notes mem file =
    (n : ℕ) × (file
      ≡ encode_ehdr c s.ehdr
        ++ (concat (map (encode_phdr c) (sized_note c s ∷ phdrs))
            ++ (notes ++ (replicate n 0 ++ dumped_memory mem phdrs))))
    × (headers_size c (length s.phdr) + length notes + n
        ≡ pages (headers_size c (length s.phdr) + length notes))

module _ (arch : Arch) (laws : NotesLaws arch) (lists : ThreadNotes arch) (k : Kernel)
    (s : OpencoreImpl) (r : IsReady arch.elf_class laws.notes s) (opens : k.opens_mem s.pid ≡ true)
    (short : auxv_size arch.elf_class * s.auxvnum < 2 ^ 32) where
  open arch use {elf_class as c}

  abbrev notes : List ℕ
  notes = encoded (all_notes arch laws lists k s r opens short)

  abbrev fill : ℕ
  fill = padding arch laws k s r - (words s.fileslen - s.fileslen)

  memory_lem :
      (mem : ℕ → ℕ)
      → All (IsLoad c) s.phdr
      → All (Reads (k.pread s.pid) mem) (core_phdrs arch k s)
      → segments_bytes (k.pread s.pid) c 4096 (core_phdrs arch k s)
        ≡ dumped_memory mem (core_phdrs arch k s)
  memory_lem mem loads reads =
      segments_bytes-dumped_memory (k.pread s.pid) c mem (core_phdrs arch k s)
        (subst (All IsPaged) (sym (core_phdrs_lem arch laws k s r opens))
          (core_IsPaged arch laws k s r opens))
        (core_phdrs-IsLoad arch laws k s r opens loads) reads

  -- The file as the writers have it.
  parts :
      core_bytes arch k s
      ≡ encode_ehdr c s.ehdr
        ++ (concat (map (encode_phdr c) (sized_note c s ∷ core_phdrs arch k s))
            ++ (concat (note_writes arch laws k s)
                ++ segments_bytes (k.pread s.pid) c 4096 (core_phdrs arch k s)))
  parts =
      core_parts arch laws k s r opens
      ∙ ap
          (λ qs.
            encode_ehdr c s.ehdr
            ++ (concat (map (encode_phdr c) (sized_note c s ∷ qs))
                ++ (concat (note_writes arch laws k s)
                    ++ segments_bytes (k.pread s.pid) c 4096 qs)))
          (sym (core_phdrs_lem arch laws k s r opens))

  notes_part :
      (rest : List ℕ)
      → concat (note_writes arch laws k s) ++ rest ≡ notes ++ (replicate fill 0 ++ rest)
  notes_part rest =
      ap (λ t. t ++ rest) (notes_lem arch laws lists k s r opens short)
      ∙ append_assoc notes (replicate fill 0) rest

  -- Suppose that the tables are ready, the process memory can be opened, the auxiliary vector is
  -- shorter than 4 GiB, the segments are aligned to 4096, up to 4 GiB long and within the address
  -- space, the pages of the dumped ones read as `mem`, and the disk takes every write. Then the core
  -- file is the ELF header, the header of the notes, the header of each segment, every note, zeros up
  -- to the end of the page, and the memory of the dumped segments in the order of their headers, and
  -- nothing else.
  pub core_bytes-Contents :
      (mem : ℕ → ℕ)
      → All (IsLoad c) s.phdr
      → All (Reads (k.pread s.pid) mem) (core_phdrs arch k s)
      → Contents c s (core_phdrs arch k s) notes mem (core_bytes arch k s)
  core_bytes-Contents mem loads reads = (
    fill,
    parts
        ∙ ap
            (λ t.
              encode_ehdr c s.ehdr
              ++ (concat (map (encode_phdr c) (sized_note c s ∷ core_phdrs arch k s)) ++ t))
            (notes_part (segments_bytes (k.pread s.pid) c 4096 (core_phdrs arch k s))
              ∙ ap (λ t. notes ++ (replicate fill 0 ++ t)) (memory_lem mem loads reads)),
    ends_page,
  )
    where
      ends_page :
          headers_size c (length s.phdr) + length notes + fill
          ≡ pages (headers_size c (length s.phdr) + length notes)
      ends_page =
          omega
            (arith, length-all_notes arch laws lists k s r opens short, padding_lem arch laws k s r)
