-- ===== src/Lp/Layout/Core.antt =====
-- The layout and the bytes agree: what the headers of the core file announce is what stands there.
use open_core_sdk.Prelude.{
  ℕ, ◌+◌, ◌%◌, ◌^◌, ◌≤◌, ◌≡◌, sym, ap, ◌∙◌, arith, true, List, [], ◌++◌, some, take, drop,
  get_elem?, All, All-get_elem?,
}
use open_core_sdk.Elf.{word_bits, Phdr}
use open_core_sdk.Kernel.{Kernel}
use open_core_sdk.Stream.{fresh}
use open_core_sdk.Stream.Append.{concat}
use open_core_sdk.Lp.{OpencoreImpl}
use open_core_sdk.Lp.Write.{place_phdrs, write_core_program_headers, write_core_note_header}
use open_core_sdk.Lp.Load.Healthy.{IsPaged, segment_bytes, segments_bytes}
use open_core_sdk.Lp.Load.Place.{place_phdrs_slice, place_phdrs_aligned, place_phdrs-IsPaged}
use open_core_sdk.Lp.Load.Memory.{Reads, memory_bytes, segment_bytes_lem}
use open_core_sdk.Lp.Dump.{Arch, write_core}
use open_core_sdk.Lp.Layout.File.{NotesLaws, IsReady, front_writes, write_core_lem}
use open_core_sdk.Lp.Layout.Front.{first_page, placed_phdrs_lem, length-front}

-- The file that the writers leave, and the program headers in it.
abbrev pub core_bytes : Arch → Kernel → OpencoreImpl → List ℕ
core_bytes arch k s = (write_core arch k s (fresh [])).1.bytes

abbrev pub core_phdrs : Arch → Kernel → OpencoreImpl → List Phdr
core_phdrs arch k s = (write_core arch k s (fresh [])).0.phdr

module _ (arch : Arch) (laws : NotesLaws arch) (k : Kernel) (s : OpencoreImpl)
    (r : IsReady arch.elf_class laws.notes s) (opens : k.opens_mem s.pid ≡ true) where
  open arch use {elf_class as c}

  abbrev pub start : ℕ
  start = first_page arch laws k s r

  abbrev pub front : List ℕ
  front = concat (front_writes arch laws k s)

  pub core_phdrs_lem : core_phdrs arch k s ≡ place_phdrs c start s.phdr
  unfolding write_core write_core_program_headers write_core_note_header
  core_phdrs_lem = placed_phdrs_lem arch laws k s r

  pub core_bytes_lem :
      core_bytes arch k s
      ≡ front ++ segments_bytes (k.pread s.pid) c 4096 (place_phdrs c start s.phdr)
  core_bytes_lem =
      ap (λ f. f.bytes) (write_core_lem arch laws k s opens r.page)
      ∙ ap (λ ps. front ++ segments_bytes (k.pread s.pid) c 4096 ps)
          (placed_phdrs_lem arch laws k s r)

  core_segment :
      (i : ℕ) (q : Phdr)
      → get_elem? (core_phdrs arch k s) i ≡ some q
      → take q.p_filesz (drop q.p_offset (core_bytes arch k s))
        ≡ segment_bytes (k.pread s.pid) c 4096 q
  core_segment i q found =
      ap (λ bs. take q.p_filesz (drop q.p_offset bs)) core_bytes_lem
      ∙ place_phdrs_slice (k.pread s.pid) c s.phdr start front i q r.paged
          (sym (length-front arch laws k s r)) (omega (arith, r.fits))
          (ap (λ ps. get_elem? ps i) (sym core_phdrs_lem) ∙ found)

  pub core_IsPaged : All IsPaged (place_phdrs c start s.phdr)
  core_IsPaged = place_phdrs-IsPaged c start s.phdr r.paged

  -- Suppose that the tables are ready, the process memory can be opened and the pages of a
  -- dumped segment read as `mem`. Then for a program header of the file whose segment is so, is no
  -- longer than 4 GiB and does not run over the end of the address space, the `p_filesz` bytes at `p_offset`
  -- are the memory from `p_vaddr` on.
  pub segment_is_memory :
      (mem : ℕ → ℕ) (i : ℕ) (q : Phdr)
      → Reads (k.pread s.pid) mem q
      → get_elem? (core_phdrs arch k s) i ≡ some q
      → q.p_align ≡ 4096
      → q.p_memsz ≤ 2 ^ 32
      → q.p_vaddr + q.p_memsz ≤ 2 ^ word_bits c
      → take q.p_filesz (drop q.p_offset (core_bytes arch k s))
        ≡ memory_bytes mem q.p_vaddr q.p_filesz
  segment_is_memory mem i q reads found align small fits =
      core_segment i q found
      ∙ segment_bytes_lem (k.pread s.pid) mem c q (All-get_elem? IsPaged _ i core_IsPaged placed_at)
          align small fits reads
    where
      placed_at : get_elem? (place_phdrs c start s.phdr) i ≡ some q
      placed_at = ap (λ ps. get_elem? ps i) (sym core_phdrs_lem) ∙ found

  -- When the tables are ready and the process memory can be opened, every segment begins on a page
  -- of the file.
  pub segments_on_pages :
      (i : ℕ) (q : Phdr) → get_elem? (core_phdrs arch k s) i ≡ some q → q.p_offset % 4096 ≡ 0
  segments_on_pages i q found =
      place_phdrs_aligned c s.phdr start i q r.paged (omega arith)
        (ap (λ ps. get_elem? ps i) (sym core_phdrs_lem) ∙ found)
