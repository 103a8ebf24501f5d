-- ===== src/Examples/Format.antt =====
-- The theorems on reading a core file back, on the small process of Examples.
use open_core_sdk.Prelude.{
  ℕ, ◌≡◌, refl, true, false, arith, List, [], ◌∷◌, map, none, some, take, drop, subst, All,
  if◌then◌else◌,
}
use open_core_sdk.Elf.{class32, class64, Phdr, zero_phdr}
use open_core_sdk.Elf.Decode.{read_table}
use open_core_sdk.Elf.NoteList.{read_notes, encoded}
use open_core_sdk.Kernel.{Kernel}
use open_core_sdk.Opencore.{vma_normal, vma_null}
use open_core_sdk.Lp.{OpencoreImpl}
use open_core_sdk.Lp.Write.{sized_note}
use open_core_sdk.Lp.FilterFile.{from_le}
use open_core_sdk.Elf.Decode.{read_phdr, read_phdrs}
use open_core_sdk.Lp.FilterFile.Writable.{has_writable}
use open_core_sdk.Lp.Layout.Core.{core_bytes, core_phdrs}
use open_core_sdk.Lp.Layout.Table.{read_table-core_bytes}
use open_core_sdk.Lp.Layout.NoteBytes.{all_notes}
use open_core_sdk.Lp.Layout.NotesRead.{read_notes-core_bytes}
use open_core_sdk.Lp.Layout.Peek.{peek, is_dumped, peek-core_bytes}
use open_core_sdk.Lp.Layout.Contents.{Contents, core_bytes-Contents}
use open_core_sdk.Lp.Layout.{headers_size}
use open_core_sdk.Lp.Layout.Overflow.{note-behind_headers, block_address-bounds}
use open_core_sdk.Lp.Prepare.{create_core_header, create_core_note_header}
use open_core_sdk.Lp.Load.{block_address}
use open_core_sdk.Prelude.{◌+◌, length, ◌≤◌, ◌*◌, ◌^◌, ◌<◌, ◌⊎◌}
use open_core_sdk.Opencore.Filter.{is_filter_segment}
use open_core_sdk.Opencore.Filter.Rules.{rules, leaves_out, is_filter_segment-rules}
use open_core_sdk.Kernel.{VirtualMemoryArea}
use open_core_sdk.Cpu.{create_for}
use open_core_sdk.Cpu.Threads.{others, top_entry, snapshot, create_for-threads}
use open_core_sdk.Cpu.Arm.{arm, of_context, add_notes}
use open_core_sdk.Cpu.Arm.Notes.{arm-NotesLaws}
use open_core_sdk.Cpu.Arm.NoteList.{arm-ThreadNotes}
use open_core_sdk.Examples.{
  one_page, page, unused, collected, collected-IsReady, sevens, sevens_read, core_phdrs_page,
}
use open_core_sdk.Lp.Load.Memory.{Reads}

read_table-core_bytes_example :
    read_table class32 (core_bytes arm one_page collected)
    ≡ sized_note class32 collected ∷ core_phdrs arm one_page collected
read_table-core_bytes_example =
    read_table-core_bytes arm arm-NotesLaws one_page collected collected-IsReady refl

read_notes-core_bytes_example :
    read_notes (
      take
        (sized_note class32 collected).p_filesz
        (drop (sized_note class32 collected).p_offset (core_bytes arm one_page collected)))
    ≡ some (
        all_notes arm arm-NotesLaws arm-ThreadNotes one_page collected collected-IsReady refl
          (omega arith))
read_notes-core_bytes_example =
    read_notes-core_bytes arm arm-NotesLaws arm-ThreadNotes one_page collected collected-IsReady
      refl (omega arith)

core_bytes-Contents_example :
    Contents class32 collected
      (core_phdrs arm one_page collected)
      (encoded (
        all_notes arm arm-NotesLaws arm-ThreadNotes one_page collected collected-IsReady refl
          (omega arith)))
      sevens
      (core_bytes arm one_page collected)
core_bytes-Contents_example =
    core_bytes-Contents arm arm-NotesLaws arm-ThreadNotes one_page collected collected-IsReady refl
      (omega arith) sevens
      (record { aligned = refl; moderate = omega arith; inside = omega arith }, tt)
      (subst (All (Reads (one_page.pread collected.pid) sevens)) core_phdrs_page (sevens_read, tt))

-- An address in the page.
peek-core_bytes_example :
    peek class32 (core_bytes arm one_page collected) 0x1004
    ≡ (if is_dumped (core_phdrs arm one_page collected) 0x1004 then some (sevens 0x1004) else none)
peek-core_bytes_example =
    peek-core_bytes arm arm-NotesLaws one_page collected collected-IsReady refl sevens 0x1004
      (subst (All (Reads (one_page.pread collected.pid) sevens)) core_phdrs_page (sevens_read, tt))
      (record { aligned = refl; moderate = omega arith; inside = omega arith }, tt)

-- Three threads, the second of which is dumped.
abbrev three : OpencoreImpl
three = record unused {
  base = record (unused.base) {
    threads =
        record { pid = 4; attached = true }
        ∷ record { pid = 5; attached = true }
        ∷ record { pid = 6; attached = false }
        ∷ [];
  };
}

create_for-threads_example :
    (create_for of_context add_notes one_page three.threads three).prstatus
    ≡ top_entry of_context one_page three.ucontext_raw three.tid
      ∷ map (snapshot one_page) (others three.tid three.threads)
create_for-threads_example = create_for-threads of_context add_notes one_page three refl

-- A file of an ELF header for arm and one program header, of a writable segment.
abbrev header : List ℕ
header =
    0x7f ∷ b'E' ∷ b'L' ∷ b'F' ∷ 1 ∷ 1 ∷ 1 ∷ 0 ∷ 0 ∷ 0 ∷ 0 ∷ 0 ∷ 0 ∷ 0 ∷ 0 ∷ 0 ∷ 3 ∷ 0 ∷ 40 ∷ 0 ∷ 1
    ∷ 0 ∷ 0 ∷ 0 ∷ 0 ∷ 0 ∷ 0 ∷ 0 ∷ 52 ∷ 0 ∷ 0 ∷ 0 ∷ 0 ∷ 0 ∷ 0 ∷ 0 ∷ 0 ∷ 0 ∷ 0 ∷ 0 ∷ 52 ∷ 0 ∷ 32 ∷ 0
    ∷ 1 ∷ 0 ∷ 0 ∷ 0 ∷ 0 ∷ 0 ∷ 0 ∷ 0 ∷ 1 ∷ 0 ∷ 0 ∷ 0 ∷ 0 ∷ 0 ∷ 0 ∷ 0 ∷ 0 ∷ 0 ∷ 0 ∷ 0 ∷ 0 ∷ 0 ∷ 0 ∷ 0
    ∷ 0 ∷ 16 ∷ 0 ∷ 0 ∷ 0 ∷ 16 ∷ 0 ∷ 0 ∷ 6 ∷ 0 ∷ 0 ∷ 0 ∷ 0 ∷ 16 ∷ 0 ∷ 0 ∷ []

abbrev with_file : Kernel
with_file = record one_page { map_file = λ name. some header }

has_writable_test : has_writable class32 40 header 0 ≡ true
unfolding from_le read_table read_phdrs read_phdr
has_writable_test = refl

-- One mapping, for which two headers are counted.
note-behind_headers_example :
    let offset =
      (create_core_note_header class32 (create_core_header class32 40 collected)).note.p_offset in
    ((length collected.phdr + 1 < 2 ^ 16) × (offset ≡ headers_size class32 (length collected.phdr)))
    ⊎ ((2 ^ 16 ≤ length collected.phdr + 1)
        × (offset < headers_size class32 (length collected.phdr)))
note-behind_headers_example = note-behind_headers class32 40 collected

-- The block at 4 GiB of a segment from the address 0 on.
abbrev large : Phdr
large = record zero_phdr { p_filesz = 0x2_0000_0000; p_memsz = 0x2_0000_0000 }

block_address-bounds_example :
    ((0x10_0000 * 4096 < 2 ^ 32)
      × (block_address class64 4096 large 0x10_0000 ≡ large.p_vaddr + 0x10_0000 * 4096))
    ⊎ ((2 ^ 32 ≤ 0x10_0000 * 4096)
        × (block_address class64 4096 large 0x10_0000 < large.p_vaddr + 0x10_0000 * 4096))
block_address-bounds_example = block_address-bounds class64 large 0x10_0000 (omega arith)

-- A page that nothing maps for reading, with FILTER_NON_READ_VMA and FILTER_FILE_VMA.
abbrev guard : VirtualMemoryArea
guard = record page { flags0 = b'-'; flags1 = b'-'; flags2 = b'-' }

is_filter_segment-rules_example :
    is_filter_segment (λ vma. none) 18 guard
    ≡ some (if leaves_out 18 guard rules then vma_null else vma_normal)
is_filter_segment-rules_example = is_filter_segment-rules (λ vma. none) 18 guard refl
