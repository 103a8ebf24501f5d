-- ===== src/Examples.antt =====
-- A process of one thread and one mapping of a page, dumped by the class for arm, and other small
-- inputs, on which the theorems are applied.
pub mod Format
pub mod Processes
pub mod Writes
pub mod Java
pub mod Classes
use open_core_sdk.Prelude.{
  ℕ, ◌+◌, ◌%◌, ◌≡◌, refl, true, false, arith, [], ◌∷◌, none, some, length, take, drop, get_elem?,
}
use open_core_sdk.Cpu.{create_for, fill_prstatus, fill_top, read_registers, special_segment}
use open_core_sdk.Opencore.Maps.{parse_maps, parse_lines}
use open_core_sdk.Opencore.Threads.{stop_listed, stop_entries, stop_the_thread, atoi_from}
use open_core_sdk.Opencore.Filter.{filter_anonymous, is_filter_segment}
use open_core_sdk.Prelude.{inr}
use open_core_sdk.Rounding.{round_up, round_down}
use open_core_sdk.Opencore.Filter.{codes}
use open_core_sdk.Opencore.Handlers.{Sigaction, Handlers}
use open_core_sdk.Opencore.DumpName.{Names}
use open_core_sdk.Lp.Write.{
  write_core_program_headers, write_core_note_header, placed_phdrs, place_phdrs, sized_note,
}
use open_core_sdk.Lp.Load.Healthy.{IsPaged, total_filesz}
use open_core_sdk.Lp.Layout.{pages, headers_size, note_size}
use open_core_sdk.Lp.Layout.File.{IsReady}
use open_core_sdk.Lp.Layout.Core.{core_bytes, core_phdrs, segments_on_pages}
use open_core_sdk.Lp.Layout.Dumped.{do_coredump-memory}
use mathlib.Core.Option
use open_core_sdk.Elf.{class32, Phdr, zero_phdr}
use open_core_sdk.Kernel.{Kernel, VirtualMemoryArea}
use open_core_sdk.Stream.{fresh}
use open_core_sdk.Lp.{OpencoreImpl, zero_ehdr}
use open_core_sdk.Lp.Prepare.{
  prepare, create_core_auxv, read_auxv, create_core_note_header, create_core_header,
  parse_process_maps_vma, parse_tables, add_fileslen, add_flag, parser_nt_file, parser_phdr,
}
use open_core_sdk.Lp.Dump.{
  collect, gather, write_core, do_coredump, special_core_filter, filter_phdrs, apply_vma_flag,
  vma_flag_of,
}
use open_core_sdk.Lp.Dump.Filtered.{IsMapping}
use open_core_sdk.Lp.Load.Memory.{Reads, memory_bytes}
use open_core_sdk.Lp.Layout.Parsed.{IsUnused}
use open_core_sdk.Lp.Layout.Ready.{IsCountable, collect-IsReady}
use open_core_sdk.Cpu.Arm.{
  arm, create_core_prstatus, add_notes, of_context, is_special_filter_segment,
}
use open_core_sdk.Cpu.Arm.Notes.{arm-NotesLaws}

abbrev pub page : VirtualMemoryArea
page = record {
  begin = 0x1000;
  end = 0x2000;
  flags0 = b'r';
  flags1 = b'w';
  flags2 = b'-';
  flags3 = b'p';
  offset = 0;
  major = 0;
  minor = 0;
  inode = 0;
  file = b'a' ∷ [];
}

abbrev pub sevens : ℕ → ℕ
sevens a = 7

abbrev pub one_page : Kernel
one_page = record {
  creates = λ filename. true;
  proc_maps = λ pid. some (page ∷ []);
  proc_auxv = λ pid. none;
  proc_task = λ pid. some ((b'.' ∷ []) ∷ (b'5' ∷ []) ∷ []);
  attaches = λ tid. true;
  stops = λ tid. true;
  get_registers = λ tid. none;
  get_regset = λ tid type. none;
  opens_mem = λ pid. true;
  pread = λ pid a n. memory_bytes sevens a n;
  map_file = λ name. none;
  stack = [];
}

abbrev pub unused : OpencoreImpl
unused = record {
  base = record {
    extra_note_filesz = 0;
    threads = [];
    maps = [];
    align_size = 4096;
    page_size = 4096;
    ucontext_raw = none;
    siginfo = none;
    dir = [];
    flag = 39;
    pid = 5;
    tid = 5;
    filter = 0;
    cb = none;
    timeout = 120;
  };
  ehdr = zero_ehdr;
  phdr = [];
  note = zero_phdr;
  auxv = [];
  auxvnum = 0;
  file_table = [];
  fileslen = 0;
  prstatus = [];
}

abbrev pub collected : OpencoreImpl
collected = record {
  base = record {
    extra_note_filesz = 316;
    threads = record { pid = 5; attached = true } ∷ [];
    maps = page ∷ [];
    align_size = 4096;
    page_size = 4096;
    ucontext_raw = none;
    siginfo = none;
    dir = [];
    flag = 39;
    pid = 5;
    tid = 5;
    filter = 0;
    cb = none;
    timeout = 120;
  };
  ehdr = record {
    ei_class = 1;
    ei_data = 1;
    ei_version = 1;
    e_type = 4;
    e_machine = 40;
    e_version = 1;
    e_entry = 0;
    e_phoff = 52;
    e_shoff = 0;
    e_flags = 0;
    e_ehsize = 52;
    e_phentsize = 32;
    e_phnum = 2;
    e_shentsize = 0;
    e_shnum = 0;
    e_shstrndx = 0;
  };
  phdr =
      record {
        p_type = 1;
        p_offset = 0;
        p_vaddr = 0x1000;
        p_paddr = 0;
        p_filesz = 4096;
        p_memsz = 4096;
        p_flags = 6;
        p_align = 4096;
      }
      ∷ [];
  note = record zero_phdr { p_type = 4; p_offset = 116 };
  auxv = [];
  auxvnum = 0;
  file_table = record { begin = 0x1000; end = 0x2000; offset = 0 } ∷ [];
  fileslen = 2;
  prstatus = record { pr_pid = 5; pr_reg = [] } ∷ [];
}

pub collects : collect arm one_page (prepare unused) ≡ some collected
unfolding collect gather special_core_filter filter_phdrs create_core_auxv read_auxv
    create_core_prstatus create_for create_core_note_header create_core_header
    parse_process_maps_vma parse_tables parse_maps parse_lines stop_listed stop_entries
    stop_the_thread prepare Option.bind add_notes of_context fill_prstatus fill_top read_registers
    apply_vma_flag vma_flag_of add_fileslen add_flag parser_nt_file parser_phdr filter_anonymous
    is_filter_segment atoi_from special_segment is_special_filter_segment
collects = refl

pub unused-IsUnused : IsUnused unused
unused-IsUnused = record {
  page = refl;
  no_extra = refl;
  no_maps = refl;
  no_phdr = refl;
  no_files = refl;
  no_names = refl;
  no_auxv = refl;
  no_auxvnum = refl;
  no_prstatus = refl;
  no_note = refl;
}

pub page-IsMapping : IsMapping class32 page
page-IsMapping = record {
  begins_page = refl;
  ends_page = refl;
  ordered = omega arith;
  addressable = omega arith;
  short = omega arith;
}

pub collected-IsCountable : IsCountable class32 arm-NotesLaws.notes collected
collected-IsCountable = record {
  extra_int = omega arith;
  names_int = omega arith;
  phnum_half = omega arith;
  fits = omega arith;
}

prepared-IsUnused : IsUnused (prepare unused)
unfolding prepare
prepared-IsUnused = unused-IsUnused

pub collected-IsReady : IsReady class32 arm-NotesLaws.notes collected
collected-IsReady =
    collect-IsReady arm arm-NotesLaws one_page (prepare unused) collected prepared-IsUnused collects
      (page-IsMapping, tt) collected-IsCountable

collect-IsReady_example : IsReady class32 arm-NotesLaws.notes collected
collect-IsReady_example =
    collect-IsReady arm arm-NotesLaws one_page (prepare unused) collected prepared-IsUnused collects
      (page-IsMapping, tt) collected-IsCountable

abbrev pub placed_page : Phdr
placed_page = record {
  p_type = 1;
  p_offset = 4096;
  p_vaddr = 0x1000;
  p_paddr = 0;
  p_filesz = 4096;
  p_memsz = 4096;
  p_flags = 6;
  p_align = 4096;
}

pub placed_at : get_elem? (core_phdrs arm one_page collected) 0 ≡ some placed_page
unfolding write_core write_core_program_headers write_core_note_header placed_phdrs place_phdrs
    sized_note round_up round_down
placed_at = refl

pub core_phdrs_page : placed_page ∷ [] ≡ core_phdrs arm one_page collected
unfolding write_core write_core_program_headers write_core_note_header placed_phdrs place_phdrs
    sized_note round_up round_down
core_phdrs_page = refl

segments_on_pages_example : placed_page.p_offset % 4096 ≡ 0
segments_on_pages_example =
    segments_on_pages arm arm-NotesLaws one_page collected collected-IsReady refl 0 placed_page
      placed_at

-- Every read of the memory of that process gives sevens.
pub sevens_read : Reads (one_page.pread collected.pid) sevens placed_page
sevens_read = λ i h. refl

-- DoCoredump on that process, and the one segment of its file.
do_coredump-memory_example :
    let (s', f) = write_core arm one_page collected (fresh []) in
    (do_coredump arm one_page (b'c' ∷ []) [] unused ≡ some (true, s', some f))
    × (take 4096 (drop 4096 f.bytes) ≡ memory_bytes sevens 0x1000 4096)
do_coredump-memory_example =
    do_coredump-memory arm one_page arm-NotesLaws (b'c' ∷ []) unused collected sevens
      unused-IsUnused refl collects (page-IsMapping, tt) collected-IsCountable refl 0 placed_page
      placed_at sevens_read refl (omega arith) (omega arith)

pub do_coredump_done :
    let (s', f) = write_core arm one_page collected (fresh []) in
    do_coredump arm one_page (b'c' ∷ []) [] unused ≡ some (true, s', some f)
do_coredump_done =
    (do_coredump-memory arm one_page arm-NotesLaws (b'c' ∷ []) unused collected sevens
      unused-IsUnused refl collects (page-IsMapping, tt) collected-IsCountable refl 0 placed_page
      placed_at sevens_read refl (omega arith) (omega arith)).0

pub padded : IsPaged placed_page
padded = record { whole = refl; counted = omega arith; all_or_none = inr refl }

abbrev pub two_handlers : Handlers ℕ
two_handlers = record {
  handlers_installed = false;
  g_restore_action = 0 ∷ 0 ∷ [];
  actions = 11 ∷ 12 ∷ [];
}

abbrev pub willing : Sigaction
willing = record { queries = λ i. true; sets = λ i. true }

abbrev pub names : Names
names = record {
  process_comm = λ pid. some (codes "app");
  thread_comm = λ pid tid. none;
  tv_sec = 17;
}
