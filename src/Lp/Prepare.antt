-- ===== src/Lp/Prepare.antt =====
-- The methods that fill the tables before anything is written: Prepare, ParseProcessMapsVma,
-- CreateCoreHeader, CreateCoreNoteHeader, CreateCoreAUXV, FindAuxv
-- (opencore/src/main/cpp/opencore/lp64/opencore.cpp and lp32/opencore.cpp).
use open_core_sdk.Prelude.{
  ℕ, ◌+◌, ◌-◌, ◌*◌, ◌/◌, ◌%◌, ◌^◌, Bool, ◌||◌, List, [], ◌∷◌, ◌++◌, map, Option, none, some, bit_or,
  length, replicate, take, ◌==◌, if◌then◌else◌,
}
use open_core_sdk.Elf.{
  ElfClass, wrap, word_bits, int, ehdr_size, phdr_size, Phdr, Auxv, File, zero_phdr, pt_load,
  pt_note, pf_r, pf_w, pf_x, et_core, ev_current, elfdata2lsb, elfclass,
}
use open_core_sdk.Kernel.{Kernel, VirtualMemoryArea}
use open_core_sdk.Opencore.Maps.{parse_maps}
use open_core_sdk.Lp.{OpencoreImpl, zero_ehdr}

-- OpencoreImpl::Prepare.
unfoldable pub prepare : OpencoreImpl → OpencoreImpl
prepare s = record s { ehdr = zero_ehdr; note = zero_phdr }

-- `flags = flags | bit` if the letter is there, in either case.
unfoldable pub add_flag : Bool → ℕ → ℕ → ℕ
add_flag present bit flags = if present then bit_or flags bit else flags

-- ParserPhdr: on one entry of `phdr`.
unfoldable pub parser_phdr : ElfClass → ℕ → Phdr → VirtualMemoryArea → Phdr
parser_phdr c align_size p vma = record p {
  p_type = pt_load;
  p_vaddr = wrap c vma.begin;
  p_paddr = 0;
  p_memsz = memsz;
  p_flags = add_flag (vma.flags2 == b'x' || vma.flags2 == b'X') pf_x (
      add_flag (vma.flags1 == b'w' || vma.flags1 == b'W') pf_w
        (add_flag (vma.flags0 == b'r' || vma.flags0 == b'R') pf_r p.p_flags));
  p_filesz = memsz;
  p_align = align_size;
}
  where
    memsz : ℕ
    memsz = wrap c (wrap c vma.end + 2 ^ word_bits c - wrap c vma.begin)

-- ParserNtFile: the entry of the file table, and the new `fileslen`.
unfoldable pub parser_nt_file : ElfClass → VirtualMemoryArea → File
parser_nt_file c vma = record {
  begin = wrap c vma.begin;
  end = wrap c vma.end;
  offset = vma.offset / 2 ^ 12;
}

unfoldable pub add_fileslen : ℕ → List VirtualMemoryArea → ℕ
add_fileslen fileslen [] = fileslen
add_fileslen fileslen (vma ∷ maps) = add_fileslen (int (fileslen + (length vma.file + 1))) maps

-- ParseProcessMapsVma: with no mapping the tables stay as they were.
unfoldable pub parse_tables : ElfClass → List VirtualMemoryArea → OpencoreImpl → OpencoreImpl
parse_tables c [] s = s
parse_tables c (vma ∷ maps) s = record s {
  phdr = map (parser_phdr c s.align_size zero_phdr) (vma ∷ maps);
  file_table = map (parser_nt_file c) (vma ∷ maps);
  fileslen = add_fileslen s.fileslen (vma ∷ maps);
}

unfoldable pub parse_process_maps_vma : Kernel → ElfClass → ℕ → OpencoreImpl → OpencoreImpl
parse_process_maps_vma k c pid s =
    let maps = parse_maps k c pid s.maps in
    parse_tables c maps (record s { base = record (s.base) { maps = maps } })

-- CreateCoreHeader. `e_phnum` is an `Elf64_Half`, which keeps 16 bits.
unfoldable pub create_core_header : ElfClass → ℕ → OpencoreImpl → OpencoreImpl
create_core_header c machine s = record s {
  ehdr = record {
    ei_class = elfclass c;
    ei_data = elfdata2lsb;
    ei_version = ev_current;
    e_type = et_core;
    e_machine = machine;
    e_version = ev_current;
    e_entry = 0;
    e_phoff = ehdr_size c;
    e_shoff = 0;
    e_flags = 0;
    e_ehsize = ehdr_size c;
    e_phentsize = phdr_size c;
    e_phnum = (length s.phdr + 1) % 2 ^ 16;
    e_shentsize = 0;
    e_shnum = 0;
    e_shstrndx = 0;
  };
}

unfoldable pub create_core_note_header : ElfClass → OpencoreImpl → OpencoreImpl
create_core_note_header c s = record s {
  note = record (s.note) {
    p_type = pt_note;
    p_offset = wrap c (ehdr_size c + s.ehdr.e_phnum * phdr_size c);
  };
}

-- CreateCoreAUXV: the entries are counted on top of `auxvnum`, the vector is given that many zero
-- entries, and the file is read once more over its front.
unfoldable pub read_auxv : Option (List Auxv) → OpencoreImpl → OpencoreImpl
read_auxv none s = s
read_auxv (some entries) s = record s {
  auxvnum = s.auxvnum + length entries;
  auxv = entries ++ replicate s.auxvnum (record { type = 0; value = 0 });
}

unfoldable pub create_core_auxv : Kernel → ℕ → OpencoreImpl → OpencoreImpl
create_core_auxv k pid s = read_auxv (k.proc_auxv pid) s

-- FindAuxv: the first `auxvnum` entries are searched.
unfoldable pub find_auxv_in : List Auxv → ℕ → ℕ
find_auxv_in [] type = 0
find_auxv_in (a ∷ as') type = if a.type == type then a.value else find_auxv_in as' type

unfoldable pub find_auxv : OpencoreImpl → ℕ → ℕ
find_auxv s type = find_auxv_in (take s.auxvnum s.auxv) type
