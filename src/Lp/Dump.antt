-- ===== src/Lp/Dump.antt =====
-- SpecialCoreFilter, DoCoredump and Finish (opencore/src/main/cpp/opencore/lp64/opencore.cpp and
-- lp32/opencore.cpp), over the virtual methods of the processor.
pub mod Filtered
pub mod Minidump
use mathlib.Core.Option
use open_core_sdk.Prelude.{
  ℕ, Bool, true, false, List, [], ◌∷◌, Option, none, some, bit_or, if◌then◌else◌,
}
use open_core_sdk.Elf.{ElfClass, Phdr}
use open_core_sdk.Kernel.{Kernel, VirtualMemoryArea}
use open_core_sdk.Opencore.{Opencore, has_bit, vma_null, vma_include}
use open_core_sdk.Opencore.Filter.{is_filter_segment}
use open_core_sdk.Opencore.Threads.{stop_the_world, continue}
use open_core_sdk.Stream.{Outcome, Stream, fresh, fwrite_all}
use open_core_sdk.Lp.{OpencoreImpl}
use open_core_sdk.Lp.Prepare.{
  prepare, parse_process_maps_vma, create_core_header, create_core_note_header, create_core_auxv,
}
use open_core_sdk.Lp.FilterFile.{need_filter_file}
use open_core_sdk.Lp.Write.{
  write_core_header, write_core_note_header, write_core_program_headers, write_core_auxv,
  write_nt_file, align_note_segment,
}
use open_core_sdk.Lp.Load.{write_core_load_segment}

-- What the class of a processor adds: the ELF class that it derives from, `getMachine`, and the
-- virtual methods CreateCorePrStatus, WriteCorePrStatus (the calls of `fwrite` that it makes) and
-- IsSpecialFilterSegment.
pub record Arch : Type 0 where
  pub elf_class : ElfClass
  pub machine : ℕ
  pub create_core_prstatus : Kernel → OpencoreImpl → OpencoreImpl
  pub prstatus_writes : Kernel → OpencoreImpl → List (List ℕ)
  pub is_special_filter_segment : OpencoreImpl → VirtualMemoryArea → ℕ

-- The two tests on `vma_flag`; the second one wins.
unfoldable pub apply_vma_flag : ℕ → Phdr → Phdr
apply_vma_flag vma_flag p =
    let p' = if has_bit vma_flag vma_null then record p { p_filesz = 0 } else p in
    if has_bit vma_flag vma_include then record p' { p_filesz = p.p_memsz } else p'

-- The loop over `maps` and `phdr`, which have one length.
unfoldable pub filter_phdrs :
    (VirtualMemoryArea → Option ℕ) → List VirtualMemoryArea → List Phdr → Option (List Phdr)
filter_phdrs vma_flag [] ps = some ps
filter_phdrs vma_flag (vma ∷ maps) [] = some []
filter_phdrs vma_flag (vma ∷ maps) (p ∷ ps) =
    Option.bind (vma_flag vma)
      λ flags. Option.map (λ rest. apply_vma_flag flags p ∷ rest) (filter_phdrs vma_flag maps ps)

module _ (arch : Arch) (k : Kernel) where
  open arch use {elf_class, machine}

  -- `IsFilterSegment(vma) | IsSpecialFilterSegment(vma)`.
  unfoldable pub vma_flag_of : OpencoreImpl → VirtualMemoryArea → Option ℕ
  vma_flag_of s vma =
      Option.map (λ flags. bit_or flags (arch.is_special_filter_segment s vma))
        (is_filter_segment (need_filter_file k elf_class machine s.page_size) s.filter vma)

  unfoldable pub special_core_filter : OpencoreImpl → Option OpencoreImpl
  special_core_filter s =
      Option.map (λ ps. record s { phdr = ps }) (filter_phdrs (vma_flag_of s) s.maps s.phdr)

  -- The calls between StopTheWorld and the first write.
  unfoldable pub gather : OpencoreImpl → Option OpencoreImpl
  gather s1 =
      let s2 = parse_process_maps_vma k elf_class s1.pid s1 in
      let s3 = create_core_header elf_class machine s2 in
      let s4 = create_core_note_header elf_class s3 in
      let s5 = arch.create_core_prstatus k s4 in
      let s6 = create_core_auxv k s5.pid s5 in special_core_filter s6

  -- The calls before the first write.
  unfoldable pub collect : OpencoreImpl → Option OpencoreImpl
  collect s0 = gather (record s0 { base = stop_the_world k s0.pid s0.base })

  -- The writes, in order.
  unfoldable pub write_core : OpencoreImpl → Stream → OpencoreImpl × Stream
  write_core s f =
      let f1 = write_core_header elf_class s f in
      let (s2, f2) = write_core_note_header elf_class s f1 in
      let (s3, f3) = write_core_program_headers elf_class s2 f2 in
      let f4 = fwrite_all (arch.prstatus_writes k s3) f3 in
      let f5 = write_core_auxv elf_class s3 f4 in
      let f6 = write_nt_file elf_class s3 f5 in
      let f7 = align_note_segment elf_class s3 f6 in
      (
        s3,
        write_core_load_segment (k.opens_mem s3.pid) (k.pread s3.pid) elf_class s3.align_size
            s3.phdr f7,
      )

  -- DoCoredump. `none` is a fault in `NeedFilterFile`. The disk's script is given to the stream
  -- that `fopen` makes; without a stream nothing else is done.
  unfoldable pub do_coredump :
      List ℕ → List Outcome → OpencoreImpl → Option (Bool × OpencoreImpl × Option Stream)
  do_coredump filename outcomes s =
      if k.creates filename
      then Option.map (λ s'. finished (write_core s' (fresh outcomes))) (collect (prepare s))
      else some (false, prepare s, none)
    where
      finished : OpencoreImpl × Stream → Bool × OpencoreImpl × Option Stream
      finished (s', f) = (true, s', some f)

-- Opencore::Finish, with the threads that are detached.
unfoldable pub base_finish : Opencore → List ℕ × Opencore
base_finish s =
    let (released, s') = continue s in
    (released, record s' { maps = []; ucontext_raw = none; siginfo = none })

-- OpencoreImpl::Finish. `auxvnum`, `fileslen` and `extra_note_filesz` keep their values.
unfoldable pub impl_finish : OpencoreImpl → List ℕ × OpencoreImpl
impl_finish s =
    let (released, base) = base_finish s.base in
    (released, record s { base = base; auxv = []; phdr = []; file_table = [] })

-- Finish of the processor's class.
unfoldable pub finish : OpencoreImpl → List ℕ × OpencoreImpl
finish s = impl_finish (record s { prstatus = [] })
