-- ===== src/Process/Frame.antt =====
-- What the calls of DoCoredump after StopTheWorld leave alone: the list of threads, and the seconds
-- of the alarm (opencore/src/main/cpp/opencore/lp64/opencore.cpp and lp32/opencore.cpp).
use open_core_sdk.Prelude.{◌≡◌, refl, sym, ap, ◌∙◌, List, [], ◌∷◌, Option, none, some}
use open_core_sdk.Elf.{ElfClass, Auxv}
use open_core_sdk.Kernel.{Kernel, VirtualMemoryArea}
use open_core_sdk.Stream.{Stream}
use open_core_sdk.Lp.{OpencoreImpl}
use open_core_sdk.Lp.Prepare.{
  parse_tables, parse_process_maps_vma, create_core_header, create_core_note_header, read_auxv,
  create_core_auxv,
}
use open_core_sdk.Lp.Write.{write_core_note_header, write_core_program_headers}
use open_core_sdk.Lp.Dump.{Arch, gather, special_core_filter, write_core}
use open_core_sdk.Lp.Dump.Filtered.{map-eq-some}
use open_core_sdk.Lp.Layout.File.{NotesLaws}

parse_tables-threads :
    (c : ElfClass) (ms : List VirtualMemoryArea) (s : OpencoreImpl)
    → (parse_tables c ms s).threads ≡ s.threads
unfolding parse_tables
parse_tables-threads c [] s = refl
parse_tables-threads c (vma ∷ ms) s = refl

read_auxv-threads :
    (o : Option (List Auxv)) (s : OpencoreImpl) → (read_auxv o s).threads ≡ s.threads
unfolding read_auxv
read_auxv-threads none s = refl
read_auxv-threads (some entries) s = refl

module _ (arch : Arch) (laws : NotesLaws arch) (k : Kernel) where
  open arch use {elf_class as c, machine}

  pub gather-threads : (s1 s : OpencoreImpl) → gather arch k s1 ≡ some s → s.threads ≡ s1.threads
  unfolding gather special_core_filter parse_process_maps_vma create_core_header
      create_core_note_header create_core_auxv
  gather-threads s1 s found =
      let s2 = parse_process_maps_vma k c s1.pid s1 in
      let s4 = create_core_note_header c (create_core_header c machine s2) in
      let s5 = arch.create_core_prstatus k s4 in
      let (qs, _, e) = map-eq-some _ _ found in
      ap (λ (t : OpencoreImpl). t.threads) (sym e)
      ∙ read_auxv-threads (k.proc_auxv s5.pid) s5
      ∙ ap (λ (t : OpencoreImpl). t.threads) (laws.create_frame k s4)
      ∙ parse_tables-threads c _ _

  pub write_core-base : (s : OpencoreImpl) (f : Stream) → (write_core arch k s f).0.base ≡ s.base
  unfolding write_core write_core_note_header write_core_program_headers
  write_core-base s f = refl
