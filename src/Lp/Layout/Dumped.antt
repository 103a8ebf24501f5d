-- ===== src/Lp/Layout/Dumped.antt =====
-- DoCoredump as a whole (opencore/src/main/cpp/opencore/lp64/opencore.cpp and lp32/opencore.cpp),
-- from an object that has dumped nothing to the file.
use open_core_sdk.Prelude.{
  ℕ, ◌+◌, ◌^◌, ◌≤◌, ◌≡◌, refl, true, List, [], some, take, drop, get_elem?, All,
}
use open_core_sdk.Elf.{word_bits, Phdr}
use open_core_sdk.Kernel.{Kernel}
use open_core_sdk.Stream.{fresh}
use open_core_sdk.Lp.{OpencoreImpl}
use open_core_sdk.Lp.Prepare.{prepare}
use open_core_sdk.Lp.Load.Memory.{Reads, memory_bytes}
use open_core_sdk.Lp.Dump.{Arch, collect, write_core, do_coredump}
use open_core_sdk.Lp.Dump.Filtered.{IsMapping}
use open_core_sdk.Lp.Layout.File.{NotesLaws}
use open_core_sdk.Lp.Layout.Parsed.{IsUnused}
use open_core_sdk.Lp.Layout.Ready.{IsCountable, collect-IsReady}
use open_core_sdk.Lp.Layout.Core.{segment_is_memory}

pub prepare-IsUnused : (s : OpencoreImpl) → IsUnused s → IsUnused (prepare s)
unfolding prepare
prepare-IsUnused s u = record {
  page = u.page;
  no_extra = u.no_extra;
  no_maps = u.no_maps;
  no_phdr = u.no_phdr;
  no_files = u.no_files;
  no_names = u.no_names;
  no_auxv = u.no_auxv;
  no_auxvnum = u.no_auxvnum;
  no_prstatus = u.no_prstatus;
  no_note = refl;
}

module _ (arch : Arch) (k : Kernel) where
  pub do_coredump_lem :
      (filename : List ℕ) (s0 s : OpencoreImpl)
      → k.creates filename ≡ true
      → collect arch k (prepare s0) ≡ some s
      → let (s', f) = write_core arch k s (fresh []) in
        do_coredump arch k filename [] s0 ≡ some (true, s', some f)
  unfolding do_coredump
  do_coredump_lem filename s0 s creates collected = rw (creates, collected) refl

  -- Suppose that the object has dumped nothing yet, the file can be created, the filters give an
  -- answer, the process memory can be opened, every mapping is one that the kernel prints, the tables
  -- can be counted, and the disk takes every write. Then DoCoredump returns true with a file, and
  -- for every program header of that file that is aligned to 4096, whose segment is no longer than
  -- 4 GiB and does not run over the end of the address space, and whose pages, if it is dumped, read
  -- as `mem`, the `p_filesz` bytes at `p_offset` are that memory from `p_vaddr` on.
  pub do_coredump-memory :
      (laws : NotesLaws arch) (filename : List ℕ) (s0 s : OpencoreImpl) (mem : ℕ → ℕ)
      → IsUnused s0
      → k.creates filename ≡ true
      → collect arch k (prepare s0) ≡ some s
      → All (IsMapping arch.elf_class) s.maps
      → IsCountable arch.elf_class laws.notes s
      → k.opens_mem s.pid ≡ true
      → (i : ℕ) (q : Phdr) → get_elem? (write_core arch k s (fresh [])).0.phdr i ≡ some q
      → Reads (k.pread s.pid) mem q
      → q.p_align ≡ 4096
      → q.p_memsz ≤ 2 ^ 32
      → q.p_vaddr + q.p_memsz ≤ 2 ^ word_bits arch.elf_class
      → let (s', f) = write_core arch k s (fresh []) in
        (do_coredump arch k filename [] s0 ≡ some (true, s', some f))
        × (take q.p_filesz (drop q.p_offset f.bytes) ≡ memory_bytes mem q.p_vaddr q.p_filesz)
  do_coredump-memory laws filename s0 s mem u creates collected ms b opens i q found reads align
        small inside =
      (
        do_coredump_lem filename s0 s creates collected,
        segment_is_memory arch laws k s
            (collect-IsReady arch laws k (prepare s0) s (prepare-IsUnused s0 u) collected ms b)
            opens mem i q reads found align small inside,
      )
