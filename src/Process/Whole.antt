-- ===== src/Process/Whole.antt =====
-- From a call of Opencore::Dump to the end of the child (opencore/src/main/cpp/opencore/opencore.cpp
-- and lp64/opencore.cpp): Dump, Coredump, DoCoredump and Finish together.
use open_core_sdk.Prelude.{ℕ, ◌≡◌, refl, true, false, List, [], ◌∷◌, some, All, ◌==◌, ◌∙◌}
use open_core_sdk.Elf.{Phdr}
use open_core_sdk.Kernel.{Kernel}
use open_core_sdk.Opencore.DumpName.{DumpOption, dump}
use open_core_sdk.Stream.{Stream, fresh}
use open_core_sdk.Lp.{OpencoreImpl}
use open_core_sdk.Lp.Prepare.{prepare}
use open_core_sdk.Lp.Load.Memory.{Reads}
use open_core_sdk.Lp.Dump.{Arch, collect, write_core}
use open_core_sdk.Lp.Dump.Filtered.{IsMapping}
use open_core_sdk.Lp.Layout.File.{NotesLaws}
use open_core_sdk.Lp.Layout.Parsed.{IsUnused}
use open_core_sdk.Lp.Layout.Ready.{IsCountable, collect-IsReady}
use open_core_sdk.Lp.Layout.Dumped.{do_coredump_lem, prepare-IsUnused}
use open_core_sdk.Lp.Layout.Core.{core_phdrs}
use open_core_sdk.Lp.Layout.Peek.{IsLoad, Slice, core_phdrs-Slice}
use open_core_sdk.Process.Child.{Child, Undisturbed, fork, exited}
use open_core_sdk.Process.Ends.{exits-do_coredump}
use open_core_sdk.Process.Crash.{System, Process, coredump, callback_calls, dump_option}
use open_core_sdk.Process.Crash.Calls.{name_for, set_up_for, dump_option-Dumps}

module _ {A : Type 0} (os : System A) where
  set_up-IsUnused :
      (option : DumpOption) (s : OpencoreImpl)
      → (option.pid == 0) ≡ false
      → IsUnused s
      → IsUnused (set_up_for os option s)
  unfolding dump
  set_up-IsUnused option s pid u = rw pid (record {
    page = u.page;
    no_extra = u.no_extra;
    no_maps = u.no_maps;
    no_phdr = u.no_phdr;
    no_files = u.no_files;
    no_names = u.no_names;
    no_auxv = u.no_auxv;
    no_auxvnum = u.no_auxvnum;
    no_prstatus = u.no_prstatus;
    no_note = u.no_note;
  })

  set_up-threads :
      (option : DumpOption) (s : OpencoreImpl)
      → (option.pid == 0) ≡ false
      → (set_up_for os option s).threads ≡ s.threads
  unfolding dump
  set_up-threads option s pid = rw pid refl

-- What Dump, its child and the child's file are: one call of Coredump, with the object as Dump has set
-- it up, and the callback's; and a run of that child to its end without the alarm, with nothing left
-- attached, and with a file that has the memory of every segment of the given headers at the segment's
-- offset.
abbrev pub Dumped :
    {A : Type 0}
    → System A
    → A
    → A
    → Arch
    → Kernel
    → DumpOption
    → Process A
    → OpencoreImpl
    → (ℕ → ℕ)
    → List Phdr
    → Type 0
Dumped {A = A} os sigchld ignore arch k option p s mem phdrs =
    let name = name_for os option s in
    let o = set_up_for os option s in
    (parent : Process A) × (c : Child A) × (f : Stream) × ((dump_option os (some option) p).0
      ≡ coredump name parent ∷ callback_calls os o.cb name)
    × (parent.instance_ ≡ some o)
    × (parent.handlers ≡ p.handlers)
    × Undisturbed os.sigaction ignore arch k name [] (fork (sigchld, parent.handlers) o) c
    × (c.phase ≡ exited)
    × (c.tracees ≡ [])
    × (c.file ≡ some f)
    × All (Slice f.bytes mem) phdrs

-- Suppose that the object has stopped and dumped nothing yet, Dump is given a process id, and the
-- child's system is as `do_coredump-memory` asks: the file of the name that Dump makes can be created,
-- the tables of the child can be collected and counted, the mappings are as the kernel prints them, the
-- memory can be opened, the segments are aligned to 4096, up to 4 GiB long and within the address
-- space, and the pages of the dumped ones read as `mem`. Then Dump makes the one call of Coredump and
-- the callback's, and on a disk that takes every write that child can run to its end without the
-- alarm, with nothing left attached, and leaves one file in which every segment of its program headers
-- is the memory that it names.
pub dump-Dumped :
    {A : Type 0} (os : System A) (sigchld ignore : A) (arch : Arch) (laws : NotesLaws arch)
    (k : Kernel) (option : DumpOption) (p : Process A) (s t : OpencoreImpl) (mem : ℕ → ℕ)
    → p.instance_ ≡ some s
    → (option.pid == 0) ≡ false
    → IsUnused s
    → s.threads ≡ []
    → k.creates (name_for os option s) ≡ true
    → collect arch k (prepare (set_up_for os option s)) ≡ some t
    → All (IsMapping arch.elf_class) t.maps
    → IsCountable arch.elf_class laws.notes t
    → k.opens_mem t.pid ≡ true
    → All (IsLoad arch.elf_class) t.phdr
    → All (Reads (k.pread t.pid) mem) (core_phdrs arch k t)
    → Dumped os sigchld ignore arch k option p s mem (core_phdrs arch k t)
dump-Dumped os sigchld ignore arch laws k option p s t mem e pid u none_stopped creates collected ms
      b opens loads reads =
    let o = set_up_for os option s in
    let name = name_for os option s in
    let unused = set_up-IsUnused os option s pid u in
    let ready =
      collect-IsReady arch laws k (prepare o) t (prepare-IsUnused o unused) collected ms b in
    let (parent, calls, handlers, instance_, _) = dump_option-Dumps os option p s e pid in
    let done = do_coredump_lem arch k name o t creates collected in
    let (c, r, ended, file, _, released) =
      exits-do_coredump os.sigaction ignore arch laws k name [] (sigchld, parent.handlers) o _ true
        _ (set_up-threads os option s pid ∙ none_stopped) done in
    (
      parent,
      c,
      (write_core arch k t (fresh [])).1,
      calls,
      instance_,
      handlers,
      r,
      ended,
      released,
      file,
      core_phdrs-Slice arch laws k t ready opens mem reads loads,
    )
