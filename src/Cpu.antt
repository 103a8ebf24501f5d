-- ===== src/Cpu.antt =====
-- The classes for the processors (opencore/src/main/cpp/opencore/arm64, arm, x86_64, x86, riscv64):
-- what their methods share word for word. `prstatus` holds the registers of each thread, with the
-- thread that is dumped first.
pub mod Arm64
pub mod Arm
pub mod X86
pub mod X86_64
pub mod Riscv64
pub mod Sizes
pub mod PrStatusSize
pub mod Create
pub mod Announced
pub mod NoteList
pub mod SingleNote
pub mod Threads
use open_core_sdk.Prelude.{
  ℕ, zero, suc, ◌+◌, ◌-◌, Bool, true, false, ◌&&◌, ◌||◌, List, [], ◌∷◌, ◌++◌, Option, none, some,
  leb, ltb, ◌==◌, if◌then◌else◌, length, get_or, set, take, drop, replicate,
}
use open_core_sdk.Elf.Encode.{le}
use open_core_sdk.Kernel.{Kernel, VirtualMemoryArea}
use open_core_sdk.Opencore.{
  Context, ThreadRecord, has_bit, filter_minidump, vma_normal, vma_null, vma_include,
}
use open_core_sdk.Lp.{OpencoreImpl, PrStatus}
use open_core_sdk.Lp.Write.{buffer}

abbrev pub zero_prstatus : PrStatus
zero_prstatus = record { pr_pid = 0; pr_reg = [] }

-- What PTRACE_GETREGSET leaves in `pr_reg`: unchanged if the call fails.
unfoldable pub read_registers : Kernel → ℕ → PrStatus → PrStatus
read_registers k tid p = elim (k.get_registers tid) [
  | none ↦ p
  | some regs ↦ record p { pr_reg = regs }
]

-- The dumped thread goes to index 0, with the registers of the signal context if there is one.
unfoldable pub fill_top :
    (List ℕ → List ℕ) → Kernel → Option Context → ℕ → List PrStatus → List PrStatus
fill_top of_context k none tid prs =
    let p = record (get_or prs 0 zero_prstatus) { pr_pid = tid } in
    set prs 0 (read_registers k tid p)
fill_top of_context k (some context) tid prs =
    set prs 0 (record { pr_pid = tid; pr_reg = of_context context.registers })

-- Every other thread goes to the next free index, and the last one too many to index 0.
unfoldable pub fill_other : Kernel → ℕ → ℕ → List PrStatus → List PrStatus
fill_other k cur tid prs =
    let idx = if leb (length prs) cur then 0 else cur in
    let p = record (get_or prs idx zero_prstatus) { pr_pid = tid } in
    set prs idx (read_registers k tid p)

-- The loop of CreateCorePrStatus over the threads.
unfoldable pub fill_prstatus :
    (List ℕ → List ℕ)
    → Kernel
    → Option Context
    → ℕ
    → List ThreadRecord
    → ℕ
    → List PrStatus
    → List PrStatus
fill_prstatus of_context k context top [] cur prs = prs
fill_prstatus of_context k context top (t ∷ ts) cur prs =
    fill_prstatus of_context k context top ts (if t.pid == top then cur else cur + 1)
      (if t.pid == top then fill_top of_context k context t.pid prs else fill_other k cur t.pid prs)

-- CreateCorePrStatus but for the sums at its end: `add_notes` is what `extra_note_filesz` becomes.
-- With no thread it returns at once. The list is `threads`.
unfoldable pub create_for :
    (List ℕ → List ℕ) → (ℕ → ℕ → ℕ) → Kernel → List ThreadRecord → OpencoreImpl → OpencoreImpl
create_for of_context add_notes k [] s = s
create_for of_context add_notes k (t ∷ ts) s = record s {
  base = record (s.base) { extra_note_filesz = add_notes s.extra_note_filesz (length (t ∷ ts)) };
  prstatus =
      fill_prstatus of_context k s.ucontext_raw s.tid (t ∷ ts) 1
        (replicate (length (t ∷ ts)) zero_prstatus);
}

abbrev pub create_prstatus : (List ℕ → List ℕ) → (ℕ → ℕ → ℕ) → Kernel → OpencoreImpl → OpencoreImpl
create_prstatus of_context add_notes k s = create_for of_context add_notes k s.threads s

-- `n` registers of `size` bytes each; registers that are not there are zero.
unfoldable pub encode_registers : ℕ → ℕ → List ℕ → List ℕ
encode_registers size zero regs = []
encode_registers size (suc n) [] = le size 0 ++ encode_registers size n []
encode_registers size (suc n) (r ∷ regs) = le size r ++ encode_registers size n regs

-- The words of `pr_reg` are zero past the end of the list.
abbrev pub register : PrStatus → ℕ → ℕ
register p i = get_or p.pr_reg i 0

-- `regs->x >= vma.begin && regs->x < vma.end || ...` over the registers with the given indices.
unfoldable pub points_into : List ℕ → PrStatus → VirtualMemoryArea → Bool
points_into [] p vma = false
points_into (i ∷ is) p vma =
    leb vma.begin (register p i) && ltb (register p i) vma.end || points_into is p vma

-- IsSpecialFilterSegment: `prstatus[0]` is the dumped thread.
unfoldable pub special_segment : List ℕ → ℕ → List PrStatus → VirtualMemoryArea → ℕ
special_segment checked filter [] vma =
    if has_bit filter filter_minidump then vma_null else vma_normal
special_segment checked filter (p ∷ ps) vma =
    if has_bit filter filter_minidump
    then (if points_into checked p vma then vma_include else vma_null)
    else vma_normal

unfoldable pub other_threads : (PrStatus → List (List ℕ)) → List PrStatus → List (List ℕ)
other_threads rest [] = []
other_threads rest (p ∷ ps) = rest p ++ other_threads rest ps

-- The loop of WriteCorePrStatus: the notes of the first thread and those of the others.
unfoldable pub each_thread :
    (PrStatus → List (List ℕ)) → (PrStatus → List (List ℕ)) → List PrStatus → List (List ℕ)
each_thread first rest [] = []
each_thread first rest (p ∷ ps) = first p ++ other_threads rest ps

-- A local buffer of `n` bytes with no initialiser, which ptrace fills at its front.
unfoldable pub over_stack : ℕ → List ℕ → List ℕ → List ℕ
over_stack n stack bs = take n bs ++ drop (length (take n bs)) (buffer n stack)

abbrev pub range : ℕ → ℕ → List ℕ
range i zero = []
range i (suc n) = i ∷ range (i + 1) n
