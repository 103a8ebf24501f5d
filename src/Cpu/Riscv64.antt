-- ===== src/Cpu/Riscv64.antt =====
-- Class riscv64::Opencore (opencore/src/main/cpp/opencore/riscv64/opencore.{h,cpp}). The loop of
-- WriteCorePrStatus runs to a variable `prnum` that no declaration in scope brings: what it would
-- hold is a parameter.
pub mod Notes
pub mod NoteList
use open_core_sdk.Prelude.{ℕ, ◌+◌, ◌*◌, List, [], ◌∷◌, ◌++◌, take, replicate}
use open_core_sdk.Elf.{class64, int, nhdr_size, siginfo_size, nt_prstatus}
use open_core_sdk.Elf.Encode.{le, encode_nhdr}
use open_core_sdk.Kernel.{Kernel, VirtualMemoryArea}
use open_core_sdk.Lp.{OpencoreImpl, PrStatus}
use open_core_sdk.Lp.Write.{core_nhdr, core_magic, signal_info_writes}
use open_core_sdk.Lp.Dump.{Arch}
use open_core_sdk.Cpu.{create_prstatus, encode_registers, special_segment, each_thread, range}

abbrev pub em_riscv : ℕ
em_riscv = 243

abbrev pub pt_regs_words : ℕ
pt_regs_words = 32

abbrev pub prstatus_size : ℕ
prstatus_size = 376

-- 32 bytes before `pr_pid`, 76 up to `pr_reg`, `pr_fpvalid` and 4 bytes of padding.
unfoldable pub encode_prstatus : PrStatus → List ℕ
encode_prstatus p =
    replicate 32 0
    ++ (le 4 p.pr_pid
        ++ (replicate 76 0 ++ (encode_registers 8 pt_regs_words p.pr_reg ++ replicate 8 0)))

-- The sums at the end of CreateCorePrStatus, each stored to an `int`.
unfoldable pub add_notes : ℕ → ℕ → ℕ
add_notes extra prnum =
    let prstatus = int (extra + (prstatus_size + nhdr_size + 8) * prnum) in
    int (prstatus + (siginfo_size + nhdr_size + 8))

-- The context's registers are copied whole.
unfoldable pub of_context : List ℕ → List ℕ
of_context = take pt_regs_words

unfoldable pub create_core_prstatus : Kernel → OpencoreImpl → OpencoreImpl
create_core_prstatus = create_prstatus of_context add_notes

-- One round of WriteCorePrStatus; `siginfo` is what follows at index 0.
unfoldable pub thread_writes : List (List ℕ) → PrStatus → List (List ℕ)
thread_writes siginfo p =
    encode_nhdr (core_nhdr prstatus_size nt_prstatus) ∷ core_magic ∷ encode_prstatus p ∷ siginfo

-- The rounds below `prnum`, as far as the table goes: one behind its end would read past it.
unfoldable pub prstatus_writes : (OpencoreImpl → ℕ) → Kernel → OpencoreImpl → List (List ℕ)
prstatus_writes prnum k s =
    each_thread (thread_writes (signal_info_writes s)) (thread_writes [])
      (take (prnum s) s.prstatus)

-- All registers: `pc`, `ra`, `sp` and so on to `t6`.
abbrev pub checked : List ℕ
checked = 0 ∷ range 1 31

unfoldable pub is_special_filter_segment : OpencoreImpl → VirtualMemoryArea → ℕ
is_special_filter_segment s = special_segment checked s.filter s.prstatus

abbrev pub riscv64 : (OpencoreImpl → ℕ) → Arch
riscv64 prnum = record {
  elf_class = class64;
  machine = em_riscv;
  create_core_prstatus = create_core_prstatus;
  prstatus_writes = prstatus_writes prnum;
  is_special_filter_segment = is_special_filter_segment;
}
