-- ===== src/Cpu/Arm.antt =====
-- Class arm::Opencore (opencore/src/main/cpp/opencore/arm/opencore.{h,cpp}).
pub mod Notes
pub mod NoteList
use open_core_sdk.Prelude.{ℕ, ◌+◌, ◌*◌, List, [], ◌∷◌, ◌++◌, take, replicate}
use open_core_sdk.Elf.{class32, int, nhdr_size, siginfo_size, nt_prstatus}
use open_core_sdk.Elf.Encode.{le, encode_nhdr}
use open_core_sdk.Kernel.{Kernel, VirtualMemoryArea}
use open_core_sdk.Lp.{OpencoreImpl, PrStatus}
use open_core_sdk.Lp.Write.{core_nhdr, core_magic, signal_info_writes}
use open_core_sdk.Lp.Dump.{Arch}
use open_core_sdk.Cpu.{create_prstatus, encode_registers, special_segment, each_thread, range}

abbrev pub em_arm : ℕ
em_arm = 40

abbrev pub pt_regs_words : ℕ
pt_regs_words = 17

abbrev pub prstatus_size : ℕ
prstatus_size = 148

-- The packed struct: 24 bytes before `pr_pid`, 44 up to `pr_reg`, `pr_fpvalid` and a padding word.
unfoldable pub encode_prstatus : PrStatus → List ℕ
encode_prstatus p =
    replicate 24 0
    ++ (le 4 p.pr_pid
        ++ (replicate 44 0 ++ (encode_registers 4 pt_regs_words p.pr_reg ++ replicate 8 0)))

-- The sums at the end of CreateCorePrStatus, each stored to an `int`.
unfoldable pub add_notes : ℕ → ℕ → ℕ
add_notes extra prnum =
    let prstatus = int (extra + (prstatus_size + nhdr_size + 8) * prnum) in
    int (prstatus + (siginfo_size + nhdr_size + 8))

-- The context's registers are copied whole.
unfoldable pub of_context : List ℕ → List ℕ
of_context = take pt_regs_words

unfoldable pub create_core_prstatus : Kernel → OpencoreImpl → OpencoreImpl
create_core_prstatus = create_prstatus of_context add_notes

-- One round of WriteCorePrStatus; `siginfo` is what follows at index 0.
unfoldable pub thread_writes : List (List ℕ) → PrStatus → List (List ℕ)
thread_writes siginfo p =
    encode_nhdr (core_nhdr prstatus_size nt_prstatus) ∷ core_magic ∷ encode_prstatus p ∷ siginfo

unfoldable pub prstatus_writes : Kernel → OpencoreImpl → List (List ℕ)
prstatus_writes k s =
    each_thread (thread_writes (signal_info_writes s)) (thread_writes []) s.prstatus

-- `pc`, `regs[0]` to `regs[12]`, `sp`, `lr`.
abbrev pub checked : List ℕ
checked = 15 ∷ range 0 15

unfoldable pub is_special_filter_segment : OpencoreImpl → VirtualMemoryArea → ℕ
is_special_filter_segment s = special_segment checked s.filter s.prstatus

abbrev pub arm : Arch
arm = record {
  elf_class = class32;
  machine = em_arm;
  create_core_prstatus = create_core_prstatus;
  prstatus_writes = prstatus_writes;
  is_special_filter_segment = is_special_filter_segment;
}
