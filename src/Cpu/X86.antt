-- ===== src/Cpu/X86.antt =====
-- Class x86::Opencore (opencore/src/main/cpp/opencore/x86/opencore.{h,cpp}).
pub mod Notes
pub mod NoteList
use open_core_sdk.Prelude.{ℕ, ◌+◌, ◌*◌, ◌%◌, ◌^◌, List, [], ◌∷◌, ◌++◌, replicate, get_or}
use open_core_sdk.Elf.{class32, int, nhdr_size, siginfo_size, nt_prstatus}
use open_core_sdk.Elf.Encode.{le, encode_nhdr}
use open_core_sdk.Kernel.{Kernel, VirtualMemoryArea}
use open_core_sdk.Lp.{OpencoreImpl, PrStatus}
use open_core_sdk.Lp.Write.{core_nhdr, core_magic, signal_info_writes}
use open_core_sdk.Lp.Dump.{Arch}
use open_core_sdk.Cpu.{create_prstatus, encode_registers, special_segment, each_thread}

abbrev pub em_386 : ℕ
em_386 = 3

abbrev pub pt_regs_words : ℕ
pt_regs_words = 17

abbrev pub prstatus_size : ℕ
prstatus_size = 144

-- 24 bytes before `pr_pid`, 44 up to `pr_reg`, then `pr_fpvalid`. A pair of 16-bit members is a word.
unfoldable pub encode_prstatus : PrStatus → List ℕ
encode_prstatus p =
    replicate 24 0
    ++ (le 4 p.pr_pid
        ++ (replicate 44 0 ++ (encode_registers 4 pt_regs_words p.pr_reg ++ replicate 4 0)))

-- The sums at the end of CreateCorePrStatus, each stored to an `int`.
unfoldable pub add_notes : ℕ → ℕ → ℕ
add_notes extra prnum =
    let prstatus = int (extra + (prstatus_size + nhdr_size + 8) * prnum) in
    int (prstatus + (siginfo_size + nhdr_size + 8))

-- The context's registers, in the order of pt_regs; a segment register keeps 16 bits, and `cs` is
-- not set.
unfoldable pub of_context : List ℕ → List ℕ
of_context gregs =
    greg 8
    ∷ greg 10
    ∷ greg 9
    ∷ greg 5
    ∷ greg 4
    ∷ greg 6
    ∷ greg 11
    ∷ segment 3
    ∷ segment 2
    ∷ segment 1
    ∷ segment 0
    ∷ greg 11
    ∷ greg 14
    ∷ 0
    ∷ greg 16
    ∷ greg 7
    ∷ segment 15
    ∷ []
  where
    greg : ℕ → ℕ
    greg i = get_or gregs i 0

    segment : ℕ → ℕ
    segment i = get_or gregs i 0 % 2 ^ 16

unfoldable pub create_core_prstatus : Kernel → OpencoreImpl → OpencoreImpl
create_core_prstatus = create_prstatus of_context add_notes

-- One round of WriteCorePrStatus; `siginfo` is what follows at index 0.
unfoldable pub thread_writes : List (List ℕ) → PrStatus → List (List ℕ)
thread_writes siginfo p =
    encode_nhdr (core_nhdr prstatus_size nt_prstatus) ∷ core_magic ∷ encode_prstatus p ∷ siginfo

unfoldable pub prstatus_writes : Kernel → OpencoreImpl → List (List ℕ)
prstatus_writes k s =
    each_thread (thread_writes (signal_info_writes s)) (thread_writes []) s.prstatus

-- `ebx`, `edx`, `esi`, `edi`, `ebp`, `eax`, `eip`, `esp`: all but `ecx` of the general registers.
abbrev pub checked : List ℕ
checked = 0 ∷ 2 ∷ 3 ∷ 4 ∷ 5 ∷ 6 ∷ 12 ∷ 15 ∷ []

unfoldable pub is_special_filter_segment : OpencoreImpl → VirtualMemoryArea → ℕ
is_special_filter_segment s = special_segment checked s.filter s.prstatus

abbrev pub x86 : Arch
x86 = record {
  elf_class = class32;
  machine = em_386;
  create_core_prstatus = create_core_prstatus;
  prstatus_writes = prstatus_writes;
  is_special_filter_segment = is_special_filter_segment;
}
