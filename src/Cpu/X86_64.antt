-- ===== src/Cpu/X86_64.antt =====
-- Class x86_64::Opencore (opencore/src/main/cpp/opencore/x86_64/opencore.{h,cpp}).
pub mod Notes
pub mod NoteList
use open_core_sdk.Prelude.{ℕ, ◌+◌, ◌*◌, ◌%◌, ◌^◌, List, [], ◌∷◌, ◌++◌, replicate, get_or}
use open_core_sdk.Elf.{class64, int, nhdr_size, siginfo_size, nt_prstatus}
use open_core_sdk.Elf.Encode.{le, encode_nhdr}
use open_core_sdk.Kernel.{Kernel, VirtualMemoryArea}
use open_core_sdk.Lp.{OpencoreImpl, PrStatus}
use open_core_sdk.Lp.Write.{core_nhdr, core_magic, signal_info_writes}
use open_core_sdk.Lp.Dump.{Arch}
use open_core_sdk.Cpu.{create_prstatus, encode_registers, special_segment, each_thread, range}

abbrev pub em_x86_64 : ℕ
em_x86_64 = 62

abbrev pub pt_regs_words : ℕ
pt_regs_words = 27

abbrev pub prstatus_size : ℕ
prstatus_size = 336

-- 32 bytes before `pr_pid`, 76 up to `pr_reg`, `pr_fpvalid` and 4 bytes of padding. A pair of 32-bit
-- members is a word.
unfoldable pub encode_prstatus : PrStatus → List ℕ
encode_prstatus p =
    replicate 32 0
    ++ (le 4 p.pr_pid
        ++ (replicate 76 0 ++ (encode_registers 8 pt_regs_words p.pr_reg ++ replicate 8 0)))

-- The sums at the end of CreateCorePrStatus, each stored to an `int`.
unfoldable pub add_notes : ℕ → ℕ → ℕ
add_notes extra prnum =
    let prstatus = int (extra + (prstatus_size + nhdr_size + 8) * prnum) in
    int (prstatus + (siginfo_size + nhdr_size + 8))

-- The context's registers, in the order of pt_regs; a segment register keeps 32 bits, and
-- `orig_rax`, `fs_base`, `gs_base`, `ds` and `es` are not set.
unfoldable pub of_context : List ℕ → List ℕ
of_context gregs =
    greg 7
    ∷ greg 6
    ∷ greg 5
    ∷ greg 4
    ∷ greg 10
    ∷ greg 11
    ∷ greg 3
    ∷ greg 2
    ∷ greg 1
    ∷ greg 0
    ∷ greg 13
    ∷ greg 14
    ∷ greg 12
    ∷ greg 9
    ∷ greg 8
    ∷ 0
    ∷ greg 16
    ∷ half 18
    ∷ greg 17
    ∷ greg 15
    ∷ half 21
    ∷ 0
    ∷ 0
    ∷ 0
    ∷ 0
    ∷ half 20
    ∷ half 19
    ∷ []
  where
    greg : ℕ → ℕ
    greg i = get_or gregs i 0

    half : ℕ → ℕ
    half i = get_or gregs i 0 % 2 ^ 32

unfoldable pub create_core_prstatus : Kernel → OpencoreImpl → OpencoreImpl
create_core_prstatus = create_prstatus of_context add_notes

-- One round of WriteCorePrStatus; `siginfo` is what follows at index 0.
unfoldable pub thread_writes : List (List ℕ) → PrStatus → List (List ℕ)
thread_writes siginfo p =
    encode_nhdr (core_nhdr prstatus_size nt_prstatus) ∷ core_magic ∷ encode_prstatus p ∷ siginfo

unfoldable pub prstatus_writes : Kernel → OpencoreImpl → List (List ℕ)
prstatus_writes k s =
    each_thread (thread_writes (signal_info_writes s)) (thread_writes []) s.prstatus

-- `r15` to `rdi`, and `rip`: not `rsp`, which is register 19.
abbrev pub checked : List ℕ
checked = range 0 15 ++ (16 ∷ [])

unfoldable pub is_special_filter_segment : OpencoreImpl → VirtualMemoryArea → ℕ
is_special_filter_segment s = special_segment checked s.filter s.prstatus

abbrev pub x86_64 : Arch
x86_64 = record {
  elf_class = class64;
  machine = em_x86_64;
  create_core_prstatus = create_core_prstatus;
  prstatus_writes = prstatus_writes;
  is_special_filter_segment = is_special_filter_segment;
}
