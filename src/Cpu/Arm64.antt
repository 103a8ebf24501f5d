-- ===== src/Cpu/Arm64.antt =====
-- Class arm64::Opencore (opencore/src/main/cpp/opencore/arm64/opencore.{h,cpp}).
pub mod Notes
pub mod NoteList
use open_core_sdk.Prelude.{
  Option, ℕ, ◌+◌, ◌-◌, ◌*◌, ◌/◌, ◌%◌, ◌^◌, bit_and, List, [], ◌∷◌, ◌++◌, none, some, take,
  replicate,
}
use open_core_sdk.Elf.{
  class64, int, nhdr_size, siginfo_size, nt_prstatus, nt_fpregset, nt_arm_tls, nt_arm_pac_mask,
  nt_arm_pac_enabled_keys, nt_arm_tagged_addr_ctrl,
}
use open_core_sdk.Elf.Encode.{le, encode_nhdr}
use open_core_sdk.Kernel.{Kernel, VirtualMemoryArea}
use open_core_sdk.Lp.{OpencoreImpl, PrStatus}
use open_core_sdk.Lp.Write.{
  core_nhdr, linux_nhdr, core_magic, linux_magic, buffer, signal_info_writes,
}
use open_core_sdk.Lp.Dump.{Arch}
use open_core_sdk.Cpu.{
  create_prstatus, encode_registers, special_segment, each_thread, over_stack, range,
}

abbrev pub em_aarch64 : ℕ
em_aarch64 = 183

-- `regs[31]`, `sp`, `pc`, `pstate`.
abbrev pub pt_regs_words : ℕ
pt_regs_words = 34

abbrev pub prstatus_size : ℕ
prstatus_size = 392

abbrev pub fpregset_size : ℕ
fpregset_size = 528

abbrev pub tls_size : ℕ
tls_size = 16

abbrev pub pac_mask_size : ℕ
pac_mask_size = 16

-- The members before `pr_pid` take 32 bytes, and those up to `pr_reg` another 76; `pr_fpvalid` is
-- followed by 4 bytes of padding.
unfoldable pub encode_prstatus : PrStatus → List ℕ
encode_prstatus p =
    replicate 32 0
    ++ (le 4 p.pr_pid
        ++ (replicate 76 0 ++ (encode_registers 8 pt_regs_words p.pr_reg ++ replicate 8 0)))

-- The sums at the end of CreateCorePrStatus, each stored to an `int`.
unfoldable pub add_notes : ℕ → ℕ → ℕ
add_notes extra prnum =
    let prstatus = int (extra + (prstatus_size + nhdr_size + 8) * prnum) in
    let siginfo = int (prstatus + (siginfo_size + nhdr_size + 8)) in
    let fpregset = int (siginfo + (fpregset_size + nhdr_size + 8) * prnum) in
    let tls = int (fpregset + (tls_size + nhdr_size + 8) * prnum) in
    let pac = int (tls + (pac_mask_size + nhdr_size + 8 + (8 + nhdr_size + 8)) * prnum) in
    int (pac + (8 + nhdr_size + 8) * prnum)

-- The context's registers are copied whole.
unfoldable pub create_core_prstatus : Kernel → OpencoreImpl → OpencoreImpl
create_core_prstatus = create_prstatus (take pt_regs_words) add_notes

-- A buffer after PTRACE_GETREGSET: what the program puts there if the call fails, or what the call
-- made of it.
abbrev pub filled : Option (List ℕ) → List ℕ → (List ℕ → List ℕ) → List ℕ
filled none failed read = failed
filled (some bs) failed read = read bs

unfoldable pub fp_regs_writes : Kernel → ℕ → List (List ℕ)
fp_regs_writes k tid =
    encode_nhdr (core_nhdr fpregset_size nt_fpregset)
    ∷ core_magic
    ∷ filled (k.get_regset tid nt_fpregset) (replicate fpregset_size 0) (buffer fpregset_size)
    ∷ []

unfoldable pub tls_writes : Kernel → ℕ → List (List ℕ)
tls_writes k tid =
    encode_nhdr (linux_nhdr pac_mask_size nt_arm_tls)
    ∷ linux_magic
    ∷ filled (k.get_regset tid nt_arm_tls) (replicate tls_size 0) (over_stack tls_size k.stack)
    ∷ []

-- GENMASK_UL(h, l).
abbrev pub genmask_ul : ℕ → ℕ → ℕ
genmask_ul h l = bit_and ((2 ^ 64 - 1) * 2 ^ l % 2 ^ 64) ((2 ^ 64 - 1) / 2 ^ (64 - 1 - h))

abbrev pub def_va_bits : ℕ
def_va_bits = 39

-- Both masks, where the kernel has none to give.
abbrev pub def_pac_mask : List ℕ
def_pac_mask = le 8 (genmask_ul 54 def_va_bits) ++ le 8 (genmask_ul 54 def_va_bits)

unfoldable pub pac_writes : Kernel → ℕ → List (List ℕ)
pac_writes k tid =
    encode_nhdr (linux_nhdr pac_mask_size nt_arm_pac_mask)
    ∷ linux_magic
    ∷ filled (k.get_regset tid nt_arm_pac_mask) def_pac_mask (over_stack pac_mask_size k.stack)
    ∷ encode_nhdr (linux_nhdr 8 nt_arm_pac_enabled_keys)
    ∷ linux_magic
    ∷ filled (k.get_regset tid nt_arm_pac_enabled_keys) (le 8 (2 ^ 64 - 1)) (over_stack 8 k.stack)
    ∷ []

unfoldable pub mte_writes : Kernel → ℕ → List (List ℕ)
mte_writes k tid =
    encode_nhdr (linux_nhdr 8 nt_arm_tagged_addr_ctrl)
    ∷ linux_magic
    ∷ filled (k.get_regset tid nt_arm_tagged_addr_ctrl) (le 8 (2 ^ 64 - 1)) (over_stack 8 k.stack)
    ∷ []

-- One round of WriteCorePrStatus; `siginfo` is what stands between, at index 0.
unfoldable pub thread_writes : Kernel → List (List ℕ) → PrStatus → List (List ℕ)
thread_writes k siginfo p =
    encode_nhdr (core_nhdr prstatus_size nt_prstatus)
    ∷ core_magic
    ∷ encode_prstatus p
    ∷ (siginfo
        ++ (fp_regs_writes k p.pr_pid
            ++ (tls_writes k p.pr_pid ++ (pac_writes k p.pr_pid ++ mte_writes k p.pr_pid))))

unfoldable pub prstatus_writes : Kernel → OpencoreImpl → List (List ℕ)
prstatus_writes k s =
    each_thread (thread_writes k (signal_info_writes s)) (thread_writes k []) s.prstatus

-- `pc`, `regs[0]` to `regs[30]`, `sp`.
abbrev pub checked : List ℕ
checked = 32 ∷ (range 0 31 ++ (31 ∷ []))

unfoldable pub is_special_filter_segment : OpencoreImpl → VirtualMemoryArea → ℕ
is_special_filter_segment s = special_segment checked s.filter s.prstatus

abbrev pub arm64 : Arch
arm64 = record {
  elf_class = class64;
  machine = em_aarch64;
  create_core_prstatus = create_core_prstatus;
  prstatus_writes = prstatus_writes;
  is_special_filter_segment = is_special_filter_segment;
}
