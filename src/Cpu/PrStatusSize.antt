-- ===== src/Cpu/PrStatusSize.antt =====
-- The size of `elf_prstatus`, for all processors.
use open_core_sdk.Prelude.{
  ℕ, ◌+◌, ◌*◌, ◌≡◌, arith, List, ◌++◌, length, length-append, replicate, length-replicate,
}
use open_core_sdk.Elf.Encode.{le, length-le}
use open_core_sdk.Cpu.{encode_registers}
use open_core_sdk.Cpu.Sizes.{length-encode_registers}

-- The shape of elf_prstatus: the members before `pr_pid`, those up to `pr_reg`, and the rest.
pub length-prstatus :
    (before mid after size n pid : ℕ) (regs : List ℕ)
    → length (
        replicate before 0
        ++ (le 4 pid ++ (replicate mid 0 ++ (encode_registers size n regs ++ replicate after 0))))
      ≡ before + 4 + mid + size * n + after
length-prstatus before mid after size n pid regs = omega (
  arith,
  length-append {A = ℕ} (replicate before 0)
      (le 4 pid ++ (replicate mid 0 ++ (encode_registers size n regs ++ replicate after 0))),
  length-append (le 4 pid) (replicate mid 0 ++ (encode_registers size n regs ++ replicate after 0)),
  length-append {A = ℕ} (replicate mid 0) (encode_registers size n regs ++ replicate after 0),
  length-append (encode_registers size n regs) (replicate after 0),
  length-le 4 pid,
  length-replicate {A = ℕ} before 0,
  length-replicate {A = ℕ} mid 0,
  length-replicate {A = ℕ} after 0,
  length-encode_registers size n regs,
)
