-- ===== src/Elf/Wrap.antt =====
-- Address arithmetic that stays within its width.
use open_core_sdk.Prelude.{ℕ, ◌^◌, ◌<◌, ◌≡◌, arith}
use open_core_sdk.Elf.{ElfClass, class32, class64, word_bits, wrap}

pub wrap_small : (c : ElfClass) (n : ℕ) → n < 2 ^ word_bits c → wrap c n ≡ n
wrap_small class32 n h = omega arith
wrap_small class64 n h = omega arith
