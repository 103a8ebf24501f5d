-- ===== src/Rounding.antt =====
-- `RoundDown` and `RoundUp` of opencore/src/main/cpp/opencore/opencore.h, at the width of the type
-- that the template is instantiated with.
pub mod Laws
use open_core_sdk.Prelude.{ℕ, ◌+◌, ◌-◌, ◌%◌, ◌^◌, bit_and}

-- `x & -n` on `w`-bit numbers: `-n` is the complement `2 ^ w - n`.
unfoldable pub round_down : ℕ → ℕ → ℕ → ℕ
round_down w x n = bit_and x ((2 ^ w - n) % 2 ^ w)

-- `RoundDown(x + n - 1, n)`.
unfoldable pub round_up : ℕ → ℕ → ℕ → ℕ
round_up w x n = round_down w ((x + n - 1) % 2 ^ w) n
