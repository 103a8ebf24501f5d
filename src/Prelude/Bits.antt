-- ===== src/Prelude/Bits.antt =====
-- `&` with a mask whose low bits are clear, as arithmetic at every width.
use Prim.Native.Nat.{
  ℕ, zero, suc, ◌+◌, ◌*◌, ◌/◌, ◌%◌, ◌≤◌, min, max, bit_and, bit_or, digits, bit_and-bitwise,
  bit_or-bitwise,
}
use mathlib.Core.Path.{◌≡◌, refl, sym, ap, ◌∙◌}
use mathlib.Core.Bool.{Bool, ◌||◌, not}
use open_core_sdk.Prelude.Tests.{◌==◌}
use mathlib.Core.Logic.{◌⊎◌, inl, inr}
use native.Mathlib.Omega.{arith}

-- The recursion that `bit_and` stands for goes down the number bit by bit, for `steps` bits at most.
abbrev masked : ℕ → ℕ → ℕ → ℕ
masked steps x mask = digits (λ low. zero) min steps x mask

-- Once the number is used up, one step more changes nothing.
masked_once_more : (steps x mask : ℕ) → x ≤ steps → masked (suc steps) x mask ≡ masked steps x mask
masked_once_more zero zero mask small = refl
masked_once_more zero (suc x) mask small = absurd (omega arith)
masked_once_more (suc steps) zero mask small = refl
masked_once_more (suc steps) (suc x) mask small =
    omega (arith, masked_once_more steps (suc x / 2) (mask / 2) (omega arith))

below_or_top : (x n : ℕ) → x ≤ suc n → (x ≤ n) ⊎ (x ≡ suc n)
below_or_top x n small = grind arith

-- So as many steps as the number itself are enough.
masked-bit_and : (steps x mask : ℕ) → x ≤ steps → masked steps x mask ≡ bit_and x mask
masked-bit_and zero zero mask small = sym (bit_and-bitwise 0 mask)
masked-bit_and zero (suc x) mask small = absurd (omega arith)
masked-bit_and (suc steps) x mask small = elim (below_or_top x steps small) [
  | inl less ↦ masked_once_more steps x mask less ∙ masked-bit_and steps x mask less
  | inr top ↦ ap (λ t. masked t x mask) (sym top) ∙ sym (bit_and-bitwise x mask)
]

-- What one bit contributes.
pub bit_and_step : (x y : ℕ) → bit_and x y ≡ bit_and (x / 2) (y / 2) * 2 + min (x % 2) (y % 2)
bit_and_step zero y = omega (arith, bit_and-bitwise 0 y, bit_and-bitwise 0 (y / 2))
bit_and_step (suc x) y =
    omega (arith, bit_and-bitwise (suc x) y, masked-bit_and x (suc x / 2) (y / 2) (omega arith))

masked-zero : (steps x : ℕ) → masked steps x 0 ≡ 0
masked-zero zero x = refl
masked-zero (suc steps) zero = refl
masked-zero (suc steps) (suc x) = omega (arith, masked-zero steps (suc x / 2))

-- The mask of `width` ones.
abbrev pub ones : ℕ → ℕ
ones zero = 0
ones (suc width) = 2 * ones width + 1

pub bit_and-ones : (width x : ℕ) → x ≤ ones width → bit_and x (ones width) ≡ x
bit_and-ones zero x fits = omega (arith, bit_and-bitwise x 0, masked-zero x x)
bit_and-ones (suc width) x fits =
    let upper : (2 * ones width + 1) / 2 ≡ ones width = omega arith in
    omega (
      arith,
      bit_and_step x (2 * ones width + 1),
      ap (bit_and (x / 2)) upper,
      bit_and-ones width (x / 2) (omega arith),
    )

-- A mask whose lowest bit is clear.
pub bit_and-double : (x mask : ℕ) → bit_and x (2 * mask) ≡ 2 * bit_and (x / 2) mask
bit_and-double x mask =
    let upper : 2 * mask / 2 ≡ mask = omega arith in
    omega (arith, bit_and_step x (2 * mask), ap (bit_and (x / 2)) upper)

pub bit_and-zero : (x : ℕ) → bit_and x 0 ≡ 0
bit_and-zero x = omega (arith, bit_and-bitwise x 0, masked-zero x x)

-- `|` in the same way.
abbrev joint : ℕ → ℕ → ℕ → ℕ
joint steps x y = digits (λ low. low) max steps x y

joint_once_more : (steps x y : ℕ) → x ≤ steps → joint (suc steps) x y ≡ joint steps x y
joint_once_more zero zero y small = refl
joint_once_more zero (suc x) y small = absurd (omega arith)
joint_once_more (suc steps) zero y small = refl
joint_once_more (suc steps) (suc x) y small =
    omega (arith, joint_once_more steps (suc x / 2) (y / 2) (omega arith))

joint-bit_or : (steps x y : ℕ) → x ≤ steps → joint steps x y ≡ bit_or x y
joint-bit_or zero zero y small = sym (bit_or-bitwise 0 y)
joint-bit_or zero (suc x) y small = absurd (omega arith)
joint-bit_or (suc steps) x y small = elim (below_or_top x steps small) [
  | inl less ↦ joint_once_more steps x y less ∙ joint-bit_or steps x y less
  | inr top ↦ ap (λ t. joint t x y) (sym top) ∙ sym (bit_or-bitwise x y)
]

bit_or_step : (x y : ℕ) → bit_or x y ≡ bit_or (x / 2) (y / 2) * 2 + max (x % 2) (y % 2)
bit_or_step zero y = omega (arith, bit_or-bitwise 0 y, bit_or-bitwise 0 (y / 2))
bit_or_step (suc x) y =
    omega (arith, bit_or-bitwise (suc x) y, joint-bit_or x (suc x / 2) (y / 2) (omega arith))

-- The digit with the given number, the lowest being 0, and the number with only that digit set.
abbrev pub bit : ℕ → ℕ → Bool
bit zero x = x % 2 == 1
bit (suc n) x = bit n (x / 2)

abbrev pub single : ℕ → ℕ
single zero = 1
single (suc n) = 2 * single n

pub bit_and-single : (n x : ℕ) → not (bit_and x (single n) == 0) ≡ bit n x
bit_and-single zero x = ground (arith, bit_and_step x 1, bit_and-zero (x / 2))
bit_and-single (suc n) x =
    rw (bit_and-double x (single n))
      (doubled (bit_and (x / 2) (single n)) ∙ bit_and-single n (x / 2))
  where
    doubled : (m : ℕ) → not (2 * m == 0) ≡ not (m == 0)
    doubled m = ground arith

pub bit-bit_or : (n x y : ℕ) → bit n (bit_or x y) ≡ (bit n x || bit n y)
bit-bit_or zero x y = ground (arith, bit_or_step x y)
bit-bit_or (suc n) x y =
    ap (bit n)
      (let e : bit_or x y / 2 ≡ bit_or (x / 2) (y / 2) = omega (arith, bit_or_step x y) in e)
    ∙ bit-bit_or n (x / 2) (y / 2)

-- `&` with a mask of low digits.
abbrev low : ℕ → ℕ → ℕ
low zero x = 0
low (suc width) x = 2 * low width (x / 2) + x % 2

pub bit_and-low : (width x : ℕ) → bit_and x (ones width) ≡ low width x
bit_and-low zero x = bit_and-zero x
bit_and-low (suc width) x =
    let upper : (2 * ones width + 1) / 2 ≡ ones width = omega arith in
    omega (
      arith,
      bit_and_step x (2 * ones width + 1),
      ap (bit_and (x / 2)) upper,
      bit_and-low width (x / 2),
    )
