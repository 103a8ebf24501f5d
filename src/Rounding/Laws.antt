-- ===== src/Rounding/Laws.antt =====
-- What the two bit tricks compute: division by the unit, rounded down or up.
use open_core_sdk.Prelude.{
  ℕ, zero, suc, ◌+◌, ◌-◌, ◌*◌, ◌/◌, ◌%◌, ◌^◌, ◌≤◌, ◌<◌, bit_and, ◌≡◌, refl, ap, ◌∙◌, arith,
}
use open_core_sdk.Prelude.Bits.{ones, bit_and-ones, bit_and-double}
use open_core_sdk.Rounding.{round_down, round_up}

abbrev shl : ℕ → ℕ → ℕ
shl zero m = m
shl (suc j) m = 2 * shl j m

abbrev shr : ℕ → ℕ → ℕ
shr zero a = a
shr (suc j) a = shr j (a / 2)

bit_and-shl : (j a m : ℕ) → bit_and a (shl j m) ≡ shl j (bit_and (shr j a) m)
bit_and-shl zero a m = refl
bit_and-shl (suc j) a m =
    bit_and-double a (shl j m) ∙ ap (λ (t : ℕ). 2 * t) (bit_and-shl j (a / 2) m)

mask : (j k a : ℕ) → shr j a ≤ ones k → bit_and a (shl j (ones k)) ≡ shl j (shr j a)
mask j k a h = bit_and-shl j a (ones k) ∙ ap (shl j) (bit_and-ones k (shr j a) h)

-- The three units that the program uses: pages at either width, and the words of a note.
pub round_down_page64 : (x : ℕ) → x < 2 ^ 64 → round_down 64 x 4096 ≡ x / 4096 * 4096
unfolding round_down
round_down_page64 x h = omega (arith, mask 12 52 x (omega arith))

pub round_down_page32 : (x : ℕ) → x < 2 ^ 32 → round_down 32 x 4096 ≡ x / 4096 * 4096
unfolding round_down
round_down_page32 x h = omega (arith, mask 12 20 x (omega arith))

pub round_down_word : (x : ℕ) → x < 2 ^ 32 → round_down 32 x 4 ≡ x / 4 * 4
unfolding round_down
round_down_word x h = omega (arith, mask 2 30 x (omega arith))

pub round_up_page64 : (x : ℕ) → x + 4095 < 2 ^ 64 → round_up 64 x 4096 ≡ (x + 4095) / 4096 * 4096
unfolding round_up
round_up_page64 x h =
    let e : (x + 4096 - 1) % 2 ^ 64 ≡ x + 4095 = omega arith in
    rw e (round_down_page64 (x + 4095) h)

pub round_up_page32 : (x : ℕ) → x + 4095 < 2 ^ 32 → round_up 32 x 4096 ≡ (x + 4095) / 4096 * 4096
unfolding round_up
round_up_page32 x h =
    let e : (x + 4096 - 1) % 2 ^ 32 ≡ x + 4095 = omega arith in
    rw e (round_down_page32 (x + 4095) h)

pub round_up_word : (x : ℕ) → x + 3 < 2 ^ 32 → round_up 32 x 4 ≡ (x + 3) / 4 * 4
unfolding round_up
round_up_word x h =
    let e : (x + 4 - 1) % 2 ^ 32 ≡ x + 3 = omega arith in rw e (round_down_word (x + 3) h)
