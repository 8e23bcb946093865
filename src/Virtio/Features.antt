-- ===== src/Virtio/Features.antt =====
-- Which features the driver accepts.
use mini_riscv_os.Common.{
  ℕ, zero, suc, ◌/◌, ◌^◌, ◌<◌, ◌≡◌, refl, Bool, true, ◌&&◌, List, [], ◌∷◌, ◌==◌, if◌then◌else◌,
  bit_and, not32, arith,
}
use mini_riscv_os.Common.Bits.{bit, bit-bit_and}
use mini_riscv_os.Virtio.Isr.{elem}
use mini_riscv_os.Virtio.Init.{clear_bits, refused_features}

unfoldable pub all_below : ℕ → (ℕ → Bool) → Bool
all_below zero p = true
all_below (suc n) p = p n && all_below n p

pub all_below_lem : (n : ℕ) (p : ℕ → Bool) (x : ℕ) → all_below n p ≡ true → x < n → p x ≡ true
unfolding all_below
all_below_lem zero p x h lt = absurd (omega arith)
all_below_lem (suc n) p x h lt = ground (arith, all_below_lem n p x)

-- `~(1 << j)` has every digit but digit `j`.
mask_digit : ℕ → ℕ → Bool
mask_digit j k = bit (not32 (2 ^ j)) k == (if j == k then 0 else 1)

mask_table : all_below 32 (λ j. all_below 32 (mask_digit j)) ≡ true
unfolding all_below mask_digit
mask_table = refl

pub mask_lem : (j k : ℕ) → j < 32 → k < 32 → bit (not32 (2 ^ j)) k ≡ (if j == k then 0 else 1)
unfolding mask_digit
mask_lem j k hj hk = ground (
  arith,
  all_below_lem 32 (mask_digit j) k
      (all_below_lem 32 (λ j. all_below 32 (mask_digit j)) j mask_table hj) hk,
)

-- Digits are 0 or 1.
pub bit-lt : (a k : ℕ) → bit a k < 2
bit-lt a zero = omega arith
bit-lt a (suc k) = bit-lt (a / 2) k

abbrev AllSmall : List ℕ → Type 0
AllSmall [] = Unit {0}
AllSmall (j ∷ js) = (j < 32) × AllSmall js

clear_bits_lem :
    (js : List ℕ) (f k : ℕ)
    → AllSmall js
    → k < 32
    → bit (clear_bits js f) k ≡ (if elem k js then 0 else bit f k)
unfolding clear_bits
clear_bits_lem [] f k small lt = refl
clear_bits_lem (j ∷ js) f k small lt = ground (
  arith,
  clear_bits_lem js (bit_and f (not32 (2 ^ j))) k small.1 lt,
  bit-bit_and k f (not32 (2 ^ j)),
  mask_lem j k small.0 lt,
  bit-lt f k,
)

-- Of the features that the device offers, the driver accepts all but the seven that it names:
-- digit by digit over the 32 bits.
pub features_lem :
    (offered k : ℕ)
    → k < 32
    → bit (clear_bits refused_features offered) k
      ≡ (if elem k refused_features then 0 else bit offered k)
features_lem offered k lt = clear_bits_lem refused_features offered k (omega arith) lt
