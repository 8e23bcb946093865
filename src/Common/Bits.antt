-- ===== src/Common/Bits.antt =====
-- The digits of `&` and `|`, from the definitions that the native operations stand for.
use Prim.Native.Nat.{
  ℕ, zero, suc, ◌+◌, ◌-◌, ◌^◌, ◌*◌, ◌/◌, ◌%◌, ◌≤◌, ◌<◌, min, max, bit_and, bit_or, digits,
  bit_and-bitwise, bit_or-bitwise,
}
use mathlib.Core.Path.{◌≡◌, refl, ap, subst}
use native.Mathlib.Nat.{pow-suc, one-le-pow}
use native.Mathlib.Omega.{arith}

-- Both operations go digit by digit, with as many rounds as the first number.
module _ (left_over : ℕ → ℕ) (join : ℕ → ℕ → ℕ) where
  abbrev joined : ℕ → ℕ → ℕ → ℕ
  joined rounds x y = digits left_over join rounds x y

  -- More rounds than the number change nothing.
  joined-rounds : (x y r s : ℕ) → x ≤ r → x ≤ s → joined r x y ≡ joined s x y
  joined-rounds zero y zero zero hr hs = refl
  joined-rounds zero y zero (suc s) hr hs = refl
  joined-rounds zero y (suc r) zero hr hs = refl
  joined-rounds zero y (suc r) (suc s) hr hs = refl
  joined-rounds (suc x) y zero s hr hs = absurd (omega arith)
  joined-rounds (suc x) y (suc r) zero hr hs = absurd (omega arith)
  joined-rounds (suc x) y (suc r) (suc s) hr hs =
      let half = joined-rounds (suc x / 2) (y / 2) r s (omega arith) (omega arith) in
      omega (arith, half)

-- What holds of 0, and of a number whenever it holds of its half, holds of all numbers.
halving_within :
    (P : ℕ → Type 0) → P 0 → ((x : ℕ) → P (suc x / 2) → P (suc x)) → (bound x : ℕ) → x ≤ bound → P x
halving_within P base step bound zero h = base
halving_within P base step zero (suc x) h = absurd (omega arith)
halving_within P base step (suc bound) (suc x) h =
    step x (halving_within P base step bound (suc x / 2) (omega arith))

halving : (P : ℕ → Type 0) → P 0 → ((x : ℕ) → P (suc x / 2) → P (suc x)) → (x : ℕ) → P x
halving P base step x = halving_within P base step x x (omega arith)

zero-bit_and : (y : ℕ) → bit_and 0 y ≡ 0
zero-bit_and = bit_and-bitwise 0

zero-bit_or : (y : ℕ) → bit_or 0 y ≡ y
zero-bit_or = bit_or-bitwise 0

pub bit_and_step : (x y : ℕ) → bit_and x y ≡ bit_and (x / 2) (y / 2) * 2 + min (x % 2) (y % 2)
bit_and_step zero y = omega (arith, zero-bit_and (y / 2), zero-bit_and y)
bit_and_step (suc x) y =
    let half = suc x / 2 in
    let rounds = joined-rounds (λ b. zero) min half (y / 2) x half (omega arith) (omega arith) in
    omega (arith, rounds, bit_and-bitwise half (y / 2), bit_and-bitwise (suc x) y)

pub bit_or_step : (x y : ℕ) → bit_or x y ≡ bit_or (x / 2) (y / 2) * 2 + max (x % 2) (y % 2)
bit_or_step zero y = omega (arith, zero-bit_or (y / 2), zero-bit_or y)
bit_or_step (suc x) y =
    let half = suc x / 2 in
    let rounds = joined-rounds (λ b. b) max half (y / 2) x half (omega arith) (omega arith) in
    omega (arith, rounds, bit_or-bitwise half (y / 2), bit_or-bitwise (suc x) y)

pub bit_and-zero : (x : ℕ) → bit_and x 0 ≡ 0
bit_and-zero =
    halving (λ (x : ℕ). bit_and x 0 ≡ 0) (zero-bit_and 0)
      (λ x half. omega (arith, half, bit_and_step (suc x) 0))

pub bit_or-zero : (x : ℕ) → bit_or x 0 ≡ x
bit_or-zero =
    halving (λ (x : ℕ). bit_or x 0 ≡ x) (zero-bit_or 0)
      (λ x half. omega (arith, half, bit_or_step (suc x) 0))

pub bit_and-one : (a : ℕ) → bit_and a 1 ≡ a % 2
bit_and-one a = omega (arith, bit_and_step a 1, bit_and-zero (a / 2))

-- Digit `k` of a word.
abbrev pub bit : ℕ → ℕ → ℕ
bit a zero = a % 2
bit a (suc k) = bit (a / 2) k

pub bit-bit_and : (k a b : ℕ) → bit (bit_and a b) k ≡ min (bit a k) (bit b k)
bit-bit_and zero a b = omega (arith, bit_and_step a b)
bit-bit_and (suc k) a b =
    let e : bit_and a b / 2 ≡ bit_and (a / 2) (b / 2) = omega (arith, bit_and_step a b) in
    rw e (bit-bit_and k (a / 2) (b / 2))

pub bit-bit_or : (k a b : ℕ) → bit (bit_or a b) k ≡ max (bit a k) (bit b k)
bit-bit_or zero a b = omega (arith, bit_or_step a b)
bit-bit_or (suc k) a b =
    let e : bit_or a b / 2 ≡ bit_or (a / 2) (b / 2) = omega (arith, bit_or_step a b) in
    rw e (bit-bit_or k (a / 2) (b / 2))

double_pow : (q k : ℕ) → q * 2 ^ suc k ≡ q * 2 ^ k * 2
double_pow q k = omega (arith, ap (λ (t : ℕ). q * t) (pow-suc 2 k))

low_part : (k q r : ℕ) → r < 2 ^ k → bit_and (q * 2 ^ k + r) (2 ^ k - 1) ≡ r
low_part zero q r h = omega (arith, bit_and-zero (q * 2 ^ 0 + r))
low_part (suc k) q r h = omega (
  arith,
  bit_and_step (q * 2 ^ suc k + r) (2 ^ suc k - 1),
  double_pow q k,
  pow-suc 2 k,
  one-le-pow k 2,
  ap (λ (t : ℕ). bit_and t (2 ^ k - 1)) (halved q k r),
  ap (λ (t : ℕ). bit_and ((q * 2 ^ suc k + r) / 2) t) (half_mask k),
  low_part k q (r / 2) (omega (arith, pow-suc 2 k)),
)
  where
    halved : (q k r : ℕ) → (q * 2 ^ suc k + r) / 2 ≡ q * 2 ^ k + r / 2
    halved q k r = omega (arith, double_pow q k)

    half_mask : (k : ℕ) → (2 ^ suc k - 1) / 2 ≡ 2 ^ k - 1
    half_mask k = omega (arith, pow-suc 2 k, one-le-pow k 2)

-- A mask of `k` low bits is the remainder by `2 ^ k`.
pub bit_and_mask : (k a : ℕ) → bit_and a (2 ^ k - 1) ≡ a % 2 ^ k
bit_and_mask k a =
    let e : a / 2 ^ k * 2 ^ k + a % 2 ^ k ≡ a = omega (arith, one-le-pow k 2) in
    subst (λ (t : ℕ). bit_and t (2 ^ k - 1) ≡ a % 2 ^ k) e
      (low_part k (a / 2 ^ k) (a % 2 ^ k) (omega (arith, one-le-pow k 2)))

-- A number below `2 ^ k` has no digit in common with a multiple of `2 ^ k`.
pub bit_and_above : (k a m : ℕ) → a < 2 ^ k → bit_and a (m * 2 ^ k) ≡ 0
bit_and_above zero a m h = let e : a ≡ 0 = omega arith in rw e (zero-bit_and (m * 2 ^ 0))
bit_and_above (suc k) a m h =
    let half : m * 2 ^ suc k / 2 ≡ m * 2 ^ k = omega (arith, double_pow m k) in
    omega (
      arith,
      bit_and_step a (m * 2 ^ suc k),
      double_pow m k,
      ap (λ (t : ℕ). bit_and (a / 2) t) half,
      bit_and_above k (a / 2) m (omega (arith, pow-suc 2 k)),
    )

-- What fits into `n` digits.
pub bit_or-below : (n x y : ℕ) → x < 2 ^ n → y < 2 ^ n → bit_or x y < 2 ^ n
bit_or-below zero x y hx hy = omega (
  arith,
  bit_or_step x y,
  bit_or-zero 0,
  ap (λ (a : ℕ). bit_or a y) (none_below x hx),
  ap (bit_or 0) (none_below y hy),
)
  where
    none_below : (a : ℕ) → a < 2 ^ 0 → a ≡ 0
    none_below a h = omega arith
bit_or-below (suc n) x y hx hy = omega (
  arith,
  pow-suc 2 n,
  bit_or_step x y,
  bit_or-below n (x / 2) (y / 2) (omega (arith, pow-suc 2 n)) (omega (arith, pow-suc 2 n)),
)

pub bit_and-below : (n x y : ℕ) → x < 2 ^ n → bit_and x y < 2 ^ n
bit_and-below zero x y hx = omega (arith, zero-bit_and y, ap (λ (a : ℕ). bit_and a y) (none x hx))
  where
    none : (a : ℕ) → a < 2 ^ 0 → a ≡ 0
    none a h = omega arith
bit_and-below (suc n) x y hx = omega (
  arith,
  pow-suc 2 n,
  bit_and_step x y,
  bit_and-below n (x / 2) (y / 2) (omega (arith, pow-suc 2 n)),
)
