-- ===== src/Printf/Digits.antt =====
-- The digits that are printed stand for the number.
use mini_riscv_os.Common.{
  ℕ, zero, suc, ◌+◌, ◌-◌, ◌*◌, ◌/◌, ◌%◌, ◌^◌, ◌≤◌, ◌<◌, ◌≡◌, ◌≢◌, refl, List, [], ◌∷◌, ◌++◌, ltb,
  ◌==◌, if◌then◌else◌, arith, inl, inr, Bool-cases, length, length-append,
}
use native.Mathlib.Nat.{pow-suc}
use mini_riscv_os.Printf.{hex_digit, count_digits, max_digits}
use mini_riscv_os.Printf.Text.{hex_text, digits_text, magnitude_text}

-- The number that decimal digits stand for, read from the left.
abbrev pub read_decimal : ℕ → List ℕ → ℕ
read_decimal acc [] = acc
read_decimal acc (c ∷ cs) = read_decimal (acc * 10 + (c - b'0')) cs

abbrev pub hex_value : ℕ → ℕ
hex_value c = if ltb c b'a' then c - b'0' else c + 10 - b'a'

abbrev pub read_hex : ℕ → List ℕ → ℕ
read_hex acc [] = acc
read_hex acc (c ∷ cs) = read_hex (acc * 16 + hex_value c) cs

pub length-digits_text : (i m : ℕ) → length (digits_text i m) ≡ i
unfolding digits_text
length-digits_text zero m = refl
length-digits_text (suc i) m = omega (
  arith,
  length-append {0} (digits_text i (m / 10)) ((b'0' + m % 10) ∷ []),
  length-digits_text i (m / 10),
)

read_decimal-append :
    (acc : ℕ) (cs : List ℕ) (c : ℕ)
    → read_decimal acc (cs ++ c ∷ []) ≡ read_decimal acc cs * 10 + (c - b'0')
read_decimal-append acc [] c = refl
read_decimal-append acc (d ∷ cs) c = read_decimal-append (acc * 10 + (d - b'0')) cs c

read-digits_text : (i m : ℕ) → m < 10 ^ i → read_decimal 0 (digits_text i m) ≡ m
unfolding digits_text
read-digits_text zero m h = omega arith
read-digits_text (suc i) m h = omega (
  arith,
  read_decimal-append 0 (digits_text i (m / 10)) (b'0' + m % 10),
  read-digits_text i (m / 10) (omega (arith, pow-suc 10 i)),
)

one_more :
    (m c : ℕ)
    → m / 10 ≢ 0
    → ((k : ℕ) → m / 10 < 10 ^ suc k → c ≤ suc k)
    → (k : ℕ) → m < 10 ^ suc k
    → suc c ≤ suc k
one_more m c ne least zero lt = absurd (omega (arith, pow-suc 10 0))
one_more m c ne least (suc k) lt = omega (arith, least k (omega (arith, pow-suc 10 (suc k))))

-- Fuel for all digits but the last is enough, and then the count is the least.
count_digits_lem :
    (fuel m : ℕ)
    → m < 10 ^ suc fuel
    → (m < 10 ^ count_digits fuel m) × ((k : ℕ) → m < 10 ^ suc k → count_digits fuel m ≤ suc k)
unfolding count_digits
count_digits_lem zero m h = (h, λ k lt. omega arith)
count_digits_lem (suc fuel) m h = elim (Bool-cases (m / 10 == 0)) [
  | inl last ↦
      rw last
        (let small : m < 10 = ground arith in (omega (arith, pow-suc 10 0), λ k lt. omega arith))
  | inr more ↦ rw more (
      let rest = count_digits_lem fuel (m / 10) (omega (arith, pow-suc 10 (suc fuel))) in
      (
        omega (arith, rest.0, pow-suc 10 (count_digits fuel (m / 10))),
        one_more m (count_digits fuel (m / 10)) (ground arith) rest.1,
      ))
]

-- The case 'd' prints the number that it is given: its digits, read in decimal, give the number
-- back, and they are no more than any `suc k` digits that the number fits in.
pub magnitude_lem :
    (m k : ℕ)
    → m < 2 ^ 32
    → m < 10 ^ suc k
    → (read_decimal 0 (magnitude_text m) ≡ m) × (count_digits max_digits m ≤ suc k)
magnitude_lem m k h lt =
    let enough = count_digits_lem max_digits m (omega arith) in
    (read-digits_text (count_digits max_digits m) m enough.0, enough.1 k lt)

hex_value-hex_digit : (d : ℕ) → d < 16 → hex_value (hex_digit d) ≡ d
unfolding hex_digit
hex_value-hex_digit d h = ground arith

-- The eight digits of the case 'x', read in hexadecimal, give the word back.
pub read_hex-hex_text : (w : ℕ) → w < 2 ^ 32 → read_hex 0 (hex_text 8 w) ≡ w
unfolding hex_text
read_hex-hex_text w h =
    rw
      (
        hex_value-hex_digit (w / 2 ^ 28 % 16) (omega arith),
        hex_value-hex_digit (w / 2 ^ 24 % 16) (omega arith),
        hex_value-hex_digit (w / 2 ^ 20 % 16) (omega arith),
        hex_value-hex_digit (w / 2 ^ 16 % 16) (omega arith),
        hex_value-hex_digit (w / 2 ^ 12 % 16) (omega arith),
        hex_value-hex_digit (w / 2 ^ 8 % 16) (omega arith),
        hex_value-hex_digit (w / 2 ^ 4 % 16) (omega arith),
        hex_value-hex_digit (w / 2 ^ 0 % 16) (omega arith),
      )
      (omega arith)
