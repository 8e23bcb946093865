-- ===== src/Printf/Visible.antt =====
-- Texts without a NUL, which `lib_printf` and `lib_puts` of 10-SystemCall/src/lib.c send whole.
use mini_riscv_os.Common.{
  ℕ, zero, suc, ◌+◌, ◌/◌, ◌%◌, ◌*◌, ◌^◌, ◌<◌, ◌≡◌, refl, subst, some, Bool, true, false, List, [],
  ◌∷◌, ◌++◌, ◌==◌, if◌then◌else◌, codes, length, String, arith, Bool-cases, inl, inr, ap,
}
use mini_riscv_os.Console.{Arg, puts, printf}
use mini_riscv_os.Printf.{hex_digit, count_digits, max_digits}
use mini_riscv_os.Printf.Text.{render, hex_text, digits_text, magnitude_text, decimal_text}
use mini_riscv_os.Printf.Digits.{length-digits_text, magnitude_lem}
use mini_riscv_os.Printf.Print.{until_nul}
use mini_riscv_os.Printf.Send.{IsSent, of_puts, of_printf}

unfoldable pub visible : List ℕ → Bool
visible [] = true
visible (c ∷ cs) = if c == 0 then false else visible cs

pub visible-append :
    (cs ds : List ℕ) → visible cs ≡ true → visible ds ≡ true → visible (cs ++ ds) ≡ true
unfolding visible
visible-append [] ds p q = q
visible-append (c ∷ cs) ds p q = elim (Bool-cases (c == 0)) [
  | inl stop ↦ absurd (ground (arith, p, stop))
  | inr go ↦
      rw go (
        visible-append cs ds (subst (λ (b : Bool). (if b then false else visible cs) ≡ true) go p)
          q)
]

until_nul-visible : (cs : List ℕ) → visible cs ≡ true → until_nul cs ≡ cs
unfolding visible
until_nul-visible [] p = refl
until_nul-visible (c ∷ cs) p = elim (Bool-cases (c == 0)) [
  | inl stop ↦ absurd (ground (arith, p, stop))
  | inr go ↦ rw go (
      ap (λ (l : List ℕ). c ∷ l)
        (until_nul-visible cs
          (subst (λ (b : Bool). (if b then false else visible cs) ≡ true) go p)))
]

hex_digit-visible : (d : ℕ) → (hex_digit d == 0) ≡ false
unfolding hex_digit
hex_digit-visible d = ground arith

pub visible-hex_text : (count w : ℕ) → visible (hex_text count w) ≡ true
unfolding visible hex_text
visible-hex_text zero w = refl
visible-hex_text (suc i) w = rw (hex_digit-visible (w / 2 ^ (4 * i) % 16)) (visible-hex_text i w)

visible-one : (c : ℕ) → (c == 0) ≡ false → visible (c ∷ []) ≡ true
unfolding visible
visible-one c e = rw e refl

visible-digits_text : (count m : ℕ) → visible (digits_text count m) ≡ true
unfolding digits_text visible
visible-digits_text zero m = refl
visible-digits_text (suc i) m =
    visible-append (digits_text i (m / 10)) ((b'0' + m % 10) ∷ []) (visible-digits_text i (m / 10))
      (visible-one (b'0' + m % 10) (ground arith))

pub visible-magnitude : (n : ℕ) → visible (magnitude_text n) ≡ true
visible-magnitude n = visible-digits_text (count_digits max_digits n) n

-- A text without a NUL is sent as it is.
pub printf-IsSent :
    (fmt : String) (args : List Arg) (text : List ℕ)
    → render false (codes fmt) args ≡ some text
    → length text < 999
    → visible text ≡ true
    → IsSent (printf fmt args) text
printf-IsSent fmt args text e short clean =
    subst (IsSent (printf fmt args)) (until_nul-visible text clean)
      (of_printf fmt args text e (omega arith))

pub puts-IsSent : (s : String) → visible (codes s) ≡ true → IsSent (puts s) (codes s)
puts-IsSent s clean = subst (IsSent (puts s)) (until_nul-visible (codes s) clean) (of_puts s)

-- A number that fits in 31 bits is printed as it is, with ten digits at most.
pub decimal-magnitude : (n : ℕ) → n < 2 ^ 31 → decimal_text n ≡ some (magnitude_text n)
unfolding decimal_text
decimal-magnitude n lt = ground arith

pub length-magnitude : (n : ℕ) → n < 2 ^ 31 → length (magnitude_text n) < 11
length-magnitude n lt = omega (
  arith,
  length-digits_text (count_digits max_digits n) n,
  (magnitude_lem n 9 (omega arith) (omega arith)).1,
)
