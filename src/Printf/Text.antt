-- ===== src/Printf/Text.antt =====
-- What a format string and its arguments mean: a text, with no buffer in sight.
use mini_riscv_os.Common.{
  ℕ, zero, suc, ◌+◌, ◌-◌, ◌*◌, ◌/◌, ◌%◌, ◌^◌, Bool, true, false, Option, none, some, List, [], ◌∷◌,
  ◌++◌, ltb, ◌==◌, if◌then◌else◌,
}
use mini_riscv_os.Common.{◌≡◌, refl}
use mini_riscv_os.Console.{Arg, int, str}
use mini_riscv_os.Printf.{
  Conversion, length_mark, pointer, hex, decimal, string, char, other, conversion, hex_digit,
  count_digits, max_digits,
}

-- The last `count` hexadecimal digits of a word.
unfoldable pub hex_text : ℕ → ℕ → List ℕ
hex_text zero w = []
hex_text (suc i) w = hex_digit (w / 2 ^ (4 * i) % 16) ∷ hex_text i w

-- The last `count` decimal digits of a number.
unfoldable pub digits_text : ℕ → ℕ → List ℕ
digits_text zero m = []
digits_text (suc i) m = digits_text i (m / 10) ++ (b'0' + m % 10) ∷ []

abbrev pub magnitude_text : ℕ → List ℕ
magnitude_text m = digits_text (count_digits max_digits m) m

unfoldable pub decimal_text : ℕ → Option (List ℕ)
decimal_text w =
    if ltb w (2 ^ 31)
    then some (magnitude_text w)
    else if w == 2 ^ 31
    then none
    else some (b'-' ∷ magnitude_text (2 ^ 32 - w))

-- The text of one character, whether a conversion is open after it, and the arguments left.
abbrev pub Piece : Type 0
Piece = List ℕ × Bool × List Arg

unfoldable pub closed : Option (List ℕ) → List Arg → Option Piece
closed none args = none
closed (some t) args = some (t, false, args)

-- A conversion that is not known prints nothing and stays open. The case 'c' takes its argument only
-- where its byte is stored, so that what follows depends on the buffer: it has no text here.
unfoldable pub convert_text : Conversion → List Arg → Option Piece
unfolding closed
convert_text length_mark args = some ([], true, args)
convert_text pointer (int w ∷ args) = some (b'0' ∷ b'x' ∷ hex_text 8 w, false, args)
convert_text pointer args = none
convert_text hex (int w ∷ args) = some (hex_text 8 w, false, args)
convert_text hex args = none
convert_text decimal (int w ∷ args) = closed (decimal_text w) args
convert_text decimal args = none
convert_text string (str cs ∷ args) = some (cs, false, args)
convert_text string args = none
convert_text char args = none
convert_text other args = some ([], true, args)

unfoldable pub step_text : Bool → ℕ → List Arg → Option Piece
unfolding convert_text
step_text true c args = convert_text (conversion c) args
step_text false c args = some (if c == b'%' then ([], true, args) else (c ∷ [], false, args))

unfoldable pub put_before : List ℕ → Option (List ℕ) → Option (List ℕ)
put_before t none = none
put_before t (some rest) = some (t ++ rest)

unfoldable pub render : Bool → List ℕ → List Arg → Option (List ℕ)
unfolding step_text put_before
render format [] args = some []
render format (c ∷ cs) args = elim (step_text format c args) [
  | none ↦ none
  | some (t, format', args') ↦ put_before t (render format' cs args')
]

put_before_inv :
    (t : List ℕ) (r : Option (List ℕ)) {text : List ℕ}
    → put_before t r ≡ some text
    → (rest : List ℕ) × (r ≡ some rest) × (t ++ rest ≡ text)
unfolding put_before
put_before_inv t none e = cc
put_before_inv t (some rest) e = (rest, refl, cc)

-- The text of a format string begins with the piece of its first character.
pub record Splits (format : Bool) (c : ℕ) (cs : List ℕ) (args : List Arg) (text : List ℕ)
    : Type 0 where
  pub t : List ℕ
  pub format' : Bool
  pub args' : List Arg
  pub rest : List ℕ
  pub piece : step_text format c args ≡ some (t, format', args')
  pub tail : render format' cs args' ≡ some rest
  pub joined : t ++ rest ≡ text

pub render_cons :
    (format : Bool) (c : ℕ) (cs : List ℕ) (args : List Arg) {text : List ℕ}
    → render format (c ∷ cs) args ≡ some text
    → Splits format c cs args text
unfolding render
render_cons format c cs args {text} e = go (step_text format c args) refl e
  where
    go :
        (p : Option Piece)
        → step_text format c args ≡ p
        → (elim p as (λ x. Option (List ℕ)) [
          | none ↦ none
          | some (t, format', args') ↦ put_before t (render format' cs args')
        ])
          ≡ some text
        → Splits format c cs args text
    go none q e = absurd (cc)
    go (some (t, format', args')) q e =
        let (rest, r, joined) = put_before_inv t (render format' cs args') e in
        record {
          t = t;
          format' = format';
          args' = args';
          rest = rest;
          piece = q;
          tail = r;
          joined = joined;
        }
