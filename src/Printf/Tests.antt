-- ===== src/Printf/Tests.antt =====
-- Formatted output of short texts.
use mini_riscv_os.Common.{ℕ, ◌-◌, ◌^◌, ◌≡◌, refl, true, false, some, List, [], ◌∷◌, arith, codes}
use mini_riscv_os.Console.{Arg, int, str}
use mini_riscv_os.Printf.{count_digits, lib_vsnprintf, conversion, hex_digit}
use mini_riscv_os.Printf.Text.{
  render, step_text, put_before, hex_text, digits_text, convert_text, decimal_text, closed,
}
use mini_riscv_os.Printf.Refine.{filled, lib_vsnprintf-filled}

abbrev fmt : List ℕ
fmt = codes "n=%d, %s at %x\n"

abbrev args : List Arg
args = int (2 ^ 32 - 42) ∷ str (codes "page") ∷ int 0x8000a0 ∷ []

abbrev text : List ℕ
text = codes "n=-42, page at 008000a0\n"

text_lem : render false fmt args ≡ some text
unfolding render step_text put_before convert_text decimal_text closed hex_text digits_text
    count_digits conversion hex_digit
text_lem = refl

abbrev empty : ℕ → ℕ
empty i = 0

lib_vsnprintf-filled_example :
    (buf' : ℕ → ℕ) × (lib_vsnprintf true 10 fmt args empty ≡ some (24, buf'))
    × ((j : ℕ) → buf' j ≡ filled 10 text empty j)
lib_vsnprintf-filled_example = lib_vsnprintf-filled 10 fmt args empty text_lem (omega arith)
