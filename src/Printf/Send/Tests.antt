-- ===== src/Printf/Send/Tests.antt =====
-- Formats and calls that go out on the keyboard's screen.
use mini_riscv_os.Common.{
  ℕ, zero, suc, ◌-◌, ◌^◌, ◌≡◌, refl, false, some, List, [], ◌∷◌, ◌++◌, map, arith, codes, u8,
}
use mini_riscv_os.Console.{Call, puts, printf, Arg, int, str}
use mini_riscv_os.Printf.{count_digits, conversion}
use mini_riscv_os.Printf.Text.{
  render, step_text, put_before, digits_text, convert_text, decimal_text, closed,
}
use mini_riscv_os.Printf.Print.{until_nul}
use mini_riscv_os.Printf.Send.{
  lib_printf, returned, looping, make_calls, of_puts, of_printf, AreSent, done, next,
  lib_printf-sends, lib_printf-loops, make_calls-sends,
}
use mini_riscv_os.Uart.Keyboard.{KeyState, keyboard, typed, keyboard-IsTransmitter}

abbrev empty : ℕ → ℕ
empty i = 0

abbrev fmt : List ℕ
fmt = codes "hart %d: %s\n"

abbrev args : List Arg
args = int (2 ^ 32 - 7) ∷ str (codes "ok") ∷ []

text_lem : render false fmt args ≡ some (codes "hart -7: ok\n")
unfolding render step_text put_before convert_text decimal_text closed digits_text count_digits
    conversion
text_lem = refl

lib_printf-sends_example :
    (buf' : ℕ → ℕ) × (s' : KeyState) × (lib_printf keyboard 1 fmt args empty (typed [])
      ≡ returned 12 buf' s')
    × (s'.shown ≡ map u8 (until_nul (codes "hart -7: ok\n")))
lib_printf-sends_example =
    lib_printf-sends keyboard-IsTransmitter 1 (omega arith) fmt args empty (typed []) text_lem
      (omega arith)

-- `n` letters.
abbrev letters : ℕ → List ℕ
letters zero = []
letters (suc n) = b'a' ∷ letters n

abbrev long : List Arg
long = str (letters 1000) ∷ []

long_lem : render false (codes "%s") long ≡ some (letters 1000)
unfolding render step_text put_before convert_text conversion
long_lem = refl

lib_printf-loops_example :
    (s' : KeyState) × (lib_printf keyboard 1 (codes "%s") long empty (typed []) ≡ looping s')
    × (s'.shown ≡ map u8 (codes "error: lib_vprintf() output string size overflow\n"))
lib_printf-loops_example =
    lib_printf-loops keyboard-IsTransmitter 1 (omega arith) (codes "%s") long empty (typed [])
      long_lem (omega arith) (omega arith)

abbrev calls : List Call
calls = puts "OS start\n" ∷ printf "hart %d: %s\n" args ∷ []

calls-AreSent :
    AreSent calls (until_nul (codes "OS start\n") ++ (until_nul (codes "hart -7: ok\n") ++ []))
calls-AreSent =
    next (of_puts "OS start\n")
      (next (of_printf "hart %d: %s\n" args (codes "hart -7: ok\n") text_lem (omega arith)) done)

make_calls-sends_example :
    (buf' : ℕ → ℕ) × (s' : KeyState) × (make_calls keyboard 1 calls empty (typed [])
      ≡ returned 0 buf' s')
    × (s'.shown ≡ map u8 (codes "OS start\nhart -7: ok\n"))
make_calls-sends_example =
    make_calls-sends keyboard-IsTransmitter 1 (omega arith) empty (typed []) calls-AreSent
