-- ===== src/Printf.antt =====
-- Formatted output, `lib_vsnprintf`, `lib_vprintf` and `lib_printf` of 10-SystemCall/src/lib.c.
-- A string is the list of its bytes up to the NUL, a buffer a function of the index. On RV32 `int`,
-- `long` and `size_t` have 32 bits. `none` stands for undefined behaviour: an argument that is
-- missing or of the wrong kind, and `-num` at the least integer.
pub mod Text
pub mod Digits
pub mod Print
pub mod Buffer
pub mod Convert
pub mod Refine
pub mod Send
pub mod Visible
mod Tests
use mini_riscv_os.Common.{
  ℕ, zero, suc, ◌+◌, ◌-◌, ◌*◌, ◌/◌, ◌%◌, ◌^◌, Bool, true, false, ◌&&◌, Option, none, some, List, [],
  ◌∷◌, ltb, leb, ◌==◌, if◌then◌else◌, update, u8, u32, codes,
}
use mini_riscv_os.Console.{Arg, int, str}

-- The local variables of `lib_vsnprintf`, with the buffer behind `out`.
pub record State : Type 0 where
  pub format : Bool
  pub longarg : Bool
  pub pos : ℕ
  pub buf : ℕ → ℕ

-- The cases of the `switch` on the conversion character.
pub data Conversion : Type 0 where
  length_mark pointer hex decimal string char other : Conversion

unfoldable pub conversion : ℕ → Conversion
conversion c =
    if c == b'l'
    then length_mark
    else if c == b'p'
    then pointer
    else if c == b'x'
    then hex
    else if c == b'd'
    then decimal
    else if c == b's'
    then string
    else if c == b'c'
    then char
    else other

unfoldable pub hex_digit : ℕ → ℕ
hex_digit d = if ltb d 10 then b'0' + d else b'a' + d - 10

-- `long digits = 1; for (long nn = num; nn /= 10; digits++);` with fuel for the digits.
unfoldable pub count_digits : ℕ → ℕ → ℕ
count_digits zero nn = 1
count_digits (suc fuel) nn =
    let more : ℕ = count_digits fuel (nn / 10) in if nn / 10 == 0 then 1 else suc more

-- A 32-bit word has ten decimal digits at most.
abbrev pub max_digits : ℕ
max_digits = 10

module _ (out : Bool) (n : ℕ) where
  -- `if (out && i < n) out[i] = c;`
  unfoldable pub store : ℕ → ℕ → (ℕ → ℕ) → ℕ → ℕ
  store i c buf = if out && ltb i n then update buf i c else buf

  unfoldable pub emit : ℕ → State → State
  emit c s = record s { buf = store s.pos c s.buf; pos = u32 (s.pos + 1) }

  -- `for (int i = count - 1; i >= 0; i--)` of the case 'x'.
  unfoldable pub emit_hex : ℕ → ℕ → State → State
  unfolding emit hex_digit
  emit_hex zero num s = s
  emit_hex (suc i) num s = emit_hex i num (emit (hex_digit (num / 2 ^ (4 * i) % 16)) s)

  -- `for (int i = count - 1; i >= 0; i--)` of the case 'd', from `pos` on.
  unfoldable pub store_digits : ℕ → ℕ → ℕ → (ℕ → ℕ) → ℕ → ℕ
  unfolding store
  store_digits zero num pos buf = buf
  store_digits (suc i) num pos buf =
      store_digits i (num / 10) pos (store (u32 (pos + i)) (b'0' + num % 10) buf)

  unfoldable pub emit_magnitude : ℕ → State → State
  unfolding store_digits count_digits
  emit_magnitude num s =
      let digits : ℕ = count_digits max_digits num in
      record s { buf = store_digits digits num s.pos s.buf; pos = u32 (s.pos + digits) }

  -- The case 'd'. A word from 2 ^ 31 on is negative; its negation overflows at 2 ^ 31 itself.
  unfoldable pub emit_decimal : ℕ → State → Option State
  unfolding emit emit_magnitude
  emit_decimal w s =
      if ltb w (2 ^ 31)
      then some (emit_magnitude w s)
      else if w == 2 ^ 31
      then none
      else some (emit_magnitude (2 ^ 32 - w) (emit b'-' s))

  unfoldable pub emit_string : List ℕ → State → State
  unfolding emit
  emit_string [] s = s
  emit_string (c ∷ cs) s = emit_string cs (emit c s)

  -- `longarg = 0; format = 0; break;`
  abbrev pub leave : State → State
  leave s = record s { format = false; longarg = false }

  unfoldable pub leave_with : List Arg → Option State → Option (State × List Arg)
  leave_with args none = none
  leave_with args (some s) = some (leave s, args)

  -- Two digits for each byte of the argument.
  abbrev pub hex_count : State → ℕ
  hex_count s = 2 * (if s.longarg then 4 else 4)

  -- `out[pos] = (char)va_arg(vl, int)`.
  unfoldable pub put_char : List Arg → State → Option (State × List Arg)
  unfolding emit
  put_char (int w ∷ args) s = some (leave (emit (u8 w) s), args)
  put_char args s = none

  -- One conversion; with the state it returns the arguments that are left.
  unfoldable pub convert : Conversion → List Arg → State → Option (State × List Arg)
  unfolding emit_hex emit_decimal emit_string leave_with put_char
  convert length_mark args s = some (record s { longarg = true }, args)
  convert pointer (int w ∷ args) s =
      let s' : State = emit b'x' (emit b'0' (record s { longarg = true })) in
      some (leave (emit_hex (hex_count s') w s'), args)
  convert pointer args s = none
  convert hex (int w ∷ args) s = some (leave (emit_hex (hex_count s) w s), args)
  convert hex args s = none
  convert decimal (int w ∷ args) s = leave_with args (emit_decimal w s)
  convert decimal args s = none
  convert string (str cs ∷ args) s = some (leave (emit_string cs s), args)
  convert string args s = none
  convert char args s =
      if out && ltb s.pos n
      then put_char args s
      else some (leave (record s { pos = u32 (s.pos + 1) }), args)
  convert other args s = some (s, args)

  -- The body of the loop over the format string.
  unfoldable pub step : ℕ → List Arg → State → Option (State × List Arg)
  unfolding convert conversion emit
  step c args s =
      if s.format
      then convert (conversion c) args s
      else if c == b'%'
      then some (record s { format = true }, args)
      else some (emit c s, args)

  unfoldable pub loop : List ℕ → List Arg → State → Option State
  unfolding step
  loop [] args s = some s
  loop (c ∷ cs) args s = elim (step c args s) [ none ↦ none | some (s', args') ↦ loop cs args' s' ]

  -- The NUL at the end.
  unfoldable pub terminate : State → ℕ × (ℕ → ℕ)
  terminate s = (
    s.pos,
    if out && ltb s.pos n
        then update s.buf s.pos 0
        else if out && ltb 0 n
        then update s.buf (n - 1) 0
        else s.buf,
  )

  unfoldable pub lib_vsnprintf : List ℕ → List Arg → (ℕ → ℕ) → Option (ℕ × (ℕ → ℕ))
  unfolding loop terminate
  lib_vsnprintf fmt args buf =
      elim (loop fmt args (record { format = false; longarg = false; pos = 0; buf = buf })) [
        | none ↦ none
        | some s ↦ some (terminate s)
      ]

-- `sizeof(out_buf)`
abbrev pub out_size : ℕ
out_size = 1000

-- `lib_puts`: the bytes up to the first NUL among the `count` from `i` on.
unfoldable pub c_string : ℕ → ℕ → (ℕ → ℕ) → List ℕ
c_string zero i buf = []
c_string (suc count) i buf =
    let rest : List ℕ = c_string count (i + 1) buf in if buf i == 0 then [] else buf i ∷ rest

-- How `lib_vprintf` ends: it has sent a text and returns a length, with the new `out_buf`; or it
-- has sent the message of the overflow, and loops for ever; or its behaviour is undefined.
pub data Printed : Type 0 where
  printed : List ℕ → ℕ → (ℕ → ℕ) → Printed
  overflow : List ℕ → Printed
  undefined : Printed

unfoldable pub print_buffer : ℕ → Option (ℕ × (ℕ → ℕ)) → Printed
unfolding c_string
print_buffer res none = undefined
print_buffer res (some (_, buf)) = printed (c_string out_size 0 buf) res buf

unfoldable pub lib_vprintf : List ℕ → List Arg → (ℕ → ℕ) → Printed
unfolding lib_vsnprintf print_buffer
lib_vprintf fmt args buf = elim (lib_vsnprintf false (2 ^ 32 - 1) fmt args buf) [
  | none ↦ undefined
  | some (res, _) ↦
      if leb out_size (u32 (res + 1))
      then overflow (codes "error: lib_vprintf() output string size overflow\n")
      else print_buffer res (lib_vsnprintf true (u32 (res + 1)) fmt args buf)
]
