-- ===== src/Uart.antt =====
-- The UART routines of 10-SystemCall/src/lib.c. The device is a parameter: its registers are read
-- and written, and a read may change it. A `while` that polls a register takes fuel; `hang` means
-- that the fuel ran out.
pub mod Transmit
pub mod Receive
pub mod Line
pub mod Keyboard
mod Tests
use mini_riscv_os.Common.{
  ℕ, zero, suc, ◌*◌, ◌^◌, Bool, true, false, Option, none, some, List, [], ◌∷◌, ◌++◌, ◌==◌,
  if◌then◌else◌, bit_and, bit_or, u8, Run, ok, hang, ◌>>=◌,
}

-- A UART: `read` and `write` take the offset of the register.
pub record Device : Type 1 where
  pub State : Type 0
  pub read : ℕ → State → ℕ × State
  pub write : ℕ → ℕ → State → State

-- The offsets of riscv.h; THR, RHR and DLL share one, and so do IER and DLM.
abbrev pub thr : ℕ
thr = 0

abbrev pub rhr : ℕ
rhr = 0

abbrev pub dll : ℕ
dll = 0

abbrev pub dlm : ℕ
dlm = 1

abbrev pub ier : ℕ
ier = 1

abbrev pub lcr : ℕ
lcr = 3

abbrev pub lsr : ℕ
lsr = 5

abbrev pub lsr_empty_mask : ℕ
lsr_empty_mask = 0x40

abbrev pub lsr_rx_ready : ℕ
lsr_rx_ready = 1

module _ (u : Device) where
  open u use {State, read, write}

  unfoldable pub uart_init : State → State
  uart_init s0 =
      let s1 : State = write ier 0x00 s0 in
      let (lcr_value, s2) = read lcr s1 in
      let s3 : State = write lcr (bit_or lcr_value (2 ^ 7)) s2 in
      let s4 : State = write dlm 0x00 (write dll 0x03 s3) in
      let s5 : State = write lcr (bit_or 0 3) s4 in
      let (ier_value, s6) = read ier s5 in write ier (bit_or ier_value 1) s6

  -- The result -1 is `none`.
  unfoldable pub lib_getc : State → Option ℕ × State
  lib_getc s =
      let (status, s1) = read lsr s in
      let (c, s2) = read rhr s1 in
      let (again, s3) = read rhr s2 in
      if bit_and status lsr_rx_ready == 0
      then (none, s1)
      else if c == b'\r'
      then (some b'\n', s2)
      else (some again, s3)

  -- `lib_gets`; the result is what it stores before the final NUL, in order.
  unfoldable pub lib_gets : ℕ → List ℕ → State → Run (List ℕ × State)
  lib_gets zero line s = hang
  lib_gets (suc fuel) line s =
      let (c, s') = lib_getc s in
      elim c [
        | none ↦ lib_gets fuel line s'
        | some ch ↦
            let rest : Run (List ℕ × State) = lib_gets fuel (line ++ ch ∷ []) s' in
            if ch == b'\n' then ok (line, s') else if ch == 0 then ok (line, s') else rest
      ]

  unfoldable pub lib_putc : ℕ → ℕ → State → Run State
  lib_putc zero ch s = hang
  lib_putc (suc fuel) ch s =
      let (status, s') = read lsr s in
      let rest : Run State = lib_putc fuel ch s' in
      if bit_and status lsr_empty_mask == 0 then rest else ok (write thr (u8 ch) s')

  -- The string is given by its bytes, with or without those from its NUL on.
  unfoldable pub lib_puts : ℕ → List ℕ → State → Run State
  lib_puts fuel [] s = ok s
  lib_puts fuel (c ∷ cs) s =
      let rest : Run State = lib_putc fuel c s >>= lib_puts fuel cs in if c == 0 then ok s else rest

  -- `lib_isr`, with fuel for its loop and for each `lib_putc`.
  unfoldable pub lib_isr : ℕ → ℕ → State → Run State
  lib_isr polls zero s = hang
  lib_isr polls (suc fuel) s =
      let (c, s') = lib_getc s in
      elim c [
        | none ↦ ok s'
        | some ch ↦ lib_putc polls ch s' >>= λ s1. lib_putc polls b'\n' s1 >>= lib_isr polls fuel
      ]

-- `lib_delay`: the rounds of the loop, for a count that `count * 50000` does not overflow.
unfoldable pub delay_loop : ℕ → Run ℕ
delay_loop zero = ok 0
delay_loop (suc count) = delay_loop count >>= λ rounds. ok (suc rounds)

unfoldable pub lib_delay : ℕ → Run ℕ
unfolding delay_loop
lib_delay count = delay_loop (count * 50000)
