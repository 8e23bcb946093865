-- ===== src/Chapters/Input.antt =====
-- The program that reads a line and echoes it, A1-Input/os.c.
pub mod Echo
use mini_riscv_os.Common.{
  ℕ, zero, suc, List, [], ◌∷◌, ◌++◌, ◌==◌, ◌||◌, if◌then◌else◌, bit_and, u8, codes, Run, ok, hang,
  ◌>>=◌,
}
use mini_riscv_os.Uart.{Device, thr, rhr, lsr, lsr_empty_mask, lsr_rx_ready}

module _ (u : Device) where
  open u use {State, read, write}

  unfoldable pub input_putc : ℕ → ℕ → State → Run State
  input_putc zero ch s = hang
  input_putc (suc fuel) ch s =
      let (status, s') = read lsr s in
      let rest : Run State = input_putc fuel ch s' in
      if bit_and status lsr_empty_mask == 0 then rest else ok (write thr (u8 ch) s')

  unfoldable pub input_puts : ℕ → List ℕ → State → Run State
  unfolding input_putc
  input_puts fuel [] s = ok s
  input_puts fuel (c ∷ cs) s =
      let rest : Run State = input_putc fuel c s >>= input_puts fuel cs in
      if c == 0 then ok s else rest

  unfoldable pub input_getc : ℕ → State → Run (ℕ × State)
  input_getc zero s = hang
  input_getc (suc fuel) s =
      let (status, s') = read lsr s in
      let rest : Run (ℕ × State) = input_getc fuel s' in
      if bit_and status lsr_rx_ready == 0 then rest else ok (read rhr s')

  -- The result is what is stored before the final NUL; the code returns its length. `line` is what
  -- has been stored; the code has no bound on it.
  unfoldable pub input_gets : ℕ → ℕ → List ℕ → State → Run (List ℕ × State)
  unfolding input_putc input_getc
  input_gets fuel zero line s = hang
  input_gets fuel (suc rounds) line s = input_getc fuel s >>= λ r. input_putc fuel r.0 r.1 >>= λ s'.
      let rest : Run (List ℕ × State) = input_gets fuel rounds (line ++ r.0 ∷ []) s' in
      if r.0 == b'\n' || r.0 == b'\r' then ok (line, s') else rest

  -- `os_main` up to its endless loop.
  unfoldable pub input_main : ℕ → ℕ → State → Run State
  unfolding input_puts input_gets
  input_main fuel rounds s =
      input_puts fuel (codes "type something:") s >>= input_gets fuel rounds [] >>= λ r.
      input_puts fuel (codes "\r\nyou type:") r.1
      >>= input_puts fuel r.0
      >>= input_puts fuel (codes "\r\n")
