-- ===== src/Chapters/Hello.antt =====
-- The program of the first chapter, 01-HelloOs/os.c.
use mini_riscv_os.Common.{
  ℕ, zero, suc, ◌<◌, ◌≡◌, refl, ◌∙◌, List, [], ◌∷◌, ◌++◌, ◌==◌, if◌then◌else◌, bit_and, u8, codes,
  ap, fun_ext, Run, ok, hang, ◌>>=◌,
}
use mini_riscv_os.Uart.{Device, thr, lsr, lsr_empty_mask, lib_putc, lib_puts}
use mini_riscv_os.Uart.Transmit.{IsTransmitter, lib_puts-sends}

module _ (u : Device) where
  open u use {State, read, write}

  unfoldable pub hello_putc : ℕ → ℕ → State → Run State
  hello_putc zero ch s = hang
  hello_putc (suc fuel) ch s =
      let (status, s') = read lsr s in
      let rest : Run State = hello_putc fuel ch s' in
      if bit_and status lsr_empty_mask == 0 then rest else ok (write thr (u8 ch) s')

  unfoldable pub hello_puts : ℕ → List ℕ → State → Run State
  unfolding hello_putc
  hello_puts fuel [] s = ok s
  hello_puts fuel (c ∷ cs) s =
      let rest : Run State = hello_putc fuel c s >>= hello_puts fuel cs in
      if c == 0 then ok s else rest

  -- `os_main` up to its endless loop.
  unfoldable pub hello_main : ℕ → State → Run State
  unfolding hello_puts
  hello_main fuel s = hello_puts fuel (codes "Hello OS!\n") s

-- The routines are those of lib.c.
hello_putc-lib_putc :
    (u : Device) (fuel ch : ℕ) (s : u.State) → hello_putc u fuel ch s ≡ lib_putc u fuel ch s
unfolding hello_putc lib_putc
hello_putc-lib_putc u zero ch s = refl
hello_putc-lib_putc u (suc fuel) ch s = rw (hello_putc-lib_putc u fuel ch (u.read lsr s).1) refl

hello_puts-lib_puts :
    (u : Device) (fuel : ℕ) (cs : List ℕ) (s : u.State)
    → hello_puts u fuel cs s ≡ lib_puts u fuel cs s
unfolding hello_puts lib_puts
hello_puts-lib_puts u fuel [] s = refl
hello_puts-lib_puts u fuel (c ∷ cs) s =
    ap (λ (r : Run u.State). if c == 0 then ok s else (r >>= hello_puts u fuel cs))
      (hello_putc-lib_putc u fuel c s)
    ∙ ap (λ (f : u.State → Run u.State). if c == 0 then ok s else (lib_putc u fuel c s >>= f))
        (fun_ext (hello_puts-lib_puts u fuel cs))

-- The program sends its line and no more, to a transmitter that becomes ready in time.
pub hello_main_lem :
    {u : Device} {sent : u.State → List ℕ} {busy : u.State → ℕ} {limit : ℕ} (fuel : ℕ) (s : u.State)
    → IsTransmitter u sent busy limit
    → limit < fuel
    → (s' : u.State) × (hello_main u fuel s ≡ ok s') × (sent s' ≡ sent s ++ codes "Hello OS!\n")
unfolding hello_main
hello_main_lem {u} fuel s t enough =
    let (s', run, e) = lib_puts-sends t fuel (codes "Hello OS!\n") s enough in
    (s', hello_puts-lib_puts u fuel (codes "Hello OS!\n") s ∙ run, e)
