-- ===== src/Uart/Transmit.antt =====
-- What `lib_putc` and `lib_puts` send, to a transmitter that becomes ready in time.
use mini_riscv_os.Common.{
  ℕ, zero, suc, ◌≤◌, ◌<◌, ◌≡◌, refl, ◌∙◌, ap, List, [], ◌∷◌, ◌++◌, ◌==◌, bit_and, u8, ok, arith,
  Bool-cases, inl, inr, map, sym,
}
use mathlib.Core.List.{append-nil, append_assoc}
use mini_riscv_os.Printf.Print.{until_nul}
use mini_riscv_os.Uart.{Device, thr, lsr, lsr_empty_mask, lib_putc, lib_puts}

-- What the driver relies on: `sent` is what has gone out, `busy` bounds how often the status may
-- be read before it shows an empty transmitter.
pub record IsTransmitter (u : Device) (sent : u.State → List ℕ) (busy : u.State → ℕ) (limit : ℕ)
    : Type 0 where
  pub poll : (s : u.State) → sent (u.read lsr s).1 ≡ sent s
  pub waits :
      (s : u.State) → bit_and (u.read lsr s).0 lsr_empty_mask ≡ 0 → busy (u.read lsr s).1 < busy s
  pub bounded : (s : u.State) → busy s ≤ limit
  pub sends : (c : ℕ) (s : u.State) → sent (u.write thr c s) ≡ sent s ++ c ∷ []

module _ {u : Device} {sent : u.State → List ℕ} {busy : u.State → ℕ} {limit : ℕ}
    (t : IsTransmitter u sent busy limit) where
  -- `view` is anything that neither a poll nor a byte that is sent changes.
  putc_within :
      {A : Type 0} (view : u.State → A) (fuel ch : ℕ) (s : u.State)
      → ((s1 : u.State) → view (u.read lsr s1).1 ≡ view s1)
      → ((c : ℕ) (s1 : u.State) → view (u.write thr c s1) ≡ view s1)
      → busy s < fuel
      → (s' : u.State) × (lib_putc u fuel ch s ≡ ok s')
        × (sent s' ≡ sent s ++ u8 ch ∷ [])
        × (view s' ≡ view s)
  unfolding lib_putc
  putc_within view zero ch s polled written h = absurd (omega arith)
  putc_within view (suc fuel) ch s polled written h =
      elim (Bool-cases (bit_and (u.read lsr s).0 lsr_empty_mask == 0)) [
        | inl wait ↦
            let (s', run, e, same) =
              putc_within view fuel ch (u.read lsr s).1 polled written
                (omega (arith, t.waits s (ground arith))) in
            (
              s',
              rw (wait, run),
              e ∙ ap (λ (l : List ℕ). l ++ u8 ch ∷ []) (t.poll s),
              same ∙ polled s,
            )
        | inr ready ↦ (
          u.write thr (u8 ch) (u.read lsr s).1,
          rw ready,
          t.sends (u8 ch) (u.read lsr s).1 ∙ ap (λ (l : List ℕ). l ++ u8 ch ∷ []) (t.poll s),
          written (u8 ch) (u.read lsr s).1 ∙ polled s,
        )
      ]

  -- `lib_putc` returns, and has sent the byte and changed nothing else that can be seen.
  pub lib_putc-keeps :
      {A : Type 0} (view : u.State → A) (fuel ch : ℕ) (s : u.State)
      → ((s1 : u.State) → view (u.read lsr s1).1 ≡ view s1)
      → ((c : ℕ) (s1 : u.State) → view (u.write thr c s1) ≡ view s1)
      → limit < fuel
      → (s' : u.State) × (lib_putc u fuel ch s ≡ ok s')
        × (sent s' ≡ sent s ++ u8 ch ∷ [])
        × (view s' ≡ view s)
  lib_putc-keeps view fuel ch s polled written h =
      putc_within view fuel ch s polled written (omega (arith, t.bounded s))

  -- `lib_putc` returns, and has sent the byte.
  pub lib_putc-sends :
      (fuel ch : ℕ) (s : u.State)
      → limit < fuel
      → (s' : u.State) × (lib_putc u fuel ch s ≡ ok s') × (sent s' ≡ sent s ++ u8 ch ∷ [])
  lib_putc-sends fuel ch s h =
      let (s', run, e, _) =
        lib_putc-keeps {A = Unit {0}} (λ s1. tt) fuel ch s (λ s1. refl) (λ c s1. refl) h in
      (s', run, e)

  -- `lib_puts` returns, and has sent the bytes before the first NUL, each once and in order.
  pub lib_puts-sends :
      (fuel : ℕ) (cs : List ℕ) (s : u.State)
      → limit < fuel
      → (s' : u.State) × (lib_puts u fuel cs s ≡ ok s')
        × (sent s' ≡ sent s ++ map u8 (until_nul cs))
  unfolding lib_puts
  lib_puts-sends fuel [] s h = (s, refl, sym (append-nil (sent s)))
  lib_puts-sends fuel (c ∷ cs) s h = elim (Bool-cases (c == 0)) [
    | inl end ↦ (s, rw end, rw end (sym (append-nil (sent s))))
    | inr more ↦
        let (s1, run1, e1) = lib_putc-sends fuel c s h in
        let (s2, run2, e2) = lib_puts-sends fuel cs s1 h in
        (
          s2,
          rw (more, run1, run2),
          rw more (rw (e2, e1) (append_assoc (sent s) (u8 c ∷ []) (map u8 (until_nul cs)))),
        )
  ]
