-- ===== src/Chapters/Input/Echo.antt =====
-- What the program of A1-Input/os.c reads and sends.
use mini_riscv_os.Common.{
  ℕ, zero, suc, ◌<◌, ◌≤◌, ◌≡◌, ◌≢◌, refl, sym, ap, ◌∙◌, List, [], ◌∷◌, ◌++◌, ◌==◌, ◌||◌, Bool, true,
  false, bit_and, u8, ok, arith, Bool-cases, inl, inr, map, codes, length, eq→==,
}
use mathlib.Core.List.{append-nil, append_assoc}
use mini_riscv_os.Printf.Print.{until_nul}
use mini_riscv_os.Uart.{Device, lib_putc, thr, rhr, lsr, lsr_rx_ready}
use mini_riscv_os.Uart.Transmit.{IsTransmitter, lib_putc-keeps}
use mini_riscv_os.Chapters.Input.{input_putc, input_puts, input_getc, input_gets, input_main}

-- What the program relies on: a transmitter, and a receiver whose `pending` bytes come one by one
-- from RHR. `quiet` bounds how often the status may be read before it shows the next of them.
pub record IsLine (u : Device) (sent pending : u.State → List ℕ) (busy quiet : u.State → ℕ)
    (limit : ℕ) : Type 0 where
  pub transmitter : IsTransmitter u sent busy limit
  pub polled : (s : u.State) → pending (u.read lsr s).1 ≡ pending s
  pub kept : (c : ℕ) (s : u.State) → pending (u.write thr c s) ≡ pending s
  pub arrives :
      (s : u.State) (c : ℕ) (cs : List ℕ)
      → pending s ≡ c ∷ cs
      → bit_and (u.read lsr s).0 lsr_rx_ready ≡ 0
      → quiet (u.read lsr s).1 < quiet s
  pub patient : (s : u.State) → quiet s ≤ limit
  pub byte :
      (s : u.State) (c : ℕ) (cs : List ℕ)
      → pending s ≡ c ∷ cs
      → bit_and (u.read lsr s).0 lsr_rx_ready ≢ 0
      → (u.read rhr (u.read lsr s).1).0 ≡ c
  pub taken :
      (s : u.State) (c : ℕ) (cs : List ℕ)
      → pending s ≡ c ∷ cs
      → bit_and (u.read lsr s).0 lsr_rx_ready ≢ 0
      → pending (u.read rhr (u.read lsr s).1).1 ≡ cs
  pub silent : (s : u.State) → sent (u.read rhr s).1 ≡ sent s

-- Whether a byte ends the line.
abbrev pub ends_line : ℕ → Bool
ends_line c = c == b'\n' || c == b'\r'

abbrev pub InLine : List ℕ → Type 0
InLine [] = Unit {0}
InLine (c ∷ cs) = (ends_line c ≡ false) × InLine cs

module _ {u : Device} {sent pending : u.State → List ℕ} {busy quiet : u.State → ℕ} {limit : ℕ}
    (l : IsLine u sent pending busy quiet limit) (fuel : ℕ) (enough : limit < fuel) where
  -- `s'` has sent `bytes` since `s`, and `rest` is yet to be read.
  record Went (s : u.State) (bytes rest : List ℕ) (s' : u.State) : Type 0 where
    out : sent s' ≡ sent s ++ bytes
    in_wait : pending s' ≡ rest

  -- The routine is that of lib.c.
  input_putc-lib_putc : (n ch : ℕ) (s : u.State) → input_putc u n ch s ≡ lib_putc u n ch s
  unfolding input_putc lib_putc
  input_putc-lib_putc zero ch s = refl
  input_putc-lib_putc (suc n) ch s = rw (input_putc-lib_putc n ch (u.read lsr s).1) refl

  input_putc_lem :
      (ch : ℕ) (s : u.State)
      → (s' : u.State) × (input_putc u fuel ch s ≡ ok s') × Went s (u8 ch ∷ []) (pending s) s'
  input_putc_lem ch s =
      let (s', run, e, same) =
        lib_putc-keeps l.transmitter pending fuel ch s l.polled l.kept enough in
      (s', input_putc-lib_putc fuel ch s ∙ run, record { out = e; in_wait = same })

  Went-append :
      {s1 s2 s3 : u.State} {a b r q : List ℕ}
      → Went s1 a r s2
      → Went s2 b q s3
      → Went s1 (a ++ b) q s3
  Went-append {s1} {a} {b} v w = record {
    out = w.out ∙ ap (λ (x : List ℕ). x ++ b) v.out ∙ append_assoc (sent s1) a b;
    in_wait = w.in_wait;
  }

  input_puts_lem :
      (cs : List ℕ) (s : u.State)
      → (s' : u.State) × (input_puts u fuel cs s ≡ ok s')
        × Went s (map u8 (until_nul cs)) (pending s) s'
  unfolding input_puts
  input_puts_lem [] s = (s, refl, record { out = sym (append-nil (sent s)); in_wait = refl })
  input_puts_lem (c ∷ cs) s = elim (Bool-cases (c == 0)) [
    | inl end ↦ (s, rw end, rw end (record { out = sym (append-nil (sent s)); in_wait = refl }))
    | inr more ↦
        let (s1, run1, w1) = input_putc_lem c s in
        let (s2, run2, w2) = input_puts_lem cs s1 in
        (s2, rw (more, run1, run2), rw (more, sym w1.in_wait) (Went-append w1 w2))
  ]

  getc_within :
      (n c : ℕ) (cs : List ℕ) (s : u.State)
      → quiet s < n
      → pending s ≡ c ∷ cs
      → (s' : u.State) × (input_getc u n s ≡ ok (c, s')) × Went s [] cs s'
  unfolding input_getc
  getc_within zero c cs s h p = absurd (omega arith)
  getc_within (suc n) c cs s h p = elim (Bool-cases (bit_and (u.read lsr s).0 lsr_rx_ready == 0)) [
    | inl wait ↦
        let (s', run, w) =
          getc_within n c cs (u.read lsr s).1 (omega (arith, l.arrives s c cs p (ground arith)))
            (l.polled s ∙ p) in
        (
          s',
          rw (wait, run),
          record {
            out = w.out ∙ ap (λ (x : List ℕ). x ++ []) (l.transmitter.poll s);
            in_wait = w.in_wait;
          },
        )
    | inr ready ↦
        let some_byte : bit_and (u.read lsr s).0 lsr_rx_ready ≢ 0 =
          λ h. let same = eq→== (bit_and (u.read lsr s).0 lsr_rx_ready) 0 h in cc in
        (
          (u.read rhr (u.read lsr s).1).1,
          rw ready
              (ap (λ (x : ℕ). ok (x, (u.read rhr (u.read lsr s).1).1)) (l.byte s c cs p some_byte)),
          record {
            out = l.silent (u.read lsr s).1 ∙ l.transmitter.poll s ∙ sym (append-nil (sent s));
            in_wait = l.taken s c cs p some_byte;
          },
        )
  ]

  input_getc_lem :
      (c : ℕ) (cs : List ℕ) (s : u.State)
      → pending s ≡ c ∷ cs
      → (s' : u.State) × (input_getc u fuel s ≡ ok (c, s')) × Went s [] cs s'
  input_getc_lem c cs s p = getc_within fuel c cs s (omega (arith, l.patient s)) p

  -- One byte is read and echoed.
  echo_lem :
      (c : ℕ) (cs : List ℕ) (s : u.State)
      → pending s ≡ c ∷ cs
      → (s1 : u.State) × (s2 : u.State) × (input_getc u fuel s ≡ ok (c, s1))
        × (input_putc u fuel c s1 ≡ ok s2)
        × Went s (u8 c ∷ []) cs s2
  echo_lem c cs s p =
      let (s1, run1, w1) = input_getc_lem c cs s p in
      let (s2, run2, w2) = input_putc_lem c s1 in
      let w = Went-append w1 w2 in
      (s1, s2, run1, run2, record { out = w.out; in_wait = w.in_wait ∙ w1.in_wait })

  input_gets_lem :
      (rounds e : ℕ) (line stored rest : List ℕ) (s : u.State)
      → pending s ≡ line ++ e ∷ rest
      → InLine line
      → ends_line e ≡ true
      → length line < rounds
      → (s' : u.State) × (input_gets u fuel rounds stored s ≡ ok (stored ++ line, s'))
        × Went s (map u8 (line ++ e ∷ [])) rest s'
  unfolding input_gets
  input_gets_lem zero e line stored rest s p inside end h = absurd (omega arith)
  input_gets_lem (suc rounds) e [] stored rest s p inside end h =
      let (s1, s2, run1, run2, w) = echo_lem e rest s p in
      (s2, rw (run1, run2, end) (ap (λ (x : List ℕ). ok (x, s2)) (sym (append-nil stored))), w)
  input_gets_lem (suc rounds) e (c ∷ line) stored rest s p inside end h =
      let (s1, s2, run1, run2, w) = echo_lem c (line ++ e ∷ rest) s p in
      let (s3, run3, w3) =
        input_gets_lem rounds e line (stored ++ c ∷ []) rest s2 w.in_wait inside.1 end
          (omega arith) in
      (
        s3,
        rw (run1, run2, inside.0, run3)
            (ap (λ (x : List ℕ). ok (x, s3)) (append_assoc stored (c ∷ []) line)),
        Went-append w w3,
      )

  -- When a line of fewer than 100 bytes and a line end wait at the receiver, the program returns
  -- from its calls: it has asked for a line, echoed every byte with the line end, and sent the line
  -- again, up to its first NUL; and what waited behind the line waits still.
  pub input_main_lem :
      (e : ℕ) (line rest : List ℕ) (s : u.State)
      → pending s ≡ line ++ e ∷ rest
      → InLine line
      → ends_line e ≡ true
      → length line < 100
      → (s' : u.State) × (input_main u fuel 100 s ≡ ok s')
        × (sent s'
            ≡ sent s
              ++ (codes "type something:"
                  ++ (map u8 (line ++ e ∷ [])
                      ++ (codes "\r\nyou type:" ++ (map u8 (until_nul line) ++ codes "\r\n")))))
        × (pending s' ≡ rest)
  unfolding input_main
  input_main_lem e line rest s p inside end h =
      let (s1, run1, w1) = input_puts_lem (codes "type something:") s in
      let (s2, run2, w2) = input_gets_lem 100 e line [] rest s1 (w1.in_wait ∙ p) inside end h in
      let (s3, run3, w3) = input_puts_lem (codes "\r\nyou type:") s2 in
      let (s4, run4, w4) = input_puts_lem line s3 in
      let (s5, run5, w5) = input_puts_lem (codes "\r\n") s4 in
      let w = Went-append w1 (Went-append w2 (Went-append w3 (Went-append w4 w5))) in
      (
        s5,
        rw (run1, run2, run3, run4, run5),
        w.out,
        w.in_wait ∙ w4.in_wait ∙ w3.in_wait ∙ w2.in_wait,
      )
