-- ===== src/Uart/Receive.antt =====
-- What `lib_isr` and `lib_gets` make of the bytes that come in, one at a time in the receiver's
-- holding register.
use mini_riscv_os.Common.{
  ℕ, zero, suc, ◌<◌, ◌≡◌, ◌≢◌, refl, sym, ap, ◌∙◌, Run, Option, none, some, List, [], ◌∷◌, ◌++◌,
  ◌==◌, if◌then◌else◌, Bool, false, bit_and, u8, ok, arith, Bool-cases, inl, inr, length, map,
  eq→==, ne→==, ◌>>=◌, ◌||◌, true,
}
use mathlib.Core.List.{append-nil, append_assoc}
use mini_riscv_os.Uart.{Device, thr, rhr, lsr, lsr_rx_ready, lib_putc, lib_getc, lib_gets, lib_isr}
use mini_riscv_os.Uart.Transmit.{IsTransmitter, lib_putc-keeps}

-- What the driver relies on: the status shows whether a byte is there, a read of RHR gives the
-- first of the `pending` bytes and gives it again until the status is read next.
pub record IsReceiver (u : Device) (sent pending : u.State → List ℕ) : Type 0 where
  pub polled : (s : u.State) → pending (u.read lsr s).1 ≡ pending s
  pub written : (c : ℕ) (s : u.State) → pending (u.write thr c s) ≡ pending s
  pub empty : (s : u.State) → pending s ≡ [] → bit_and (u.read lsr s).0 lsr_rx_ready ≡ 0
  pub ready :
      (s : u.State) (c : ℕ) (cs : List ℕ)
      → pending s ≡ c ∷ cs
      → bit_and (u.read lsr s).0 lsr_rx_ready ≢ 0
  pub byte :
      (s : u.State) (c : ℕ) (cs : List ℕ)
      → pending s ≡ c ∷ cs
      → let s1 = (u.read lsr s).1 in
        ((u.read rhr s1).0 ≡ c)
        × (pending (u.read rhr s1).1 ≡ cs)
        × ((u.read rhr (u.read rhr s1).1).0 ≡ c)
        × (pending (u.read rhr (u.read rhr s1).1).1 ≡ cs)
  pub silent : (s : u.State) → sent (u.read rhr s).1 ≡ sent s

-- A carriage return is read as a line feed.
abbrev pub read_as : ℕ → ℕ
read_as c = if c == b'\r' then b'\n' else c

-- Every byte is sent back, each with a line feed.
abbrev pub echo : List ℕ → List ℕ
echo [] = []
echo (c ∷ cs) = u8 (read_as c) ∷ u8 b'\n' ∷ echo cs

-- Whether `lib_gets` stops at the byte: at a line end or at NUL.
abbrev pub stops_gets : ℕ → Bool
stops_gets c = read_as c == b'\n' || read_as c == 0

abbrev pub InLine : List ℕ → Type 0
InLine [] = Unit {0}
InLine (c ∷ cs) = (stops_gets c ≡ false) × InLine cs

-- Two tests with the same outcome are one.
either_test :
    {A : Type 0} (x y : Bool) (a b : A)
    → (if x then a else if y then a else b) ≡ (if x || y then a else b)
either_test true y a b = refl
either_test false y a b = refl

module _ {u : Device} {sent pending : u.State → List ℕ} {busy : u.State → ℕ} {limit : ℕ}
    (t : IsTransmitter u sent busy limit) (r : IsReceiver u sent pending) where
  -- With nothing there, `lib_getc` returns -1.
  lib_getc-none :
      (s : u.State)
      → pending s ≡ []
      → (s' : u.State) × (lib_getc u s ≡ (none, s')) × (sent s' ≡ sent s) × (pending s' ≡ [])
  unfolding lib_getc
  lib_getc-none s e =
      let nothing = eq→== _ 0 (r.empty s e) in
      ((u.read lsr s).1, rw nothing refl, t.poll s, r.polled s ∙ e)

  -- `lib_getc` takes the first byte.
  lib_getc-some :
      (s : u.State) (c : ℕ) (cs : List ℕ)
      → pending s ≡ c ∷ cs
      → (s' : u.State) × (lib_getc u s ≡ (some (read_as c), s'))
        × (sent s' ≡ sent s)
        × (pending s' ≡ cs)
  unfolding lib_getc
  lib_getc-some s c cs e =
      let something = ne→== _ 0 (r.ready s c cs e) in
      let (first, left, again, left_again) = r.byte s c cs e in
      elim (Bool-cases (c == b'\r')) [
        | inl cr ↦ (
          (u.read rhr (u.read lsr s).1).1,
          rw (something, first, cr) refl,
          r.silent (u.read lsr s).1 ∙ t.poll s,
          left,
        )
        | inr other ↦ (
          (u.read rhr (u.read rhr (u.read lsr s).1).1).1,
          rw (something, first, again, other) refl,
          r.silent (u.read rhr (u.read lsr s).1).1 ∙ r.silent (u.read lsr s).1 ∙ t.poll s,
          left_again,
        )
      ]

  -- A turn of the loop, by what `lib_getc` gives.
  abbrev isr_turn : (polls fuel : ℕ) → Option ℕ × u.State → Run u.State
  isr_turn polls fuel got = elim got.0 [
    | none ↦ ok got.1
    | some ch ↦
        lib_putc u polls ch got.1 >>= λ s1. lib_putc u polls b'\n' s1 >>= lib_isr u polls fuel
  ]

  -- `lib_isr` returns once it has read every byte that has come, and has sent each back with a line
  -- feed, in order.
  pub lib_isr-echoes :
      (polls fuel : ℕ) (cs : List ℕ) (s : u.State)
      → limit < polls
      → length cs < fuel
      → pending s ≡ cs
      → (s' : u.State) × (lib_isr u polls fuel s ≡ ok s')
        × (sent s' ≡ sent s ++ echo cs)
        × (pending s' ≡ [])
  unfolding lib_isr
  lib_isr-echoes polls zero cs s h lt e = absurd (omega arith)
  lib_isr-echoes polls (suc fuel) [] s h lt e =
      let (s', run, quiet, none_left) = lib_getc-none s e in
      (s', ap (isr_turn polls fuel) run, quiet ∙ sym (append-nil (sent s)), none_left)
  lib_isr-echoes polls (suc fuel) (c ∷ cs) s h lt e =
      let (s1, run1, quiet, left) = lib_getc-some s c cs e in
      let (s2, run2, out2, same2) =
        lib_putc-keeps t pending polls (read_as c) s1 r.polled r.written h in
      let (s3, run3, out3, same3) = lib_putc-keeps t pending polls b'\n' s2 r.polled r.written h in
      let (s4, run4, out4, none_left) =
        lib_isr-echoes polls fuel cs s3 h (omega arith) (same3 ∙ same2 ∙ left) in
      (
        s4,
        ap (isr_turn polls fuel) run1 ∙ rw (run2, run3, run4) refl,
        out4
            ∙ ap (λ (x : List ℕ). x ++ echo cs)
                (out3
                  ∙ ap (λ (x : List ℕ). x ++ u8 b'\n' ∷ [])
                      (out2 ∙ ap (λ (x : List ℕ). x ++ u8 (read_as c) ∷ []) quiet))
            ∙ append_assoc (sent s ++ u8 (read_as c) ∷ []) (u8 b'\n' ∷ []) (echo cs)
            ∙ append_assoc (sent s) (u8 (read_as c) ∷ []) (u8 b'\n' ∷ echo cs),
        none_left,
      )

  abbrev gets_turn : (fuel : ℕ) → List ℕ → Option ℕ × u.State → Run (List ℕ × u.State)
  gets_turn fuel line got = elim got.0 [
    | none ↦ lib_gets u fuel line got.1
    | some ch ↦
        let rest : Run (List ℕ × u.State) = lib_gets u fuel (line ++ ch ∷ []) got.1 in
        if ch == b'\n' then ok (line, got.1) else if ch == 0 then ok (line, got.1) else rest
  ]

  gets_stops :
      (fuel c : ℕ) (line : List ℕ) (s : u.State)
      → stops_gets c ≡ true
      → gets_turn fuel line (some (read_as c), s) ≡ ok (line, s)
  gets_stops fuel c line s h =
      either_test (read_as c == b'\n') (read_as c == 0) (ok (line, s)) _
      ∙ ap (λ (x : Bool). if x then ok (line, s) else lib_gets u fuel (line ++ read_as c ∷ []) s) h

  gets_goes_on :
      (fuel c : ℕ) (line : List ℕ) (s : u.State)
      → stops_gets c ≡ false
      → gets_turn fuel line (some (read_as c), s) ≡ lib_gets u fuel (line ++ read_as c ∷ []) s
  gets_goes_on fuel c line s h =
      either_test (read_as c == b'\n') (read_as c == 0) (ok (line, s)) _
      ∙ ap (λ (x : Bool). if x then ok (line, s) else lib_gets u fuel (line ++ read_as c ∷ []) s) h

  -- When a line and its end have come, `lib_gets` returns: it has stored the bytes of the line, a
  -- carriage return as a line feed, and has taken the end; what came behind it is still there.
  pub lib_gets-reads :
      (fuel e : ℕ) (line stored rest : List ℕ) (s : u.State)
      → pending s ≡ line ++ e ∷ rest
      → InLine line
      → stops_gets e ≡ true
      → length line < fuel
      → (s' : u.State) × (lib_gets u fuel stored s ≡ ok (stored ++ map read_as line, s'))
        × (sent s' ≡ sent s)
        × (pending s' ≡ rest)
  unfolding lib_gets
  lib_gets-reads zero e line stored rest s p inside end h = absurd (omega arith)
  lib_gets-reads (suc fuel) e [] stored rest s p inside end h =
      let (s1, run, quiet, left) = lib_getc-some s e rest p in
      (
        s1,
        ap (gets_turn fuel stored) run
            ∙ gets_stops fuel e stored s1 end
            ∙ ap (λ (l : List ℕ). ok (l, s1)) (sym (append-nil stored)),
        quiet,
        left,
      )
  lib_gets-reads (suc fuel) e (c ∷ line) stored rest s p inside end h =
      let (s1, run, quiet, left) = lib_getc-some s c (line ++ e ∷ rest) p in
      let (s2, run2, quiet2, left2) =
        lib_gets-reads fuel e line (stored ++ read_as c ∷ []) rest s1 left inside.1 end
          (omega arith) in
      (
        s2,
        ap (gets_turn fuel stored) run
            ∙ gets_goes_on fuel c stored s1 inside.0
            ∙ run2
            ∙ ap (λ (l : List ℕ). ok (l, s2))
                (append_assoc stored (read_as c ∷ []) (map read_as line)),
        quiet2 ∙ quiet,
        left2,
      )
