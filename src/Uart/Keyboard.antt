-- ===== src/Uart/Keyboard.antt =====
-- A UART to read from: it takes every byte at once, what was typed waits in a queue, and the
-- holding register gives the same byte until the status is read again.
use mini_riscv_os.Common.{
  ℕ, ◌≡◌, ◌≢◌, refl, sym, ap, ◌∙◌, Bool, true, false, List, [], ◌∷◌, ◌++◌, ◌==◌, if◌then◌else◌,
  bit_and, arith,
}
use mini_riscv_os.Uart.{Device, thr, lsr, lsr_empty_mask, lsr_rx_ready}
use mini_riscv_os.Uart.Transmit.{IsTransmitter}
use mini_riscv_os.Uart.Receive.{IsReceiver}

pub record KeyState : Type 0 where
  pub shown : List ℕ
  pub queue : List ℕ
  pub holding : ℕ
  pub polled : Bool

abbrev pub status : List ℕ → ℕ
status [] = 0x40
status (c ∷ cs) = 0x41

abbrev pub first : List ℕ → ℕ
first [] = 0
first (c ∷ cs) = c

abbrev pub others : List ℕ → List ℕ
others [] = []
others (c ∷ cs) = cs

abbrev pub keyboard : Device
keyboard = record {
  State = KeyState;
  read = λ r s.
      if r == lsr
      then (status s.queue, record s { polled = true })
      else if s.polled
      then (
        first s.queue,
        record s { queue = others s.queue; holding = first s.queue; polled = false },
      )
      else (s.holding, s);
  write = λ r v s. if r == thr then record s { shown = s.shown ++ v ∷ [] } else s;
}

abbrev pub typed : List ℕ → KeyState
typed cs = record { shown = []; queue = cs; holding = 0; polled = false }

pub empty_transmitter : (q : List ℕ) → bit_and (status q) lsr_empty_mask ≢ 0
empty_transmitter [] e = omega (arith, e)
empty_transmitter (c ∷ cs) e = omega (arith, e)

pub some_ready :
    (q : List ℕ) (c : ℕ) (cs : List ℕ) → q ≡ c ∷ cs → bit_and (status q) lsr_rx_ready ≢ 0
some_ready q c cs e zero_bit =
    let one : bit_and (status (c ∷ cs)) lsr_rx_ready ≡ 0 =
      ap (λ (x : List ℕ). bit_and (status x) lsr_rx_ready) (sym e) ∙ zero_bit in
    omega (arith, one)

pub keyboard-IsTransmitter : IsTransmitter keyboard (λ s. s.shown) (λ s. 0) 0
keyboard-IsTransmitter = record {
  poll = λ s. refl;
  waits = λ s h. absurd (empty_transmitter s.queue h);
  bounded = λ s. omega arith;
  sends = λ c s. refl;
}

silent_lem : (s : KeyState) → (keyboard.read 0 s).1.shown ≡ s.shown
silent_lem s = go s.polled s refl
  where
    go : (b : Bool) (s : KeyState) → s.polled ≡ b → (keyboard.read 0 s).1.shown ≡ s.shown
    go true s e = rw e refl
    go false s e = rw e refl

pub keyboard-IsReceiver : IsReceiver keyboard (λ s. s.shown) (λ s. s.queue)
keyboard-IsReceiver = record {
  polled = λ s. refl;
  written = λ c s. refl;
  empty = λ s e. ap (λ (q : List ℕ). bit_and (status q) lsr_rx_ready) e;
  ready = λ s c cs e. some_ready s.queue c cs e;
  byte = λ s c cs e. (ap first e, ap others e, ap first e, ap others e);
  silent = silent_lem;
}
