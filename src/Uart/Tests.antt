-- ===== src/Uart/Tests.antt =====
-- The UART routines on a line that is busy for one poll after each byte.
use mini_riscv_os.Common.{
  ℕ, ◌<◌, ◌≤◌, ◌≡◌, refl, Bool, true, false, [], ◌∷◌, if◌then◌else◌, bit_and, ok, arith,
}
use mini_riscv_os.Uart.{lsr_empty_mask, lib_putc}
use mini_riscv_os.Uart.Line.{LineState, line, idle}
use mini_riscv_os.Uart.Transmit.{IsTransmitter, lib_putc-sends}

abbrev busy_bound : LineState → ℕ
busy_bound s = if s.busy then 1 else 0

busy_before :
    (b : Bool) → bit_and (if b then 0 else 0x40) lsr_empty_mask ≡ 0 → 0 < (if b then 1 else 0)
busy_before true h = omega arith
busy_before false h = absurd (omega arith)

busy_at_most : (b : Bool) → (if b then 1 else 0) ≤ 1
busy_at_most true = omega arith
busy_at_most false = omega arith

line-IsTransmitter : IsTransmitter line (λ s. s.sent) busy_bound 1
line-IsTransmitter = record {
  poll = λ s. refl;
  waits = λ s h. busy_before s.busy h;
  bounded = λ s. busy_at_most s.busy;
  sends = λ c s. refl;
}

lib_putc-sends_example :
    (s' : LineState) × (lib_putc line 2 b'a' idle ≡ ok s') × (s'.sent ≡ b'a' ∷ [])
lib_putc-sends_example = lib_putc-sends line-IsTransmitter 2 b'a' idle (omega arith)
