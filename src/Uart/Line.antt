-- ===== src/Uart/Line.antt =====
-- A UART to try the driver on: it is busy for one read of its status after each byte, and has one
-- byte to receive.
use mini_riscv_os.Common.{ℕ, Bool, true, false, List, [], ◌∷◌, ◌++◌, ◌==◌, if◌then◌else◌}
use mini_riscv_os.Uart.{Device, thr, lsr}

pub record LineState : Type 0 where
  pub sent : List ℕ
  pub busy : Bool
  pub received : Bool

abbrev pub line : Device
line = record {
  State = LineState;
  read = λ r s.
      if r == lsr
      then ((if s.busy then 0 else 0x40), record s { busy = false })
      else (if s.received then 0 else b'x', record s { received = true });
  write = λ r v s. if r == thr then record s { sent = s.sent ++ v ∷ []; busy = true } else s;
}

abbrev pub idle : LineState
idle = record { sent = []; busy = false; received = false }
