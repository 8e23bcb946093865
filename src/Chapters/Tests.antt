-- ===== src/Chapters/Tests.antt =====
-- The earlier handlers on hart 0.
use mini_riscv_os.Common.{◌≡◌, refl, ap, [], ◌∷◌, ◌++◌, ok, codes, arith}
use mini_riscv_os.Console.{puts}
use mini_riscv_os.Chapters.Input.{input_main}
use mini_riscv_os.Chapters.Input.Echo.{IsLine, input_main_lem}
use mini_riscv_os.Uart.Keyboard.{
  KeyState, keyboard, typed, first, others, some_ready, keyboard-IsTransmitter, keyboard-IsReceiver,
}
use mini_riscv_os.Trap.Sample.{machine}
use mini_riscv_os.Chapters.Ticks.{ticking_main, ticks, tick_lines, Ticked, ticking_lem}

keyboard-IsLine : IsLine keyboard (λ s. s.shown) (λ s. s.queue) (λ s. 0) (λ s. 0) 0
keyboard-IsLine = record {
  transmitter = keyboard-IsTransmitter;
  polled = keyboard-IsReceiver.polled;
  kept = keyboard-IsReceiver.written;
  arrives = λ s c cs e h. absurd (some_ready s.queue c cs e h);
  patient = λ s. omega arith;
  byte = λ s c cs e h. ap first e;
  taken = λ s c cs e h. ap others e;
  silent = keyboard-IsReceiver.silent;
}

abbrev hi : KeyState
hi = typed (b'h' ∷ b'i' ∷ b'\r' ∷ b'x' ∷ [])

input_main_lem_example :
    (s' : KeyState) × (input_main keyboard 1 100 hi ≡ ok s')
    × (s'.shown
        ≡ codes "type something:"
          ++ (b'h' ∷ b'i' ∷ b'\r' ∷ [])
          ++ codes "\r\nyou type:"
          ++ (b'h' ∷ b'i' ∷ [])
          ++ codes "\r\n")
    × (s'.queue ≡ b'x' ∷ [])
input_main_lem_example =
    input_main_lem keyboard-IsLine 1 (omega arith) b'\r' (b'h' ∷ b'i' ∷ []) (b'x' ∷ []) hi refl
      (refl, (refl, tt)) refl (omega arith)

-- Interrupts at three times of the clock.
ticking_lem_example :
    Ticked
      (machine 0)
      (puts "OS start\n" ∷ tick_lines 6 3)
      3
      30005000
      (ticks 0x80000100 (10001000 ∷ 20003000 ∷ 30005000 ∷ []) (ticking_main 0x80000200 (machine 0)))
ticking_lem_example =
    ticking_lem 0x80000200 0x80000100 (10001000 ∷ 20003000 ∷ 30005000 ∷ []) (machine 0)
      (omega arith)
