-- ===== src/Trap/Tests.antt =====
-- Traps of a machine whose block device has one completion to report.
use mini_riscv_os.Common.{ℕ, ◌≡◌, refl, [], ◌∷◌, bit_and, ok, arith}
use mini_riscv_os.Console.{puts}
use mini_riscv_os.Uart.Keyboard.{keyboard, typed, keyboard-IsTransmitter, keyboard-IsReceiver}
use mini_riscv_os.Uart.Line.{line, idle}
use mini_riscv_os.Virtio.Request.{interrupt_ack}
use mini_riscv_os.Virtio.Isr.{CaughtUp, backlog, completed}
use mini_riscv_os.Machine.{Machine, virtio_irq}
use mini_riscv_os.Trap.{plic_claim, plic_mcomplete, trap_handler}
use mini_riscv_os.Trap.Sample.{disk, driver, machine, fuel}
use mini_riscv_os.Trap.External.{block_interrupt, uart_interrupt_echoes}

claim_lem : (irq : ℕ) → plic_claim (machine irq) ≡ irq
unfolding plic_claim
claim_lem irq = refl

block_interrupt_example :
    (m' : Machine line) × (trap_handler fuel 0x100 0x200 0x8000000b (machine 1) ≡ ok (0x200, m'))
    × CaughtUp
        (completed disk (backlog disk) 0)
        (record driver { writes = (interrupt_ack, bit_and 1 3) ∷ [] })
        m'.driver
    × (m'.plic_writes ≡ (plic_mcomplete 0, virtio_irq) ∷ [])
    × (m'.console ≡ puts "Virtio IRQ\n" ∷ [])
    × (m'.uart ≡ idle)
block_interrupt_example =
    block_interrupt (machine 1) fuel 0x100 0x200 (claim_lem 1)
      (record { seen = omega arith; made = omega arith }) (omega arith) (refl, tt)

-- The same machine with a keyboard, on which "a" and return were typed.
abbrev typing : Machine keyboard
typing =
    let m : Machine line = machine 10 in
    record {
      mie = m.mie;
      mstatus = m.mstatus;
      mtvec = m.mtvec;
      mscratch = m.mscratch;
      mhartid = m.mhartid;
      tp = m.tp;
      mtime = m.mtime;
      mtimecmp = m.mtimecmp;
      timer_count = m.timer_count;
      timer_scratch = m.timer_scratch;
      plic_read = m.plic_read;
      plic_writes = [];
      uart = typed (b'a' ∷ b'\r' ∷ []);
      virtio_regs = m.virtio_regs;
      driver = m.driver;
      frame = m.frame;
      words = m.words;
      console = [];
    }

typing_claim : plic_claim typing ≡ 10
unfolding plic_claim
typing_claim = refl

uart_interrupt_echoes_example :
    (m' : Machine keyboard) × (trap_handler
        (record { polls = 1; chars = 3; blocks = 0 })
        0x100
        0x200
        0x8000000b
        typing
      ≡ ok (0x200, m'))
    × (m'.uart.shown ≡ b'a' ∷ b'\n' ∷ b'\n' ∷ b'\n' ∷ [])
    × (m'.uart.queue ≡ [])
    × (m'.plic_writes ≡ (plic_mcomplete 0, 10) ∷ [])
    × (m'.console ≡ [])
    × (m'.driver ≡ typing.driver)
uart_interrupt_echoes_example =
    uart_interrupt_echoes typing (record { polls = 1; chars = 3; blocks = 0 }) 0x100 0x200
      keyboard-IsTransmitter keyboard-IsReceiver typing_claim (omega arith) (omega arith)
