-- ===== src/Os/Prologue/Tests.antt =====
-- A start of the sample machine, linked from small sections.
use mini_riscv_os.Common.{ℕ, map, u8, ◌≤◌, ◌≡◌, refl, ok, arith, []}
use mini_riscv_os.Uart.Line.{line}
use mini_riscv_os.Uart.Keyboard.{KeyState, keyboard, typed, keyboard-IsTransmitter}
use mini_riscv_os.Alloc.{page_init}
use mini_riscv_os.Virtio.Request.{waiting}
use mini_riscv_os.Virtio.Sample.{addresses, sevens, sevens-DeviceCompletes}
use mini_riscv_os.Virtio.Tester.{over, transferring}
use mini_riscv_os.Machine.{Machine, virtio_irq}
use mini_riscv_os.Task.{frame_saved}
use mini_riscv_os.Task.Switch.{SameOn}
use mini_riscv_os.Trap.{plic_claim}
use mini_riscv_os.Trap.Entry.{take_trap}
use mini_riscv_os.Trap.Sample.{machine, driver, fuel}
use mini_riscv_os.Boot.{Sections, link}
use mini_riscv_os.Boot.Memory.{IsLinked}
use mini_riscv_os.Os.{Image, System}
use mini_riscv_os.Os.Sample.{image, registers, system, known_lem}
use mini_riscv_os.Os.Prologue.{os_main_starts, os_main_goes_on}
use mini_riscv_os.Os.Prologue.Booted.{IsBooted, os_main-IsBooted}
use mini_riscv_os.Os.Prologue.Sent.{start_text, os_main-sends}
use mini_riscv_os.Printf.Send.{make_calls, returned}

abbrev sections : Sections
sections = record {
  text = record { align = 16; size = 0x4120 };
  rodata = record { align = 8; size = 0x300 };
  data_part = record { align = 4; size = 0x18 };
  bss = record { align = 4096; size = 0x7010 };
}

sections-IsLinked : IsLinked sections
unfolding link
sections-IsLinked = record {
  text = omega arith;
  rodata = omega arith;
  data_part = omega arith;
  bss = omega arith;
  room = omega arith;
}

abbrev linked : Image
linked = record image { symbols = link sections }

-- The disk has an interrupt to report, and the driver's memory is as at power-on.
abbrev waking : System line
waking = record system {
  machine = record (machine 1) {
    virtio_regs = registers;
    driver = record driver { blks = λ b. record (driver.blks b) { dev = 0 } };
  };
}

room_lem : 8 ≤ (page_init linked.symbols waking.heap).1.num_pages
unfolding page_init link
room_lem = omega arith

claim_lem : plic_claim waking.machine ≡ virtio_irq
unfolding plic_claim
claim_lem = refl

os_main-IsBooted_example :
    (i0 : ℕ) × (w : System line) × (regs' : ℕ → ℕ) × (m : Machine line) × (e : System line)
    × (os_main_starts addresses 3 linked waking ≡ ok (transferring (waiting i0), w))
    × (take_trap fuel 0x80000300 0x80000700 0x8000000b
          (λ r. r)
          (record w.machine { driver = sevens i0 w.machine.driver })
        ≡ ok (regs', 0x80000700, m))
    × SameOn frame_saved regs' (λ r. r)
    × (os_main_goes_on addresses 2 4 (transferring (waiting i0)) (record w { machine = m })
        ≡ ok (over, e))
    × IsBooted linked (λ j. 7) waking e
os_main-IsBooted_example =
    os_main-IsBooted addresses linked waking fuel 4 0x80000300 0x80000700 (λ r. r) sevens sections
      sections-IsLinked refl room_lem known_lem (omega arith) refl refl claim_lem (omega arith)
      (omega arith) sevens-DeviceCompletes

os_main-sends_example :
    (i0 : ℕ) × (w : System line) × (regs' : ℕ → ℕ) × (m : Machine line) × (e : System line)
    × (buf' : ℕ → ℕ) × (d' : KeyState) × (os_main_starts addresses 3 linked waking
        ≡ ok (transferring (waiting i0), w))
    × (take_trap fuel 0x80000300 0x80000700 0x8000000b
          (λ r. r)
          (record w.machine { driver = sevens i0 w.machine.driver })
        ≡ ok (regs', 0x80000700, m))
    × (os_main_goes_on addresses 2 4 (transferring (waiting i0)) (record w { machine = m })
        ≡ ok (over, e))
    × (make_calls keyboard 1 e.machine.console (λ k. 0) (typed []) ≡ returned 0 buf' d')
    × (d'.shown
        ≡ map u8 (start_text linked.symbols (page_init linked.symbols waking.heap).1 (λ j. 7)))
os_main-sends_example =
    os_main-sends addresses linked waking fuel 4 0x80000300 0x80000700 1 (λ r. r) (λ k. 0)
      (typed []) sevens sections sections-IsLinked refl room_lem known_lem (omega arith) refl refl
      claim_lem (omega arith) (omega arith) sevens-DeviceCompletes refl keyboard-IsTransmitter
      (omega arith)
