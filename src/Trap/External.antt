-- ===== src/Trap/External.antt =====
-- External interrupts: what is claimed is handled and completed.
use mini_riscv_os.Common.{
  ℕ, ◌<◌, ◌≡◌, ◌≢◌, refl, List, length, [], ◌∷◌, ◌++◌, ◌==◌, if◌then◌else◌, bit_and, ok, arith,
  ne→==,
}
use mini_riscv_os.Console.{puts, printf, int}
use mini_riscv_os.Uart.{Device}
use mini_riscv_os.Uart.Transmit.{IsTransmitter}
use mini_riscv_os.Uart.Receive.{IsReceiver, echo, lib_isr-echoes}
use mini_riscv_os.Virtio.Request.{interrupt_ack, interrupt_status}
use mini_riscv_os.Virtio.Isr.{IsRing, AllOk, CaughtUp, backlog, completed, virtio_disk_isr-CaughtUp}
use mini_riscv_os.Machine.{Machine, uart0_irq, virtio_irq, say}
use mini_riscv_os.Trap.{
  Fuel, plic_claim, plic_complete, plic_mcomplete, external_handler, handle_interrupt, trap_handler,
}

module _ {u : Device} (m : Machine u) (fuel : Fuel) where
  -- The external interrupt of the block device, when none of the completions that wait reports an error
  -- and there is fuel for them: the handler prints its line, the driver catches up with the device, and
  -- the source is completed once. The trap goes on where it struck.
  pub block_interrupt :
      (os_kernel epc : ℕ)
      → plic_claim m ≡ virtio_irq
      → IsRing m.driver.disk
      → backlog m.driver.disk < fuel.blocks
      → AllOk m.driver.disk (backlog m.driver.disk) m.driver.disk.used_idx
      → (m' : Machine u) × (trap_handler fuel os_kernel epc 0x8000000b m ≡ ok (epc, m'))
        × CaughtUp
            (completed m.driver.disk (backlog m.driver.disk) m.driver.disk.used_idx)
            (record m.driver {
              writes =
                  (interrupt_ack, bit_and (m.virtio_regs interrupt_status) 3) ∷ m.driver.writes;
            })
            m'.driver
        × (m'.plic_writes ≡ (plic_mcomplete m.tp, virtio_irq) ∷ m.plic_writes)
        × (m'.console ≡ m.console ++ puts "Virtio IRQ\n" ∷ [])
        × (m'.uart ≡ m.uart)
  unfolding trap_handler handle_interrupt external_handler plic_complete
  block_interrupt os_kernel epc claim ring lt all =
      let (d, run, caught) =
        virtio_disk_isr-CaughtUp m.virtio_regs fuel.blocks m.driver ring lt all in
      (
        plic_complete virtio_irq (record (say (puts "Virtio IRQ\n") m) { driver = d }),
        rw (claim, run),
        caught,
        refl,
        refl,
        refl,
      )

  -- The external interrupt of a UART that becomes ready in time, and whose holding register gives the
  -- same byte again until its status is read the next time, as lib_getc needs, which reads it twice:
  -- every byte that has come is sent back with a line feed, and the source is completed once. The trap
  -- goes on where it struck, and the kernel prints nothing and leaves the block device alone. The loops
  -- have fuel for the polls of a byte and for the bytes that have come.
  pub uart_interrupt_echoes :
      {sent pending : u.State → List ℕ} {busy : u.State → ℕ} {limit : ℕ} (os_kernel epc : ℕ)
      → IsTransmitter u sent busy limit
      → IsReceiver u sent pending
      → plic_claim m ≡ uart0_irq
      → limit < fuel.polls
      → length (pending m.uart) < fuel.chars
      → (m' : Machine u) × (trap_handler fuel os_kernel epc 0x8000000b m ≡ ok (epc, m'))
        × (sent m'.uart ≡ sent m.uart ++ echo (pending m.uart))
        × (pending m'.uart ≡ [])
        × (m'.plic_writes ≡ (plic_mcomplete m.tp, uart0_irq) ∷ m.plic_writes)
        × (m'.console ≡ m.console)
        × (m'.driver ≡ m.driver)
  unfolding trap_handler handle_interrupt external_handler plic_complete
  uart_interrupt_echoes {pending} os_kernel epc t r claim polls chars =
      let (s, run, out, taken) =
        lib_isr-echoes t r fuel.polls fuel.chars (pending m.uart) m.uart polls chars refl in
      (
        plic_complete uart0_irq (record m { uart = s }),
        rw (claim, run),
        out,
        taken,
        refl,
        refl,
        refl,
      )

  -- A spurious interrupt, for which nothing is claimed, changes nothing; one from a source that
  -- the kernel does not know is reported and completed, and its devices are left alone.
  pub other_interrupt :
      (os_kernel epc : ℕ)
      → plic_claim m ≢ uart0_irq
      → plic_claim m ≢ virtio_irq
      → trap_handler fuel os_kernel epc 0x8000000b m
        ≡ ok (
          epc,
          if plic_claim m == 0
              then m
              else plic_complete
                  (plic_claim m)
                  (say (printf "unexpected interrupt irq = %d\n" (int (plic_claim m) ∷ [])) m),
        )
  unfolding trap_handler handle_interrupt external_handler
  other_interrupt os_kernel epc ne_uart ne_disk =
      rw (ne→== (plic_claim m) uart0_irq ne_uart, ne→== (plic_claim m) virtio_irq ne_disk)
        (ground arith)
