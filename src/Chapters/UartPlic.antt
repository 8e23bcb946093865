-- ===== src/Chapters/UartPlic.antt =====
-- The interrupt controller of the seventh chapter, 07-ExterInterrupt/plic.c, which enables the UART
-- alone.
use mini_riscv_os.Common.{◌^◌, ◌≡◌, refl, [], ◌∷◌, bit_or}
use mini_riscv_os.Uart.{Device}
use mini_riscv_os.Machine.{
  Machine, uart0_irq, virtio_irq, mstatus_mie, mie_meie, r_tp, set_mie, set_mstatus,
}
use mini_riscv_os.Trap.{plic_write, plic_priority, plic_menable, plic_mthreshold, plic_init}

module _ {u : Device} where
  unfoldable pub uart_plic_init : Machine u → Machine u
  uart_plic_init m = set_mstatus mstatus_mie (
      set_mie mie_meie (
        plic_write (plic_mthreshold (r_tp m)) 0 (
          plic_write (plic_menable (r_tp m)) (2 ^ uart0_irq)
            (plic_write (plic_priority uart0_irq) 1 m))))

  -- The seventh chapter sets the interrupt controller up as the last one does, less the block
  -- device: without its priority, and with its digit of the enable word 0.
  pub uart_plic_init-plic_init :
      (m : Machine u)
      → (record (plic_init m) { plic_writes = [] } ≡ record (uart_plic_init m) { plic_writes = [] })
        × ((plic_init m).plic_writes
            ≡ (plic_mthreshold m.tp, 0)
              ∷ (plic_menable m.tp, bit_or (2 ^ uart0_irq) (2 ^ virtio_irq))
              ∷ (plic_priority virtio_irq, 1)
              ∷ (plic_priority uart0_irq, 1)
              ∷ m.plic_writes)
        × ((uart_plic_init m).plic_writes
            ≡ (plic_mthreshold m.tp, 0)
              ∷ (plic_menable m.tp, 2 ^ uart0_irq)
              ∷ (plic_priority uart0_irq, 1)
              ∷ m.plic_writes)
  unfolding uart_plic_init plic_init
  uart_plic_init-plic_init m = (refl, refl, refl)
