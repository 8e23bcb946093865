-- ===== src/Chapters/ExternalInterrupt.antt =====
-- The trap handler of the seventh chapter, 07-ExterInterrupt/trap.c, which knows the UART alone.
use mini_riscv_os.Common.{
  ℕ, ◌^◌, ◌≡◌, ◌≢◌, [], ◌∷◌, ◌==◌, if◌then◌else◌, bit_and, Run, ok, hang, ◌>>=◌, ne→==,
}
use mini_riscv_os.Console.{puts, printf, int}
use mini_riscv_os.Uart.{Device, lib_isr}
use mini_riscv_os.Machine.{Machine, uart0_irq, virtio_irq, mie_mtie, say, clear_mie, set_mie}
use mini_riscv_os.Trap.{Fuel, plic_claim, plic_complete, timer_handler, with_uart, external_handler}

module _ {u : Device} where
  unfoldable pub uart_external_handler : Fuel → Machine u → Run (Machine u)
  uart_external_handler fuel m =
      let irq : ℕ = plic_claim m in
      let handled : Run (Machine u) =
        if irq == uart0_irq
        then with_uart m (lib_isr u fuel.polls fuel.chars m.uart)
        else if irq == 0
        then ok m
        else ok (say (printf "unexpected interrupt irq = %d\n" (int irq ∷ [])) m) in
      handled >>= λ m'. ok (if irq == 0 then m' else plic_complete irq m')

  unfoldable pub uart_interrupt : Fuel → ℕ → ℕ → ℕ → Machine u → Run (ℕ × Machine u)
  unfolding uart_external_handler
  uart_interrupt fuel os_kernel epc code m =
      let told : Machine u = say (puts "timer interruption!\n") m in
      if code == 3
      then ok (epc, say (puts "software interruption!\n") m)
      else if code == 7
      then ok (os_kernel, set_mie mie_mtie (timer_handler (clear_mie (2 ^ 7) told)))
      else if code == 11
      then (uart_external_handler fuel (say (puts "external interruption!\n") m) >>= λ m'.
          ok (epc, m'))
      else ok (epc, say (puts "unknown async exception!\n") m)

  unfoldable pub uart_trap_handler : Fuel → ℕ → ℕ → ℕ → Machine u → Run (ℕ × Machine u)
  unfolding uart_interrupt
  uart_trap_handler fuel os_kernel epc cause m =
      if bit_and cause 0x80000000 == 0
      then hang
      else uart_interrupt fuel os_kernel epc (bit_and cause 0xfff) m

  -- The seventh chapter handles an external interrupt as the last chapter does, from every source
  -- but the block device.
  pub uart_external_handler-external_handler :
      (fuel : Fuel) (m : Machine u)
      → plic_claim m ≢ virtio_irq
      → uart_external_handler fuel m ≡ external_handler fuel m
  unfolding uart_external_handler external_handler
  uart_external_handler-external_handler fuel m other =
      let not_disk = ne→== (plic_claim m) virtio_irq other in rw not_disk
