-- ===== src/Chapters/Preemptive.antt =====
-- The trap handler of the fifth and sixth chapter, 05-Preemptive/trap.c: every exception ends in an
-- endless loop.
use mini_riscv_os.Common.{ℕ, ◌^◌, ◌==◌, if◌then◌else◌, bit_and, bit_or, not32, Run, ok, hang}
use mini_riscv_os.Console.{puts}
use mini_riscv_os.Uart.{Device}
use mini_riscv_os.Machine.{Machine, mstatus_mie, mie_mtie, say, set_mie, set_mstatus}
use mini_riscv_os.Trap.{timer_handler}

module _ {u : Device} where
  unfoldable pub preemptive_trap_init : ℕ → Machine u → Machine u
  preemptive_trap_init trap_vector m = set_mstatus mstatus_mie (record m { mtvec = trap_vector })

  unfoldable pub preemptive_interrupt : ℕ → ℕ → ℕ → Machine u → ℕ × Machine u
  preemptive_interrupt os_kernel epc code m =
      let told : Machine u = say (puts "timer interruption!\n") m in
      let masked : Machine u = record told { mie = not32 (bit_or (not32 told.mie) (2 ^ 7)) } in
      if code == 3
      then (epc, say (puts "software interruption!\n") m)
      else if code == 7
      then (os_kernel, set_mie mie_mtie (timer_handler masked))
      else if code == 11
      then (epc, say (puts "external interruption!\n") m)
      else (epc, say (puts "unknown async exception!\n") m)

  -- An exception prints "Sync exceptions!" and then loops for ever.
  unfoldable pub preemptive_trap_handler : ℕ → ℕ → ℕ → Machine u → Run (ℕ × Machine u)
  preemptive_trap_handler os_kernel epc cause m =
      if bit_and cause 0x80000000 == 0
      then hang
      else ok (preemptive_interrupt os_kernel epc (bit_and cause 0xfff) m)
