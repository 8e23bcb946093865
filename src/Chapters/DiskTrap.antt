-- ===== src/Chapters/DiskTrap.antt =====
-- The trap handler of the eighth and ninth chapter, 08-BlockDeviceDriver/trap.c: interrupts are
-- those of the last chapter, and every exception stops the kernel.
use mini_riscv_os.Common.{ℕ, ◌^◌, ◌≡◌, [], ◌∷◌, ◌==◌, if◌then◌else◌, bit_and, Run, ok, ◌>>=◌, arith}
use mini_riscv_os.Console.{Call, puts, printf, int}
use mini_riscv_os.Uart.{Device}
use mini_riscv_os.Machine.{Machine, mie_mtie, say, clear_mie, set_mie}
use mini_riscv_os.Trap.{Fuel, external_handler, timer_handler, trap_handler, handle_interrupt}

-- The trap goes on at a program counter, or the handler loops for ever.
pub data Outcome (u : Device) : Type 0 where
  goes_on : ℕ → Machine u → Outcome u
  stops : Machine u → Outcome u

-- What an exception prints.
unfoldable pub disk_exception : ℕ → Call
disk_exception code =
    if code == 2
    then puts "Illegal instruction!\n"
    else if code == 5
    then puts "Fault load!\n"
    else if code == 7
    then puts "Fault store!\n"
    else if code == 11
    then puts "Machine mode ecall!\n"
    else printf "Sync exceptions! cause code: %d\n" (int code ∷ [])

module _ {u : Device} where
  unfoldable pub disk_interrupt : Fuel → ℕ → ℕ → ℕ → Machine u → Run (Outcome u)
  disk_interrupt fuel os_kernel epc code m =
      if code == 3
      then ok (goes_on epc m)
      else if code == 7
      then ok (goes_on os_kernel (set_mie mie_mtie (timer_handler (clear_mie (2 ^ 7) m))))
      else if code == 11
      then (external_handler fuel m >>= λ m'. ok (goes_on epc m'))
      else ok (goes_on epc (say (puts "unknown async exception!\n") m))

  unfoldable pub disk_trap_handler : Fuel → ℕ → ℕ → ℕ → Machine u → Run (Outcome u)
  unfolding disk_interrupt disk_exception
  disk_trap_handler fuel os_kernel epc cause m =
      let code : ℕ = bit_and cause 0xfff in
      if bit_and cause 0x80000000 == 0
      then ok (stops (say (disk_exception code) m))
      else disk_interrupt fuel os_kernel epc code m

  abbrev pub to_outcome : ℕ × Machine u → Run (Outcome u)
  to_outcome (pc, m) = ok (goes_on pc m)

  -- On every interrupt the eighth chapter does what the last one does; on every exception, an
  -- environment call included, it prints one line and stops, where the last one goes on.
  pub disk_trap_handler_lem :
      (fuel : Fuel) (os_kernel epc cause : ℕ) (m : Machine u)
      → (disk_trap_handler fuel os_kernel epc cause m ≡ (
          if bit_and cause 0x80000000 == 0
          then ok (stops (say (disk_exception (bit_and cause 0xfff)) m))
          else (trap_handler fuel os_kernel epc cause m >>= to_outcome)))
  unfolding disk_trap_handler disk_interrupt trap_handler handle_interrupt
  disk_trap_handler_lem fuel os_kernel epc cause m = ground arith
