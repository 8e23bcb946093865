-- ===== src/Trap.antt =====
-- The trap path of 10-SystemCall: timer.c, plic.c, syscall.c, trap.c, and the two functions of
-- lock.c that mask interrupts.
pub mod Interrupts
pub mod External
pub mod Syscalls
pub mod Entry
pub mod Typed
pub mod Sample
mod Tests
use mini_riscv_os.Common.{
  ℕ, zero, suc, ◌+◌, ◌-◌, ◌*◌, ◌^◌, ◌%◌, Bool, true, false, List, [], ◌∷◌, ◌==◌, if◌then◌else◌,
  update, bit_and, bit_or, u32, add32, Run, ok, panic, hang, ◌>>=◌,
}
use mini_riscv_os.Console.{puts, printf, int}
use mini_riscv_os.Uart.{Device, lib_isr}
use mini_riscv_os.Virtio.Request.{Driver, virtio_disk_isr}
use mini_riscv_os.Machine.{
  r_tp, r_mhartid, w_mscratch, w_mtvec, Machine, uart0_irq, virtio_irq, mstatus_mie, mie_meie,
  mie_mtie, clint_mtimecmp, say, clear_mie, set_mie, clear_mstatus, set_mstatus,
}

-- `interval`: cycles between two timer interrupts.
abbrev pub interval : ℕ
interval = 20000000

abbrev pub plic_base : ℕ
plic_base = 0x0c000000

abbrev pub plic_priority : ℕ → ℕ
plic_priority id = plic_base + id * 4

abbrev pub plic_menable : ℕ → ℕ
plic_menable hart = plic_base + 0x2000 + hart * 0x80

abbrev pub plic_mthreshold : ℕ → ℕ
plic_mthreshold hart = plic_base + 0x200000 + hart * 0x1000

abbrev pub plic_mclaim : ℕ → ℕ
plic_mclaim hart = plic_base + 0x200004 + hart * 0x1000

abbrev pub plic_mcomplete : ℕ → ℕ
plic_mcomplete hart = plic_base + 0x200004 + hart * 0x1000

-- Words of the trap frame.
abbrev pub a0 : ℕ
a0 = 9

abbrev pub a7 : ℕ
a7 = 16

-- -1 as a register holds it.
abbrev pub minus_one : ℕ
minus_one = 2 ^ 32 - 1

-- The fuel of the loops in the two device handlers.
pub record Fuel : Type 0 where
  pub polls : ℕ
  pub chars : ℕ
  pub blocks : ℕ

module _ {u : Device} where
  abbrev pub plic_write : ℕ → ℕ → Machine u → Machine u
  plic_write a v m = record m { plic_writes = (a, v) ∷ m.plic_writes }

  unfoldable pub basic_lock : Machine u → Machine u
  basic_lock m = clear_mstatus mstatus_mie m

  unfoldable pub basic_unlock : Machine u → Machine u
  basic_unlock m = set_mstatus mstatus_mie m

  -- `scratch` is the address of `timer_scratch[id]`. What lies there is the trap frame from now on.
  unfoldable pub timer_init : (ℕ → ℕ) → Machine u → Machine u
  timer_init scratch m =
      let id : ℕ = r_mhartid m in
      let row : ℕ → ℕ = update (update (m.timer_scratch id) 3 (clint_mtimecmp id)) 4 interval in
      set_mie mie_mtie (
        w_mscratch (scratch id) (record m {
          mtimecmp = update m.mtimecmp id (add32 m.mtime interval);
          timer_scratch = update m.timer_scratch id row;
          frame = row;
        }))

  unfoldable pub timer_handler : Machine u → Machine u
  timer_handler m =
      let count : ℕ = u32 (m.timer_count + 1) in
      say (printf "timer_handler: %d\n" (int count ∷ [])) (record m {
        timer_count = count;
        mtimecmp = update m.mtimecmp (r_mhartid m) (add32 m.mtime interval);
      })

  unfoldable pub plic_init : Machine u → Machine u
  plic_init m = set_mstatus mstatus_mie (
      set_mie mie_meie (
        plic_write (plic_mthreshold (r_tp m)) 0 (
          plic_write (plic_menable (r_tp m)) (bit_or (2 ^ uart0_irq) (2 ^ virtio_irq))
            (plic_write (plic_priority virtio_irq) 1 (plic_write (plic_priority uart0_irq) 1 m)))))

  unfoldable pub plic_claim : Machine u → ℕ
  plic_claim m = m.plic_read (plic_mclaim (r_tp m))

  unfoldable pub plic_complete : ℕ → Machine u → Machine u
  plic_complete irq m = plic_write (plic_mcomplete (r_tp m)) irq m

  -- The result and the machine after it.
  unfoldable pub sys_gethid : ℕ → Machine u → ℕ × Machine u
  sys_gethid ptr_hid m =
      let called : Machine u = say (printf "--> sys_gethid, arg0 = 0x%x\n" (int ptr_hid ∷ [])) m in
      if ptr_hid == 0 then (minus_one, say (printf "ptr_hid == NULL\n" []) called) else (
        0,
        let told : Machine u = say (printf "ptr_hid != NULL\n" []) called in
            record told { words = update told.words ptr_hid (r_mhartid told) },
      )

  unfoldable pub do_syscall : Machine u → Machine u
  do_syscall m =
      let num : ℕ = m.frame a7 in
      let called : Machine u = say (printf "syscall_num: %d\n" (int num ∷ [])) m in
      let (ret, after) = sys_gethid (called.frame a0) called in
      let unknown : Machine u = say (printf "Unknown syscall no: %d\n" (int num ∷ [])) called in
      if num == 1
      then record after { frame = update after.frame a0 ret }
      else record unknown { frame = update unknown.frame a0 minus_one }

  unfoldable pub trap_init : ℕ → Machine u → Machine u
  trap_init trap_vector m = w_mtvec trap_vector m

  abbrev pub with_uart : Machine u → Run u.State → Run (Machine u)
  with_uart m r = r >>= λ s. ok (record m { uart = s })

  abbrev pub with_driver : Machine u → Run Driver → Run (Machine u)
  with_driver m r = r >>= λ d. ok (record m { driver = d })

  unfoldable pub external_handler : Fuel → Machine u → Run (Machine u)
  external_handler fuel m =
      let irq : ℕ = plic_claim m in
      let told : Machine u = say (puts "Virtio IRQ\n") m in
      let handled : Run (Machine u) =
        if irq == uart0_irq
        then with_uart m (lib_isr u fuel.polls fuel.chars m.uart)
        else if irq == virtio_irq
        then with_driver told (virtio_disk_isr told.virtio_regs fuel.blocks told.driver)
        else if irq == 0
        then ok m
        else ok (say (printf "unexpected interrupt irq = %d\n" (int irq ∷ [])) m) in
      handled >>= λ m'. ok (if irq == 0 then m' else plic_complete irq m')

  -- The interrupts, by the cause code: the program counter to go on at, and the machine.
  unfoldable pub handle_interrupt : Fuel → ℕ → ℕ → ℕ → Machine u → Run (ℕ × Machine u)
  handle_interrupt fuel os_kernel epc code m =
      if code == 3
      then ok (epc, m)
      else if code == 7
      then ok (os_kernel, set_mie mie_mtie (timer_handler (clear_mie (2 ^ 7) m)))
      else if code == 11
      then (external_handler fuel m >>= λ m'. ok (epc, m'))
      else ok (epc, say (puts "unknown async exception!\n") m)

  -- The exceptions, by the cause code.
  unfoldable pub handle_exception : ℕ → ℕ → Machine u → ℕ × Machine u
  handle_exception epc code m =
      if code == 2
      then (epc, say (puts "Illegal instruction!\n") m)
      else if code == 5
      then (epc, say (puts "Fault load!\n") m)
      else if code == 7
      then (epc, say (puts "Fault store!\n") m)
      else if code == 8
      then (add32 epc 4, do_syscall (say (puts "Environment call from U-mode!\n") m))
      else if code == 11
      then (add32 epc 4, do_syscall (say (puts "Environment call from M-mode!\n") m))
      else (epc, say (printf "Sync exceptions! cause code: %d\n" (int code ∷ [])) m)

  unfoldable pub trap_handler : Fuel → ℕ → ℕ → ℕ → Machine u → Run (ℕ × Machine u)
  trap_handler fuel os_kernel epc cause m =
      let code : ℕ = bit_and cause 0xfff in
      if bit_and cause 0x80000000 == 0
      then ok (handle_exception epc code m)
      else handle_interrupt fuel os_kernel epc code m
