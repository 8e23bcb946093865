-- ===== src/Trap/Typed.antt =====
-- Registers and words of 32 bits: the types that the code of 10-SystemCall/src/trap.c, timer.c,
-- plic.c and syscall.c gives to its state, kept over a whole trap.
use mini_riscv_os.Common.{
  ℕ, ◌+◌, ◌^◌, ◌<◌, ◌≡◌, ◌==◌, if◌then◌else◌, ok, panic, hang, arith, Run, List, [], ◌∷◌, update,
  subst, bit_and, Bool, true, false, Ensures, Ensures-bind, if_Ensures, not32,
}
use mini_riscv_os.Common.Bits.{bit_or-below, bit_and-below}
use mini_riscv_os.Console.{puts}
use mini_riscv_os.Uart.{Device}
use mini_riscv_os.Machine.{Machine, mie_mtie, set_mie, clear_mie, uart0_irq, virtio_irq, say}
use mini_riscv_os.Virtio.Request.{Driver}
use mini_riscv_os.Task.{save, load, frame_saved, frame_loaded}
use mini_riscv_os.Trap.{
  Fuel, sys_gethid, do_syscall, timer_handler, external_handler, handle_interrupt, handle_exception,
  trap_handler, with_uart, with_driver, plic_claim, plic_complete,
}
use mini_riscv_os.Trap.Entry.{enter_frame, take_trap}

abbrev pub IsWord : ℕ → Type 0
IsWord w = w < 2 ^ 32

abbrev pub AreWords : (ℕ → ℕ) → Type 0
AreWords f = (i : ℕ) → IsWord (f i)

-- The registers but mie, the counter, the comparators, the trap frame and user memory.
abbrev pub AreTyped : {u : Device} → Machine u → Type 0
AreTyped m =
    IsWord m.mstatus
    × IsWord m.mtvec
    × IsWord m.mscratch
    × IsWord m.mhartid
    × IsWord m.timer_count
    × AreWords m.mtimecmp
    × AreWords m.frame
    × AreWords m.words

abbrev pub IsTyped : {u : Device} → Machine u → Type 0
IsTyped m = AreTyped m × IsWord m.mie

save-AreWords :
    (rs : List ℕ) (k : ℕ) (regs ctx : ℕ → ℕ)
    → AreWords regs
    → AreWords ctx
    → AreWords (save rs k regs ctx)
unfolding save
save-AreWords [] k regs ctx r c = c
save-AreWords (x ∷ rs) k regs ctx r c =
    save-AreWords rs (k + 1) regs (update ctx k (regs x)) r (λ i. ground (arith, r x, c i))

load-AreWords :
    (rs : List ℕ) (k : ℕ) (ctx regs : ℕ → ℕ)
    → AreWords ctx
    → AreWords regs
    → AreWords (load rs k ctx regs)
unfolding load
load-AreWords [] k ctx regs c r = r
load-AreWords (x ∷ rs) k ctx regs c r =
    load-AreWords rs (k + 1) ctx (update regs x (ctx k)) c (λ i. ground (arith, r i, c k))

-- The machine after a trap, and the pc to go on at.
abbrev pub TypedResult : {u : Device} → ℕ × Machine u → Type 0
TypedResult (pc, m) = IsWord pc × IsTyped m

module _ {u : Device} where
  with_uart-IsTyped :
      (m : Machine u) (r : Run u.State) → IsTyped m → Ensures IsTyped (with_uart m r)
  with_uart-IsTyped m (ok s) t = t
  with_uart-IsTyped m (panic s) t = tt
  with_uart-IsTyped m hang t = tt

  with_driver-IsTyped :
      (m : Machine u) (r : Run Driver) → IsTyped m → Ensures IsTyped (with_driver m r)
  with_driver-IsTyped m (ok s) t = t
  with_driver-IsTyped m (panic s) t = tt
  with_driver-IsTyped m hang t = tt

  set_mie-IsTyped : (m : Machine u) (bits : ℕ) → IsTyped m → IsWord bits → IsTyped (set_mie bits m)
  set_mie-IsTyped m bits t below = (t.0, bit_or-below 32 m.mie bits t.1 below)

  clear_mie-IsTyped : (m : Machine u) (bits : ℕ) → IsTyped m → IsTyped (clear_mie bits m)
  clear_mie-IsTyped m bits t = (t.0, bit_and-below 32 m.mie (not32 bits) t.1)

  timer_handler-IsTyped : (m : Machine u) → IsTyped m → IsTyped (timer_handler m)
  unfolding timer_handler
  timer_handler-IsTyped m ((mstatus, mtvec, mscratch, mhartid, count, cmp, frame, words), mie) = (
    (mstatus, mtvec, mscratch, mhartid, omega arith, (λ h. ground (arith, cmp h)), frame, words),
    mie,
  )

  do_syscall-IsTyped : (m : Machine u) → IsTyped m → IsTyped (do_syscall m)
  unfolding do_syscall sys_gethid
  do_syscall-IsTyped m ((mstatus, mtvec, mscratch, mhartid, count, cmp, frame, words), mie) = (
    (
      ground arith,
      ground arith,
      ground arith,
      ground arith,
      ground arith,
      λ h. ground (arith, cmp h),
      λ i. ground (arith, frame i),
      λ p. ground (arith, words p),
    ),
    ground arith,
  )

  complete-IsTyped :
      (b : Bool) (irq : ℕ) (m : Machine u)
      → IsTyped m
      → IsTyped (if b then m else plic_complete irq m)
  unfolding plic_complete
  complete-IsTyped true irq m t = t
  complete-IsTyped false irq m t = t

  external_handler-IsTyped :
      (fuel : Fuel) (m : Machine u) → IsTyped m → Ensures IsTyped (external_handler fuel m)
  unfolding external_handler
  external_handler-IsTyped fuel m t =
      Ensures-bind IsTyped IsTyped _ _
        (if_Ensures IsTyped (plic_claim m == uart0_irq) _ _ (with_uart-IsTyped m _ t) (
          if_Ensures IsTyped (plic_claim m == virtio_irq) _ _
            (with_driver-IsTyped (say (puts "Virtio IRQ\n") m) _ t)
            (if_Ensures IsTyped (plic_claim m == 0) _ _ t t)))
        (λ m' t'. complete-IsTyped (plic_claim m == 0) (plic_claim m) m' t')

  if_Typed :
      (b : Bool) (r r' : ℕ × Machine u)
      → TypedResult r
      → TypedResult r'
      → TypedResult (if b then r else r')
  if_Typed true r r' p q = p
  if_Typed false r r' p q = q

  handle_exception-Typed :
      (epc code : ℕ) (m : Machine u)
      → IsWord epc
      → IsTyped m
      → TypedResult (handle_exception epc code m)
  unfolding handle_exception
  handle_exception-Typed epc code m small t =
      if_Typed (code == 2) _ _ (small, t)
        (if_Typed (code == 5) _ _ (small, t)
          (if_Typed (code == 7) _ _ (small, t)
            (if_Typed (code == 8) _ _
              (omega arith, do_syscall-IsTyped (say (puts "Environment call from U-mode!\n") m) t)
              (if_Typed (code == 11) _ _
                (omega arith, do_syscall-IsTyped (say (puts "Environment call from M-mode!\n") m) t)
                (small, t)))))

  trap_handler-Typed :
      (fuel : Fuel) (os_kernel epc cause : ℕ) (m : Machine u)
      → IsWord os_kernel
      → IsWord epc
      → IsTyped m
      → Ensures TypedResult (trap_handler fuel os_kernel epc cause m)
  unfolding trap_handler handle_interrupt
  trap_handler-Typed fuel os_kernel epc cause m kernel small t =
      let code : ℕ = bit_and cause 0xfff in
      let timed : IsTyped (set_mie mie_mtie (timer_handler (clear_mie (2 ^ 7) m))) =
        set_mie-IsTyped (timer_handler (clear_mie (2 ^ 7) m)) mie_mtie
          (timer_handler-IsTyped (clear_mie (2 ^ 7) m) (clear_mie-IsTyped m (2 ^ 7) t))
          (omega arith) in
      if_Ensures TypedResult (bit_and cause 0x80000000 == 0) _ _
        (handle_exception-Typed epc code m small t)
        (if_Ensures TypedResult (code == 3) _ _ (small, t)
          (if_Ensures TypedResult (code == 7) _ _ (kernel, timed)
            (if_Ensures TypedResult (code == 11) _ _
              (Ensures-bind IsTyped TypedResult (external_handler fuel m) _
                (external_handler-IsTyped fuel m t) (λ m' t'. (small, t')))
              (small, t))))

-- A trap, whatever its cause, that starts from 32-bit registers, words and pc, in a kernel whose
-- `os_kernel` is at a 32-bit address, goes on, if it returns, at a 32-bit pc with 32-bit registers,
-- and leaves 32-bit words in the machine.
pub take_trap-Typed :
    {u : Device} (m m' : Machine u) (fuel : Fuel) (os_kernel mepc mcause pc : ℕ)
    (regs regs' : ℕ → ℕ)
    → IsWord os_kernel
    → IsWord mepc
    → AreWords regs
    → IsTyped m
    → take_trap fuel os_kernel mepc mcause regs m ≡ ok (regs', pc, m')
    → AreWords regs' × IsWord pc × IsTyped m'
unfolding take_trap enter_frame
take_trap-Typed {u} m m' fuel os_kernel mepc mcause pc regs regs' kernel small r t run =
    subst (Ensures after) run (
      Ensures-bind TypedResult after (trap_handler fuel os_kernel mepc mcause entered) _
        (trap_handler-Typed fuel os_kernel mepc mcause entered kernel small entered-IsTyped)
        (λ o p. (load-AreWords frame_loaded 0 o.1.frame regs p.1.0.6 r, p.0, p.1)))
  where
    after : (ℕ → ℕ) × ℕ × Machine u → Type 0
    after (rs, p, m1) = AreWords rs × IsWord p × IsTyped m1

    entered : Machine u
    entered = record m { frame = enter_frame regs m.frame mepc }

    frame-AreWords : AreWords (enter_frame regs m.frame mepc)
    frame-AreWords i = ground (arith, save-AreWords frame_saved 0 regs m.frame r t.0.6 i)

    entered-IsTyped : IsTyped entered
    entered-IsTyped = ((t.0.0, t.0.1, t.0.2, t.0.3, t.0.4, t.0.5, frame-AreWords, t.0.7), t.1)
