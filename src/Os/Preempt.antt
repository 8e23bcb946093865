-- ===== src/Os/Preempt.antt =====
-- A task that the timer interrupts: trap_vector of 10-SystemCall/src/sys.s and trap_handler of
-- trap.c, which lead to `os_kernel` of os.c, and the loop of `os_main` until the task's next turn.
use mini_riscv_os.Common.{
  ℕ, ◌+◌, ◌≡◌, ◌≢◌, refl, sym, ap, ◌∙◌, some, List, [], ◌∷◌, ◌++◌, ok, u32, update_self, update_ne,
  arith, subst,
}
use mini_riscv_os.Console.{printf, int}
use mini_riscv_os.Uart.{Device}
use mini_riscv_os.Machine.{Machine}
use mini_riscv_os.Trap.{Fuel, trap_handler, handle_interrupt, timer_handler}
use mini_riscv_os.Trap.Entry.{enter_frame, take_trap}
use mini_riscv_os.Task.{
  Ctx, os, Kernel, ra, save, load, frame_loaded, task_os, sys_switch, context, set_context,
}
use mini_riscv_os.Task.Switch.{SameOn, kept, load-save, called}
use mini_riscv_os.Os.Main.{
  Turns, in_kernel, in_task, activate, os_kernel, strike_loop, Step, loop_struck, activated, ran,
  yielded, Reach, later,
}
use mini_riscv_os.Os.Resume.{IsStart, resumes}

-- Steps until which it is the turn of other tasks than `i`.
pub data Away (address : Ctx → ℕ) (Lands : ℕ → ℕ → Type 0) (i : ℕ) (start : Turns)
    : Turns → Type 0 where
  at_once : Away address Lands i start start
  longer :
      {s s' : Turns}
      → Away address Lands i start s
      → s.current_task ≢ i
      → Step address Lands s s'
      → Away address Lands i start s'

SameOn-trans : (rs : List ℕ) (f g h : ℕ → ℕ) → SameOn rs f g → SameOn rs g h → SameOn rs f h
SameOn-trans [] f g h p q = tt
SameOn-trans (r ∷ rs) f g h p q = (p.0 ∙ q.0, SameOn-trans rs f g h p.1 q.1)

-- A switch from the kernel to itself keeps what a caller relies on, and returns.
kernel_to_kernel :
    (address : Ctx → ℕ) (k : Kernel)
    → k.ctx_now ≡ os
    → SameOn kept (task_os address k).regs k.regs
      × ((task_os address k).pc ≡ k.regs ra)
      × ((task_os address k).ctx_tasks ≡ k.ctx_tasks)
unfolding task_os sys_switch context set_context
kernel_to_kernel address k now =
    subst
      (λ (c : Ctx).
        SameOn kept (sys_switch address c os (record k { ctx_now = os })).regs k.regs
        × ((sys_switch address c os (record k { ctx_now = os })).pc ≡ k.regs ra)
        × ((sys_switch address c os (record k { ctx_now = os })).ctx_tasks ≡ k.ctx_tasks))
      (sym now)
      (let l = load-save k.regs (called address os os k.regs) k.ctx_os (address os) (address os) in
        (l, l.0, refl))

module _ (address : Ctx → ℕ) {Lands : ℕ → ℕ → Type 0} (i : ℕ) where
  Away-Reach :
      {s0 s s' : Turns}
      → Reach address Lands s0 s
      → Away address Lands i s s'
      → Reach address Lands s0 s'
  Away-Reach r at_once = r
  Away-Reach r (longer a ne step) = later (Away-Reach r a) step

  -- Only the task itself gives up its turn.
  left-Step : {s s' : Turns} → s.current_task ≢ i → Step address Lands s s' → s'.left i ≡ s.left i
  unfolding activate os_kernel strike_loop
  left-Step ne (loop_struck s regs c printed m now l) = refl
  left-Step ne (activated s regs m) = refl
  left-Step ne (ran s k printed m runs) = refl
  left-Step ne (yielded s m) = update_ne s.left s.current_task i (some s.kernel.regs) ne

  left-Away : {s s' : Turns} → Away address Lands i s s' → s'.left i ≡ s.left i
  left-Away at_once = refl
  left-Away (longer a ne step) = left-Step ne step ∙ left-Away a

module _ {u : Device} (m : Machine u) where
  -- The registers behind a timer interrupt of code with the registers `regs` at `pc`.
  abbrev pub struck_regs : ℕ → (ℕ → ℕ) → ℕ → ℕ
  struck_regs pc regs = load frame_loaded 0 (enter_frame regs m.frame pc) regs

  -- The running task behind the interrupt, which has printed its line.
  abbrev pub struck : ℕ → Turns → Turns
  struck pc s = record s {
    kernel = record s.kernel { regs = struck_regs pc s.kernel.regs };
    console = s.console ++ printf "timer_handler: %d\n" (int (u32 (m.timer_count + 1)) ∷ []) ∷ [];
  }

  struck_regs-SameOn : (pc : ℕ) (regs : ℕ → ℕ) → SameOn kept (struck_regs pc regs) regs
  unfolding load enter_frame save
  struck_regs-SameOn pc regs = omega arith

  module _ (address : Ctx → ℕ) (fuel : Fuel) (entry pc : ℕ) where
    left-struck :
        (s : Turns)
        → (os_kernel address (struck pc s)).left s.current_task
          ≡ some (struck_regs pc s.kernel.regs)
    unfolding os_kernel
    left-struck s = update_self s.left s.current_task (some (struck_regs pc s.kernel.regs))

    struck-Reach :
        {Lands : ℕ → ℕ → Type 0} {s0 s : Turns}
        → Reach address Lands s0 s
        → s.mode ≡ in_task
        → Reach address Lands s0 (os_kernel address (struck pc s))
    struck-Reach {s = s} r mode =
        later
          (later r (
            ran s (struck pc s).kernel _ mode
              (record { ctx_os = refl; ctx_tasks = refl; ctx_now = refl; task_top = refl })))
          (yielded (struck pc s) mode)

    -- A timer interrupt of a running task, at any `pc` and in any run in which the tasks leave the
    -- variables of task.c alone and the timer strikes the loop itself, if at all, outside of
    -- `task_go` and `task_os`, goes on in `os_kernel`. When the task's turn comes round again,
    -- the task goes on, with the registers that a caller relies on, at the address that its register
    -- ra held when it was interrupted, whatever the `pc` was.
    pub preempted :
        {Lands : ℕ → ℕ → Type 0} {s0 s s2 : Turns} (regs : ℕ → ℕ)
        → IsStart s0
        → Reach address Lands s0 s
        → s.mode ≡ in_task
        → Away address Lands s.current_task (os_kernel address (struck pc s)) s2
        → s2.mode ≡ in_kernel
        → s2.current_task ≡ s.current_task
        → (m' : Machine u) × (take_trap fuel entry pc 0x80000007 s.kernel.regs m
            ≡ ok (struck_regs pc s.kernel.regs, entry, m'))
          × SameOn kept (activate address regs s2).kernel.regs s.kernel.regs
          × ((activate address regs s2).kernel.pc ≡ s.kernel.regs ra)
    unfolding take_trap trap_handler handle_interrupt timer_handler
    preempted {s = s} {s2} regs st r mode away kernel turn =
        let held = ap s2.left turn ∙ left-Away address s.current_task away ∙ left-struck s in
        let again =
          resumes address regs st (Away-Reach address s.current_task (struck-Reach r mode) away)
            kernel held in
        let same = struck_regs-SameOn pc s.kernel.regs in
        (
          _,
          refl,
          SameOn-trans kept (activate address regs s2).kernel.regs (struck_regs pc s.kernel.regs)
              s.kernel.regs again.0 same,
          again.1 ∙ same.0,
        )

    -- A timer interrupt of the kernel itself, when no task has the processor, goes on in `os_kernel`
    -- as well, which switches from the kernel's context to the same context: the kernel goes on, with
    -- the registers that a caller relies on, at the address in its register ra, whatever the `pc`, and
    -- the contexts of the tasks are kept.
    pub struck_kernel :
        (k : Kernel)
        → k.ctx_now ≡ os
        → (m' : Machine u) × (take_trap fuel entry pc 0x80000007 k.regs m
            ≡ ok (struck_regs pc k.regs, entry, m'))
          × SameOn kept (task_os address (record k { regs = struck_regs pc k.regs })).regs k.regs
          × ((task_os address (record k { regs = struck_regs pc k.regs })).pc ≡ k.regs ra)
          × ((task_os address (record k { regs = struck_regs pc k.regs })).ctx_tasks ≡ k.ctx_tasks)
    unfolding take_trap trap_handler handle_interrupt timer_handler
    struck_kernel k now =
        let regs : ℕ → ℕ = struck_regs pc k.regs in
        let (held, back, others) = kernel_to_kernel address (record k { regs = regs }) now in
        let same = struck_regs-SameOn pc k.regs in
        (
          _,
          refl,
          SameOn-trans kept (task_os address (record k { regs = regs })).regs regs k.regs held same,
          back ∙ same.0,
          others,
        )
