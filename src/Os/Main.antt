-- ===== src/Os/Main.antt =====
-- The loop of `os_main` in 10-SystemCall/src/os.c, and the tasks that it gives the processor to.
use mini_riscv_os.Common.{ℕ, Option, some, List, [], ◌∷◌, ◌++◌, ◌≡◌, update}
use mini_riscv_os.Console.{Call, puts}
use mini_riscv_os.Task.{Ctx, os, Kernel, task_go, task_os, next_task}

-- Who has the processor: the loop, or the task that it has activated.
pub data Mode : Type 0 where
  in_kernel in_task : Mode

-- The kernel, its variable `current_task`, and what was printed. The last three fields are history:
-- the tasks that had a turn, in order, the registers with which the loop last called `task_go`, and
-- those with which each task last called `task_os`.
pub record Turns : Type 0 where
  pub kernel : Kernel
  pub current_task : ℕ
  pub mode : Mode
  pub console : List Call
  pub turns : List ℕ
  pub called : ℕ → ℕ
  pub left : ℕ → Option (ℕ → ℕ)

module _ (address : Ctx → ℕ) where
  -- The loop up to its call of `task_go`, which it reaches with the registers `regs`.
  unfoldable pub activate : (ℕ → ℕ) → Turns → Turns
  activate regs s = record s {
    kernel = task_go address s.current_task (record s.kernel { regs = regs });
    mode = in_task;
    console = s.console ++ puts "OS: Activate next task\n" ∷ [];
    turns = s.turns ++ s.current_task ∷ [];
    called = regs;
  }

  -- `os_kernel`, called by the task or by a timer interrupt, and the loop from there on.
  unfoldable pub os_kernel : Turns → Turns
  os_kernel s = record s {
    kernel = task_os address s.kernel;
    current_task = next_task s.current_task s.kernel.task_top;
    mode = in_kernel;
    console = s.console ++ puts "OS: Back to OS\n" ∷ puts "\n" ∷ [];
    left = update s.left s.current_task (some s.kernel.regs);
  }

  -- A task that runs changes the registers and prints; the variables of task.c are not its own.
  pub record Runs (k k' : Kernel) : Type 0 where
    pub ctx_os : k'.ctx_os ≡ k.ctx_os
    pub ctx_tasks : k'.ctx_tasks ≡ k.ctx_tasks
    pub ctx_now : k'.ctx_now ≡ k.ctx_now
    pub task_top : k'.task_top ≡ k.task_top

  -- The timer strikes the loop itself: `os_kernel` switches from the kernel's context to itself, and
  -- the loop goes on at the address in its register ra, with `current_task` equal to `c` by the time
  -- it activates the next task.
  unfoldable pub strike_loop : (ℕ → ℕ) → ℕ → List Call → Turns → Turns
  strike_loop regs c printed s = record s {
    kernel = task_os address (record s.kernel { regs = regs });
    current_task = c;
    console = s.console ++ printed;
  }

  -- A timer interrupt of a task is code of the task and then `os_kernel`. For one of the loop,
  -- `Lands i c` says that `current_task` may be `c` afterwards where it was `i`: that depends on where
  -- the loop was struck and on the compiler. No step is an interrupt before the first activation,
  -- where `ctx_now` is NULL, or inside of `task_go` and `task_os`, where `ctx_now` may already
  -- name the other context: those two run as one step.
  module _ (Lands : ℕ → ℕ → Type 0) where
    pub data Step : Turns → Turns → Type 0 where
      activated : (s : Turns) (regs : ℕ → ℕ) → s.mode ≡ in_kernel → Step s (activate regs s)
      ran :
          (s : Turns) (k : Kernel) (printed : List Call)
          → s.mode ≡ in_task
          → Runs s.kernel k
          → Step s (record s { kernel = k; console = s.console ++ printed })
      yielded : (s : Turns) → s.mode ≡ in_task → Step s (os_kernel s)
      loop_struck :
          (s : Turns) (regs : ℕ → ℕ) (c : ℕ) (printed : List Call)
          → s.mode ≡ in_kernel
          → s.kernel.ctx_now ≡ os
          → Lands s.current_task c
          → Step s (strike_loop regs c printed s)

    pub data Reach (start : Turns) : Turns → Type 0 where
      here : Reach start start
      later : {s s' : Turns} → Reach start s → Step s s' → Reach start s'
