-- ===== src/Task.antt =====
-- Tasks and context switches: 10-SystemCall/src/task.c, the routines of sys.s that it stands on,
-- and the loop of os.c that gives the tasks their turns.
pub mod Switch
pub mod Frame
pub mod Rounds
mod Tests
use mini_riscv_os.Common.{
  ℕ, zero, suc, ◌+◌, ◌-◌, ◌*◌, ◌%◌, ◌/◌, ◌^◌, Bool, true, false, List, [], ◌∷◌, ◌==◌, if◌then◌else◌,
  update, u32, Option, none, some,
}

abbrev pub max_task : ℕ
max_task = 10

abbrev pub stack_size : ℕ
stack_size = 1024

-- Registers by their numbers.
module _ where
  abbrev pub ra : ℕ
  ra = 1

  abbrev pub sp : ℕ
  sp = 2

  abbrev pub a0 : ℕ
  a0 = 10

  abbrev pub a1 : ℕ
  a1 = 11

  abbrev pub t6 : ℕ
  t6 = 31

-- A `struct context *`: `&ctx_os`, or `&ctx_tasks[i]`.
pub data Ctx : Type 0 where
  os : Ctx
  task : ℕ → Ctx

-- The registers of the hart, the pc, and the variables of task.c. A context is its words. The arrays
-- of contexts and stacks have `max_task` entries, which the code does not check: a context from
-- there on stands for the memory behind the array, and theorems on new tasks ask for fewer.
pub record Kernel : Type 0 where
  pub regs : ℕ → ℕ
  pub pc : ℕ
  pub ctx_os : ℕ → ℕ
  pub ctx_tasks : ℕ → ℕ → ℕ
  pub ctx_now : Ctx
  pub task_top : ℕ

-- The registers that `ctx_save` stores, in the order of their words.
abbrev pub saved : List ℕ
saved = 1 ∷ 2 ∷ 8 ∷ 9 ∷ 18 ∷ 19 ∷ 20 ∷ 21 ∷ 22 ∷ 23 ∷ 24 ∷ 25 ∷ 26 ∷ 27 ∷ 10 ∷ 17 ∷ []

-- `sw r, 4*k(base)` for each register of the list, from word `k` on.
unfoldable pub save : List ℕ → ℕ → (ℕ → ℕ) → (ℕ → ℕ) → ℕ → ℕ
save [] k regs ctx = ctx
save (r ∷ rs) k regs ctx = save rs (k + 1) regs (update ctx k (regs r))

-- `lw r, 4*k(base)`.
unfoldable pub load : List ℕ → ℕ → (ℕ → ℕ) → (ℕ → ℕ) → ℕ → ℕ
load [] k ctx regs = regs
load (r ∷ rs) k ctx regs = load rs (k + 1) ctx (update regs r (ctx k))

unfoldable pub context : Ctx → Kernel → ℕ → ℕ
context os s = s.ctx_os
context (task i) s = s.ctx_tasks i

unfoldable pub set_context : Ctx → (ℕ → ℕ) → Kernel → Kernel
set_context os c s = record s { ctx_os = c }
set_context (task i) c s = record s { ctx_tasks = update s.ctx_tasks i c }

-- `sys_switch(old, new)`: the arguments are in a0 and a1, and `ret` jumps to the new ra.
unfoldable pub sys_switch : (Ctx → ℕ) → Ctx → Ctx → Kernel → Kernel
unfolding save load context set_context
sys_switch address old new s =
    let called : ℕ → ℕ = update (update s.regs a0 (address old)) a1 (address new) in
    let s' : Kernel = set_context old (save saved 0 called (context old s)) s in
    let regs : ℕ → ℕ = load saved 0 (context new s') called in
    record s' { regs = regs; pc = regs ra }

-- `entry` is the function, `stacks` the address of `task_stack`.
unfoldable pub task_create : ℕ → ℕ → Kernel → ℕ × Kernel
task_create stacks entry s =
    let i : ℕ = s.task_top in
    let c : ℕ → ℕ =
      update (update (s.ctx_tasks i) 0 entry) 1
        (u32 (stacks + i * stack_size + (stack_size - 1))) in
    (i, record s { task_top = i + 1; ctx_tasks = update s.ctx_tasks i c })

unfoldable pub task_go : (Ctx → ℕ) → ℕ → Kernel → Kernel
unfolding sys_switch
task_go address i s = sys_switch address os (task i) (record s { ctx_now = task i })

unfoldable pub task_os : (Ctx → ℕ) → Kernel → Kernel
unfolding sys_switch
task_os address s = sys_switch address s.ctx_now os (record s { ctx_now = os })

-- `reg_save` stores these from the frame's first word on; `reg_load` loads one more.
abbrev pub frame_saved : List ℕ
frame_saved =
    1 ∷ 2 ∷ 3 ∷ 4 ∷ 5 ∷ 6 ∷ 7 ∷ 8 ∷ 9 ∷ 10 ∷ 11 ∷ 12 ∷ 13 ∷ 14 ∷ 15 ∷ 16 ∷ 17 ∷ 18 ∷ 19 ∷ 20 ∷ 21
    ∷ 22 ∷ 23 ∷ 24 ∷ 25 ∷ 26 ∷ 27 ∷ 28 ∷ 29 ∷ 30 ∷ []

abbrev pub frame_loaded : List ℕ
frame_loaded =
    1 ∷ 2 ∷ 3 ∷ 4 ∷ 5 ∷ 6 ∷ 7 ∷ 8 ∷ 9 ∷ 10 ∷ 11 ∷ 12 ∷ 13 ∷ 14 ∷ 15 ∷ 16 ∷ 17 ∷ 18 ∷ 19 ∷ 20 ∷ 21
    ∷ 22 ∷ 23 ∷ 24 ∷ 25 ∷ 26 ∷ 27 ∷ 28 ∷ 29 ∷ 30 ∷ 31 ∷ []

-- `trap_vector` round a handler that may change the frame: registers, frame and mepc before, and
-- registers and pc after. Word 31 of the frame takes mepc.
unfoldable pub trap_vector : ((ℕ → ℕ) → ℕ → ℕ × (ℕ → ℕ)) → (ℕ → ℕ) → (ℕ → ℕ) → ℕ → (ℕ → ℕ) × ℕ
unfolding save load
trap_vector handler regs frame mepc =
    let entered : ℕ → ℕ = update (save frame_saved 0 regs frame) 31 mepc in
    let (pc, frame') = handler entered mepc in (load frame_loaded 0 frame' regs, pc)

-- `current_task = (current_task + 1) % taskTop`; the machine's `rem` by 0 is the dividend.
unfoldable pub next_task : ℕ → ℕ → ℕ
next_task current task_top = (current + 1) % task_top

-- The tasks that the loop of `os_main` activates in `rounds` rounds.
unfoldable pub activations : ℕ → ℕ → ℕ → List ℕ
unfolding next_task
activations zero current task_top = []
activations (suc rounds) current task_top =
    current ∷ activations rounds (next_task current task_top) task_top
