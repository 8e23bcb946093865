-- ===== src/Task/Tests.antt =====
-- Switches between the kernel and two tasks.
use mini_riscv_os.Common.{ℕ, ◌+◌, ◌*◌, ◌-◌, ◌≡◌, refl, u32, arith}
use mini_riscv_os.Task.{Ctx, os, task, Kernel, sp, stack_size, task_create, task_go}
use mini_riscv_os.Task.Switch.{task_create-task_go}

address : Ctx → ℕ
address os = 0x80009000
address (task i) = 0x80009040 + 64 * i

abbrev kernel : Kernel
kernel = record {
  regs = λ r. 100 + r;
  pc = 0x80000100;
  ctx_os = λ k. 0;
  ctx_tasks = λ i k. 0;
  ctx_now = os;
  task_top = 0;
}

abbrev created : Kernel
created = (task_create 0x80010000 0x80000400 kernel).1

task_create-task_go_example :
    ((task_go address 0 created).pc ≡ 0x80000400)
    × ((task_go address 0 created).regs sp ≡ u32 (0x80010000 + 0 * stack_size + (stack_size - 1)))
    × (created.ctx_tasks 1 ≡ kernel.ctx_tasks 1)
    × ((task_create 0x80010000 0x80000400 kernel).0 ≡ 0)
    × (created.task_top ≡ 0 + 1)
task_create-task_go_example =
    task_create-task_go address 0x80010000 0x80000400 1 kernel created (omega arith) (omega arith)
      (omega arith) refl

-- A handler that goes on behind the instruction, with the frame as it is.
abbrev skip : (ℕ → ℕ) → ℕ → ℕ × (ℕ → ℕ)
skip frame epc = (epc + 4, frame)
