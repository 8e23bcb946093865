-- ===== src/Os/Prologue/Alternate.antt =====
-- The loop of `os_main` of 10-SystemCall/src/os.c after the start: its two tasks take turns.
use mini_riscv_os.Common.{ℕ, ◌≡◌, refl, ap, ◌∙◌, length, arith}
use mini_riscv_os.Uart.{Device}
use mini_riscv_os.Task.{Ctx, Kernel, task_create}
use mini_riscv_os.Os.{Image, System, user_init}
use mini_riscv_os.Os.Main.{Turns, Reach}
use mini_riscv_os.Os.Resume.{IsStart}
use mini_riscv_os.Os.Order.{round_robin, turns_go_round}
use mini_riscv_os.Os.Prologue.{loop_start}
use mini_riscv_os.Os.Prologue.Booted.{IsBooted}

loop_start-IsStart : {u : Device} (s : System u) → IsStart (loop_start s)
unfolding loop_start
loop_start-IsStart s = record { mode = refl; left = λ j. refl; turns = refl }

-- In every run of the loop from a kernel that has started with no task before, in which the timer
-- strikes the loop itself only where that changes no `current_task`, the two tasks of
-- user_init have their turns one after the other, from the first one on.
pub booted_turns :
    {u : Device} {image : Image} {bytes : ℕ → ℕ} {s e : System u} {Lands : ℕ → ℕ → Type 0}
    (address : Ctx → ℕ) {t : Turns}
    → ((i c : ℕ) → Lands i c → c ≡ i)
    → IsBooted image bytes s e
    → s.kernel.task_top ≡ 0
    → Reach address Lands (loop_start e) t
    → t.turns ≡ round_robin (length t.turns) 0 2
unfolding loop_start user_init task_create
booted_turns {e = e} address lands booted none_before r =
    turns_go_round address 0 2 (omega arith) lands (loop_start-IsStart e) refl
      (ap (λ (k : Kernel). k.task_top) booted.kernel ∙ omega (arith, none_before)) r
