-- ===== src/Task/Rounds.antt =====
-- The order of the turns: the loop of os_main in 10-SystemCall/src/os.c.
use mini_riscv_os.Common.{ℕ, zero, suc, ◌+◌, ◌-◌, ◌%◌, ◌<◌, ◌≡◌, ◌∙◌, ap, sym, arith, get_or}
use native.Mathlib.Nat.{mod-eq_of_lt, mod-lt, mod-add-mod, add-mod-mod, add-mod_right}
use mini_riscv_os.Task.{next_task, activations}

-- In the round `k` of `rounds`, the loop activates the task `k` after the one it started with,
-- counted round the tasks that were created, if there is one and the loop starts with a task that
-- was created.
pub activations_lem :
    (rounds k current task_top : ℕ)
    → current < task_top
    → k < rounds
    → get_or (activations rounds current task_top) k 0 ≡ (current + k) % task_top
unfolding activations next_task
activations_lem zero k current task_top c h = omega arith
activations_lem (suc rounds) zero current task_top c h =
    sym (ap (λ (x : ℕ). x % task_top) (omega arith) ∙ mod-eq_of_lt c)
activations_lem (suc rounds) (suc k) current task_top c h =
    activations_lem rounds k (next_task current task_top) task_top
      (mod-lt (current + 1) (omega arith)) (omega arith)
    ∙ mod-add-mod (current + 1) task_top k
    ∙ ap (λ (x : ℕ). x % task_top) (omega arith)

-- Within as many rounds as there are tasks, each of them gets a turn, if the loop starts with a task
-- that was created.
pub every_task_runs :
    (i current task_top : ℕ)
    → current < task_top
    → i < task_top
    → (k : ℕ) × (k < task_top) × (get_or (activations task_top current task_top) k 0 ≡ i)
every_task_runs i current task_top c h =
    let k = i + (task_top - current) in
    (
      k % task_top,
      mod-lt k (omega arith),
      activations_lem task_top (k % task_top) current task_top c (mod-lt k (omega arith))
          ∙ add-mod-mod current k task_top
          ∙ ap (λ (x : ℕ). x % task_top) (omega arith)
          ∙ add-mod_right i task_top
          ∙ mod-eq_of_lt h,
    )
