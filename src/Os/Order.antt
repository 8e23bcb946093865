-- ===== src/Os/Order.antt =====
-- The turns of the loop of `os_main` go round the tasks, in every run.
use mini_riscv_os.Common.{
  ℕ, zero, suc, ◌+◌, ◌%◌, ◌<◌, ◌≡◌, refl, sym, ap, ◌∙◌, List, [], ◌∷◌, ◌++◌, length, length-append,
  arith,
}
use native.Mathlib.Nat.{mod-add-mod, mod-eq_of_lt}
use mini_riscv_os.Console.{Call}
use mini_riscv_os.Task.{
  Ctx, os, task, Kernel, sys_switch, context, set_context, task_go, task_os, next_task,
}
use mini_riscv_os.Os.Main.{
  Mode, in_kernel, in_task, Turns, activate, os_kernel, Step, activated, ran, yielded, Reach, here,
  later, loop_struck, strike_loop,
}
use mini_riscv_os.Os.Resume.{IsStart}

-- `rounds` turns that go round `top` tasks, counted from the first one.
unfoldable pub round_robin : ℕ → ℕ → ℕ → List ℕ
round_robin zero first top = []
round_robin (suc rounds) first top = round_robin rounds first top ++ (first + rounds) % top ∷ []

set_context-task_top :
    (c : Ctx) (x : ℕ → ℕ) (k : Kernel) → (set_context c x k).task_top ≡ k.task_top
unfolding set_context
set_context-task_top os x k = refl
set_context-task_top (task i) x k = refl

task_os-task_top : (address : Ctx → ℕ) (k : Kernel) → (task_os address k).task_top ≡ k.task_top
unfolding task_os sys_switch
task_os-task_top address k = set_context-task_top k.ctx_now _ _

-- The task of the next activation, by the mode.
abbrev upcoming : Mode → ℕ → ℕ → ℕ
upcoming in_kernel current top = current
upcoming in_task current top = next_task current top

pub record InOrder (first top : ℕ) (s : Turns) : Type 0 where
  pub turns : s.turns ≡ round_robin (length s.turns) first top
  pub upcoming : upcoming s.mode s.current_task top ≡ (first + length s.turns) % top
  pub task_top : s.kernel.task_top ≡ top

module _ (address : Ctx → ℕ) (first top : ℕ) (some_task : first < top) {Lands : ℕ → ℕ → Type 0}
    (lands : (i c : ℕ) → Lands i c → c ≡ i) where
  activate-InOrder :
      (regs : ℕ → ℕ) (s : Turns)
      → s.mode ≡ in_kernel
      → InOrder first top s
      → InOrder first top (activate address regs s)
  unfolding activate task_go sys_switch context set_context next_task round_robin
  activate-InOrder regs s m o =
      let n : ℕ = length s.turns in
      let turn : s.current_task ≡ (first + n) % top =
        ap (λ (x : Mode). upcoming x s.current_task top) (sym m) ∙ o.upcoming in
      let longer : length (s.turns ++ s.current_task ∷ []) ≡ suc n =
        length-append s.turns (s.current_task ∷ []) ∙ omega arith in
      record {
        turns =
            ap (λ (l : List ℕ). l ++ s.current_task ∷ []) o.turns
            ∙ ap (λ (k : ℕ). round_robin n first top ++ k ∷ []) turn
            ∙ ap (λ (k : ℕ). round_robin k first top) (sym longer);
        upcoming =
            ap (λ (k : ℕ). (k + 1) % top) turn
            ∙ mod-add-mod (first + n) top 1
            ∙ ap (λ (k : ℕ). k % top) (omega (arith, longer));
        task_top = o.task_top;
      }

  os_kernel-InOrder :
      (s : Turns) → s.mode ≡ in_task → InOrder first top s → InOrder first top (os_kernel address s)
  unfolding os_kernel
  os_kernel-InOrder s m o = record {
    turns = o.turns;
    upcoming =
        ap (λ (k : ℕ). next_task s.current_task k) o.task_top
        ∙ ap (λ (x : Mode). upcoming x s.current_task top) (sym m)
        ∙ o.upcoming;
    task_top = task_os-task_top address s.kernel ∙ o.task_top;
  }

  strike_loop-InOrder :
      (s : Turns) (regs : ℕ → ℕ) (c : ℕ) (printed : List Call)
      → c ≡ s.current_task
      → InOrder first top s
      → InOrder first top (strike_loop address regs c printed s)
  unfolding strike_loop
  strike_loop-InOrder s regs c printed e o = record {
    turns = o.turns;
    upcoming = ap (λ (x : ℕ). upcoming s.mode x top) e ∙ o.upcoming;
    task_top = task_os-task_top address (record s.kernel { regs = regs }) ∙ o.task_top;
  }

  Step-InOrder :
      {s s' : Turns} → Step address Lands s s' → InOrder first top s → InOrder first top s'
  Step-InOrder (loop_struck s regs c printed m now l) o =
      strike_loop-InOrder s regs c printed (lands s.current_task c l) o
  Step-InOrder (activated s regs m) o = activate-InOrder regs s m o
  Step-InOrder (ran s k printed m runs) o = record {
    turns = o.turns;
    upcoming = o.upcoming;
    task_top = runs.task_top ∙ o.task_top;
  }
  Step-InOrder (yielded s m) o = os_kernel-InOrder s m o

  start-InOrder :
      (s : Turns)
      → IsStart s
      → s.current_task ≡ first
      → s.kernel.task_top ≡ top
      → InOrder first top s
  unfolding round_robin
  start-InOrder s st c t = record {
    turns = st.turns ∙ ap (λ (l : List ℕ). round_robin (length l) first top) (sym st.turns);
    upcoming =
        ap (λ (x : Mode). upcoming x s.current_task top) st.mode
        ∙ c
        ∙ sym (
            ap (λ (l : List ℕ). (first + length l) % top) st.turns
            ∙ ap (λ (x : ℕ). x % top) (omega arith)
            ∙ mod-eq_of_lt some_task);
    task_top = t;
  }

  Reach-InOrder :
      {s s' : Turns} → InOrder first top s → Reach address Lands s s' → InOrder first top s'
  Reach-InOrder o here = o
  Reach-InOrder o (later r step) = Step-InOrder step (Reach-InOrder o r)

  pub turns_go_round :
      {s0 s : Turns}
      → IsStart s0
      → s0.current_task ≡ first
      → s0.kernel.task_top ≡ top
      → Reach address Lands s0 s
      → s.turns ≡ round_robin (length s.turns) first top
  turns_go_round {s0} st c t r = (Reach-InOrder (start-InOrder s0 st c t) r).turns
