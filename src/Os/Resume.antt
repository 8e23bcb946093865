-- ===== src/Os/Resume.antt =====
-- Every task goes on where it left, whatever the others do, and the turns go round.
use mini_riscv_os.Common.{
  ℕ, ◌≡◌, ◌≢◌, refl, sym, ap, ◌∙◌, subst, inl, inr, Option, none, some, List, [], ◌++◌, update,
  update_self, update_ne, eq_or_ne,
}
use mini_riscv_os.Task.{
  Ctx, os, task, Kernel, ra, saved, load, sys_switch, context, set_context, task_go, task_os,
}
use mini_riscv_os.Console.{Call}
use mini_riscv_os.Task.Switch.{SameOn, kept, load-save, called, task_os_regs, task_os_ctx}
use mini_riscv_os.Os.Main.{
  in_kernel, in_task, Turns, activate, os_kernel, Runs, Step, activated, ran, yielded, Reach, here,
  later, loop_struck, strike_loop,
}

-- Loading the context gives these registers back, whatever the processor holds by then.
abbrev pub Holds : (ℕ → ℕ) → (ℕ → ℕ) → Type 0
Holds ctx regs = (now : ℕ → ℕ) → SameOn kept (load saved 0 ctx now) regs

-- The contexts hold what the tasks left, except that of task `running`, if there is one.
abbrev pub Keeps : Option ℕ → Turns → Type 0
Keeps running s =
    (j : ℕ) (regs : ℕ → ℕ)
    → running ≢ some j
    → s.left j ≡ some regs
    → Holds (s.kernel.ctx_tasks j) regs

pub data Inv (s : Turns) : Type 0 where
  kernel_runs : s.mode ≡ in_kernel → Keeps none s → Inv s
  task_runs :
      s.mode ≡ in_task
      → s.kernel.ctx_now ≡ task s.current_task
      → Holds s.kernel.ctx_os s.called
      → Keeps (some s.current_task) s
      → Inv s

some_same {ℓ} : {A : Type ℓ} {x y : A} → some x ≡ some y → x ≡ y
some_same {x = x} e = ap (λ o. elim o [ none ↦ x | some z ↦ z ]) e

module _ (address : Ctx → ℕ) where
  activate-Inv : (regs : ℕ → ℕ) (s : Turns) → Keeps none s → Inv (activate address regs s)
  unfolding activate task_go sys_switch context set_context
  activate-Inv regs s keeps =
      task_runs refl refl
        (λ now. load-save regs now s.kernel.ctx_os (address os) (address (task s.current_task)))
        (λ j r ne e. keeps j r (λ h. cc) e)

  ran-Inv :
      (s : Turns) (k : Kernel) (printed : List Call)
      → s.mode ≡ in_task
      → Runs address s.kernel k
      → Inv s
      → Inv (record s { kernel = k; console = s.console ++ printed })
  ran-Inv s k printed m runs (kernel_runs m' keeps) = absurd (cc)
  ran-Inv s k printed m runs (task_runs m' now holds keeps) =
      task_runs m (runs.ctx_now ∙ now)
        (subst (λ (c : ℕ → ℕ). Holds c s.called) (sym runs.ctx_os) holds)
        (λ j r ne e. subst (λ (c : ℕ → ℕ → ℕ). Holds (c j) r) (sym runs.ctx_tasks) (keeps j r ne e))

  -- The contexts of the other tasks are not touched by `task_os`.
  task_os_others :
      (i j : ℕ) (k : Kernel)
      → k.ctx_now ≡ task i
      → i ≢ j
      → (task_os address k).ctx_tasks j ≡ k.ctx_tasks j
  unfolding task_os sys_switch context set_context
  task_os_others i j k now ne =
      ap (λ (x : Ctx). (sys_switch address x os (record k { ctx_now = os })).ctx_tasks j) now
      ∙ update_ne k.ctx_tasks i j _ ne

  os_kernel-Inv :
      (s : Turns)
      → s.kernel.ctx_now ≡ task s.current_task
      → Keeps (some s.current_task) s
      → Inv (os_kernel address s)
  unfolding os_kernel
  os_kernel-Inv s now keeps = kernel_runs refl after
    where
      i : ℕ
      i = s.current_task

      own : Holds ((task_os address s.kernel).ctx_tasks i) s.kernel.regs
      own =
          subst (λ (c : ℕ → ℕ). Holds c s.kernel.regs) (sym (task_os_ctx address i s.kernel now))
            (λ n. load-save s.kernel.regs n (s.kernel.ctx_tasks i) (address (task i)) (address os))

      after : Keeps none (os_kernel address s)
      after j r ne e = elim (eq_or_ne i j) [
        | inl same ↦
            let mine : s.kernel.regs ≡ r = some_same (
              sym (update_self s.left i (some s.kernel.regs))
              ∙ subst (λ (x : ℕ). update s.left i (some s.kernel.regs) x ≡ some r) (sym same) e) in
            subst (λ (x : ℕ). Holds ((task_os address s.kernel).ctx_tasks x) r) same
              (subst (Holds ((task_os address s.kernel).ctx_tasks i)) mine own)
        | inr other ↦
            subst (λ (c : ℕ → ℕ). Holds c r) (sym (task_os_others i j s.kernel now other))
              (keeps j r (λ h. other (some_same h))
                (sym (update_ne s.left i j (some s.kernel.regs) other) ∙ e))
      ]

  -- A switch from the kernel to itself leaves the tasks alone.
  pub task_os-ctx_tasks :
      (k : Kernel) → k.ctx_now ≡ os → (task_os address k).ctx_tasks ≡ k.ctx_tasks
  unfolding task_os sys_switch context set_context
  task_os-ctx_tasks k now =
      ap (λ (x : Ctx). (sys_switch address x os (record k { ctx_now = os })).ctx_tasks) now

  strike_loop-Inv :
      (s : Turns) (regs : ℕ → ℕ) (c : ℕ) (printed : List Call)
      → s.mode ≡ in_kernel
      → s.kernel.ctx_now ≡ os
      → Keeps none s
      → Inv (strike_loop address regs c printed s)
  unfolding strike_loop
  strike_loop-Inv s regs c printed m now keeps = kernel_runs m (λ j r ne e.
      subst (λ (x : ℕ → ℕ → ℕ). Holds (x j) r)
        (sym (task_os-ctx_tasks (record s.kernel { regs = regs }) now)) (keeps j r ne e))

  Step-Inv : {Lands : ℕ → ℕ → Type 0} {s s' : Turns} → Step address Lands s s' → Inv s → Inv s'
  Step-Inv (loop_struck s regs c printed m now l) (kernel_runs m' keeps) =
      strike_loop-Inv s regs c printed m now keeps
  Step-Inv (loop_struck s regs c printed m now l) (task_runs m' n holds keeps) = absurd (cc)
  Step-Inv (activated s regs m) (kernel_runs m' keeps) = activate-Inv regs s keeps
  Step-Inv (activated s regs m) (task_runs m' now holds keeps) = absurd (cc)
  Step-Inv (ran s k printed m runs) inv = ran-Inv s k printed m runs inv
  Step-Inv (yielded s m) (kernel_runs m' keeps) = absurd (cc)
  Step-Inv (yielded s m) (task_runs m' now holds keeps) = os_kernel-Inv s now keeps

-- The loop before its first round, with tasks that have not run.
pub record IsStart (s : Turns) : Type 0 where
  pub mode : s.mode ≡ in_kernel
  pub left : (j : ℕ) → s.left j ≡ none
  pub turns : s.turns ≡ []

module _ (address : Ctx → ℕ) where
  Reach-Inv :
      {Lands : ℕ → ℕ → Type 0} {s s' : Turns} → IsStart s → Reach address Lands s s' → Inv s'
  Reach-Inv st here = kernel_runs st.mode (λ j r ne e. let never = st.left j in absurd (cc))
  Reach-Inv st (later r step) = Step-Inv address step (Reach-Inv st r)

  -- However the turns went before, if the tasks leave the variables of task.c alone and the timer
  -- strikes the loop itself, if at all, outside of `task_go` and `task_os`: a task whose last turn
  -- ended in a call of `task_os`, its own or one that a timer interrupt forced, goes on where that
  -- call returns to, with the registers that a caller relies on, when the loop activates it again.
  pub resumes :
      {Lands : ℕ → ℕ → Type 0} {s0 s : Turns} {left : ℕ → ℕ} (regs : ℕ → ℕ)
      → IsStart s0
      → Reach address Lands s0 s
      → s.mode ≡ in_kernel
      → s.left s.current_task ≡ some left
      → SameOn kept (activate address regs s).kernel.regs left
        × ((activate address regs s).kernel.pc ≡ left ra)
  unfolding activate task_go sys_switch context set_context
  resumes {s = s} {left} regs st r m e = go (Reach-Inv st r)
    where
      go :
          Inv s
          → SameOn kept (activate address regs s).kernel.regs left
            × ((activate address regs s).kernel.pc ≡ left ra)
      go (task_runs m' now holds keeps) = absurd (cc)
      go (kernel_runs m' keeps) =
          let l =
            keeps s.current_task left (λ h. cc) e (called address os (task s.current_task) regs) in
          (l, l.0)

  -- However the turns went, if the tasks leave the variables of task.c alone and the timer strikes
  -- the loop itself, if at all, outside of `task_go` and `task_os`: when a task gives the processor
  -- back, the loop goes on where its call of `task_go` returns to, with the registers that a caller
  -- relies on.
  pub returns :
      {Lands : ℕ → ℕ → Type 0} {s0 s : Turns}
      → IsStart s0
      → Reach address Lands s0 s
      → s.mode ≡ in_task
      → SameOn kept (os_kernel address s).kernel.regs s.called
        × ((os_kernel address s).kernel.pc ≡ s.called ra)
  unfolding os_kernel task_os sys_switch
  returns {s = s} st r m = go (Reach-Inv st r)
    where
      go :
          Inv s
          → SameOn kept (os_kernel address s).kernel.regs s.called
            × ((os_kernel address s).kernel.pc ≡ s.called ra)
      go (kernel_runs m' keeps) = absurd (cc)
      go (task_runs m' now holds keeps) =
          let i : ℕ = s.current_task in
          subst (λ (rs : ℕ → ℕ). SameOn kept rs s.called × (rs ra ≡ s.called ra))
            (sym (task_os_regs address i s.kernel s.kernel.ctx_os now refl))
            (let l = holds (called address (task i) os s.kernel.regs) in (l, l.0))
