-- ===== src/Task/Switch.antt =====
-- What a context switch keeps, and where a new task starts: sys_switch of
-- 10-SystemCall/src/sys.s under task_go, task_os and task_create of 10-SystemCall/src/task.c.
use mini_riscv_os.Common.{
  ℕ, ◌+◌, ◌-◌, ◌*◌, ◌<◌, ◌≡◌, refl, sym, subst, ◌∙◌, ap, ◌≢◌, List, [], ◌∷◌, u32, update,
  update_self, arith, update_ne,
}
use mini_riscv_os.Task.{
  Ctx, os, task, Kernel, ra, sp, a0, a1, stack_size, max_task, save, load, context, set_context,
  sys_switch, task_create, task_go, task_os, saved,
}

-- The registers that a function must keep for its caller, with ra, sp and a7.
abbrev pub kept : List ℕ
kept = 1 ∷ 2 ∷ 8 ∷ 9 ∷ 18 ∷ 19 ∷ 20 ∷ 21 ∷ 22 ∷ 23 ∷ 24 ∷ 25 ∷ 26 ∷ 27 ∷ 17 ∷ []

abbrev pub SameOn : List ℕ → (ℕ → ℕ) → (ℕ → ℕ) → Type 0
SameOn [] f g = Unit {0}
SameOn (r ∷ rs) f g = (f r ≡ g r) × SameOn rs f g

-- Loading what was saved gives the registers back, whatever else they hold by then.
pub load-save :
    (before after ctx : ℕ → ℕ) (x y : ℕ)
    → SameOn kept (load saved 0 (save saved 0 (update (update before a0 x) a1 y) ctx) after) before
unfolding save load
load-save before after ctx x y = omega arith

module _ (address : Ctx → ℕ) where
  abbrev pub called : Ctx → Ctx → (ℕ → ℕ) → ℕ → ℕ
  called old new regs = update (update regs a0 (address old)) a1 (address new)

  pub task_os_regs :
      (i : ℕ) (s : Kernel) (c : ℕ → ℕ)
      → s.ctx_now ≡ task i
      → s.ctx_os ≡ c
      → (task_os address s).regs ≡ load saved 0 c (called (task i) os s.regs)
  unfolding task_os sys_switch context set_context
  task_os_regs i s c now e =
      ap (λ (x : Ctx). (sys_switch address x os (record s { ctx_now = os })).regs) now
      ∙ ap (λ (x : ℕ → ℕ). load saved 0 x (called (task i) os s.regs)) e

  pub task_os_ctx :
      (i : ℕ) (s : Kernel)
      → s.ctx_now ≡ task i
      → (task_os address s).ctx_tasks i ≡ save saved 0 (called (task i) os s.regs) (s.ctx_tasks i)
  unfolding task_os sys_switch context set_context
  task_os_ctx i s now =
      ap (λ (x : Ctx). (sys_switch address x os (record s { ctx_now = os })).ctx_tasks i) now
      ∙ update_self s.ctx_tasks i (save saved 0 (called (task i) os s.regs) (s.ctx_tasks i))

  pub task_go_regs :
      (i : ℕ) (s : Kernel) (c : ℕ → ℕ)
      → s.ctx_tasks i ≡ c
      → (task_go address i s).regs ≡ load saved 0 c (called os (task i) s.regs)
  unfolding task_go sys_switch context set_context
  task_go_regs i s c e = ap (λ (x : ℕ → ℕ). load saved 0 x (called os (task i) s.regs)) e

  -- When the task that `task_go` activated gives the processor back, by whatever code, and nobody
  -- has written the kernel's context or `ctx_now`, the kernel goes on where it called `task_go`,
  -- with the registers its caller relies on.
  pub task_go-task_os :
      (i : ℕ) (s s2 : Kernel)
      → s2.ctx_now ≡ task i
      → s2.ctx_os ≡ (task_go address i s).ctx_os
      → SameOn kept (task_os address s2).regs s.regs × ((task_os address s2).pc ≡ s.regs ra)
  unfolding task_os sys_switch task_go context set_context
  task_go-task_os i s s2 now e =
      let r = sym (task_os_regs i s2 (save saved 0 (called os (task i) s.regs) s.ctx_os) now e) in
      subst (λ (rs : ℕ → ℕ). SameOn kept rs s.regs × (rs ra ≡ s.regs ra)) r
        (let l =
            load-save s.regs (called (task i) os s2.regs) s.ctx_os (address os)
              (address (task i)) in
          (l, l.0))

  -- When task `i` gives the processor back and is activated again later, in whatever state, it goes
  -- on where it called `task_os`, with the registers it relies on, if nobody has written its context
  -- in between; and it is the running task.
  pub task_os-task_go :
      (i : ℕ) (s s2 : Kernel)
      → s.ctx_now ≡ task i
      → s2.ctx_tasks i ≡ (task_os address s).ctx_tasks i
      → SameOn kept (task_go address i s2).regs s.regs
        × ((task_go address i s2).pc ≡ s.regs ra)
        × ((task_go address i s2).ctx_now ≡ task i)
  unfolding task_go sys_switch context set_context
  task_os-task_go i s s2 now e =
      let c = save saved 0 (called (task i) os s.regs) (s.ctx_tasks i) in
      let r = sym (task_go_regs i s2 c (e ∙ task_os_ctx i s now)) in
      subst
        (λ (rs : ℕ → ℕ).
          SameOn kept rs s.regs × (rs ra ≡ s.regs ra) × ((task_go address i s2).ctx_now ≡ task i))
        r
        (let l =
            load-save s.regs (called os (task i) s2.regs) (s.ctx_tasks i) (address (task i))
              (address os) in
          (l, l.0, refl))

  -- One of the first ten tasks that `task_create` made starts, when it is activated with its context
  -- untouched, at its entry, with the last byte of its own part of `task_stack` as its stack pointer; the contexts of
  -- the other ten are kept, and the next task gets the next number.
  pub task_create-task_go :
      (stacks entry j : ℕ) (s s2 : Kernel)
      → s.task_top < max_task
      → j < max_task
      → j ≢ s.task_top
      → s2.ctx_tasks s.task_top ≡ (task_create stacks entry s).1.ctx_tasks s.task_top
      → ((task_go address s.task_top s2).pc ≡ entry)
        × ((task_go address s.task_top s2).regs sp
            ≡ u32 (stacks + s.task_top * stack_size + (stack_size - 1)))
        × ((task_create stacks entry s).1.ctx_tasks j ≡ s.ctx_tasks j)
        × ((task_create stacks entry s).0 ≡ s.task_top)
        × ((task_create stacks entry s).1.task_top ≡ s.task_top + 1)
  unfolding task_create task_go sys_switch context set_context load
  task_create-task_go stacks entry j s s2 room other ne e =
      let own = e ∙ update_self s.ctx_tasks s.task_top _ in
      (
        ap (λ (x : ℕ → ℕ). x 0) own,
        ap (λ (x : ℕ → ℕ). x 1) own,
        update_ne s.ctx_tasks s.task_top j _ (λ h. ne (sym h)),
        refl,
        refl,
      )
