-- ===== src/Chapters/ContextSwitch.antt =====
-- The switch of the second chapter, 02-ContextSwitch/os.c: one task, and a context of 14 registers.
use mini_riscv_os.Common.{ℕ, ◌+◌, ◌-◌, ◌*◌, ◌≡◌, refl, List, [], ◌∷◌, ◌++◌, update, u32, arith}
use mini_riscv_os.Console.{Call, puts}
use mini_riscv_os.Task.{
  Ctx, os, task, Kernel, ra, sp, a0, a1, stack_size, save, load, context, set_context,
}
use mini_riscv_os.Task.Switch.{SameOn}

-- The registers that `ctx_save` of 02-ContextSwitch/sys.s stores, in the order of their words.
abbrev pub saved_words : List ℕ
saved_words = 1 ∷ 2 ∷ 8 ∷ 9 ∷ 18 ∷ 19 ∷ 20 ∷ 21 ∷ 22 ∷ 23 ∷ 24 ∷ 25 ∷ 26 ∷ 27 ∷ []

-- What `lib_puts` was given, and the registers and contexts; `ctx_task` is the context of task 0.
pub record Board : Type 0 where
  pub console : List Call
  pub kernel : Kernel

abbrev pub print : Call → Board → Board
print c b = record b { console = b.console ++ c ∷ [] }

module _ (address : Ctx → ℕ) where
  unfoldable pub switch_contexts : Ctx → Ctx → Kernel → Kernel
  switch_contexts old new s =
      let called : ℕ → ℕ = update (update s.regs a0 (address old)) a1 (address new) in
      let s' : Kernel = set_context old (save saved_words 0 called (context old s)) s in
      let regs : ℕ → ℕ = load saved_words 0 (context new s') called in
      record s' { regs = regs; pc = regs ra }

  -- `os_main` up to the jump of `sys_switch`; `entry` is `user_task0`, `stack` is `task0_stack`.
  unfoldable pub switching_main : ℕ → ℕ → Board → Board
  switching_main entry stack b =
      let told : Board = print (puts "OS start\n") b in
      let k : Kernel = told.kernel in
      let c : ℕ → ℕ =
        update (update (k.ctx_tasks 0) 0 entry) 1 (u32 (stack + 4 * (stack_size - 1))) in
      record told {
        kernel = switch_contexts os (task 0) (record k { ctx_tasks = update k.ctx_tasks 0 c });
      }

-- The task up to its endless loop.
unfoldable pub switched_task0 : Board → Board
switched_task0 b = print (puts "Task0: Context Switch Success !\n") b

-- Loading what was saved gives the saved registers back.
load-save_words :
    (before now ctx : ℕ → ℕ) (x y : ℕ)
    → SameOn saved_words
        (load saved_words 0 (save saved_words 0 (update (update before a0 x) a1 y) ctx) now)
        before
unfolding save load
load-save_words before now ctx x y = omega arith

-- `os_main` arrives at the entry of the task with the last word of the task's stack as its stack
-- pointer, having printed its line; and the context of the kernel gives the registers with which
-- `os_main` ran back to whoever loads it, whatever the registers hold by then.
pub switching_main_lem :
    (address : Ctx → ℕ) (entry stack : ℕ) (b : Board) (now : ℕ → ℕ)
    → ((switching_main address entry stack b).kernel.pc ≡ entry)
      × ((switching_main address entry stack b).kernel.regs sp ≡ u32 (stack + 4 * (stack_size - 1)))
      × ((switching_main address entry stack b).console ≡ b.console ++ puts "OS start\n" ∷ [])
      × SameOn saved_words
          (load saved_words 0 (switching_main address entry stack b).kernel.ctx_os now)
          b.kernel.regs
unfolding switching_main switch_contexts context set_context load
switching_main_lem address entry stack b now = (
  refl,
  refl,
  refl,
  load-save_words b.kernel.regs now b.kernel.ctx_os (address os) (address (task 0)),
)
