-- ===== src/Chapters/MultiTasking.antt =====
-- The tasks of the third chapter, which give the processor back by themselves: os.c and user.c of
-- 03-MultiTasking. A switch of contexts continues a task where it called `os_kernel` last.
use mini_riscv_os.Common.{
  ℕ, zero, suc, ◌+◌, ◌%◌, ◌≡◌, refl, sym, ap, ◌⊎◌, inl, inr, ◌∙◌, List, [], ◌∷◌, ◌++◌, update, ◌==◌,
  if◌then◌else◌, arith,
}
use mathlib.Core.List.{append-nil, append_assoc}
use mini_riscv_os.Console.{Call, puts}
use mini_riscv_os.Task.{next_task}

pub data Entry : Type 0 where
  user_task0 user_task1 : Entry

-- Where a task goes on: at its entry, or after a call of `os_kernel`, of which the one before the
-- loop and the one in it are followed by the same code.
pub data Place : Type 0 where
  at_entry in_loop : Place

pub record Coop : Type 0 where
  pub current_task : ℕ
  pub task_top : ℕ
  pub entry : ℕ → Entry
  pub place : ℕ → Place
  pub console : List Call

abbrev pub print : List Call → Coop → Coop
print cs s = record s { console = s.console ++ cs }

unfoldable pub create : Entry → Coop → Coop
create e s = record s {
  task_top = s.task_top + 1;
  entry = update s.entry s.task_top e;
  place = update s.place s.task_top at_entry;
}

-- What a task prints up to its next call of `os_kernel`.
unfoldable pub task_lines : Entry → Place → List Call
task_lines user_task0 at_entry =
    puts "Task0: Created!\n" ∷ puts "Task0: Now, return to kernel mode\n" ∷ []
task_lines user_task0 in_loop = puts "Task0: Running...\n" ∷ []
task_lines user_task1 at_entry =
    puts "Task1: Created!\n" ∷ puts "Task1: Now, return to kernel mode\n" ∷ []
task_lines user_task1 in_loop = puts "Task1: Running...\n" ∷ []

-- `task_go`: the task runs until it calls `os_kernel`.
unfoldable pub coop_go : ℕ → Coop → Coop
unfolding task_lines
coop_go i s = record (print (task_lines (s.entry i) (s.place i)) s) {
  place = update s.place i in_loop;
}

unfoldable pub coop_user_init : Coop → Coop
unfolding create
coop_user_init s = create user_task1 (create user_task0 s)

unfoldable pub coop_start : Coop → Coop
unfolding coop_user_init
coop_start s = coop_user_init (print (puts "OS start\n" ∷ []) s)

-- One round of the loop of `os_main`.
unfoldable pub coop_round : Coop → Coop
unfolding coop_go
coop_round s =
    let back : Coop =
      print (puts "OS: Back to OS\n" ∷ [])
        (coop_go s.current_task (print (puts "OS: Activate next task\n" ∷ []) s)) in
    print (puts "\n" ∷ [])
      (record back { current_task = next_task back.current_task back.task_top })

unfoldable pub coop_loop : ℕ → Coop → Coop
unfolding coop_round
coop_loop zero s = s
coop_loop (suc rounds) s = coop_loop rounds (coop_round s)

-- `os_main` in so many rounds of its loop.
unfoldable pub coop_main : ℕ → Coop → Coop
unfolding coop_start coop_loop
coop_main rounds s = coop_loop rounds (record (coop_start s) { current_task = 0 })

-- What one turn prints.
abbrev pub turn : List Call → List Call
turn lines = puts "OS: Activate next task\n" ∷ lines ++ puts "OS: Back to OS\n" ∷ puts "\n" ∷ []

-- The turns from the `k`-th on, by tasks that are in their loops.
abbrev pub loop_turns : ℕ → ℕ → List Call
loop_turns k zero = []
loop_turns k (suc n) =
    turn (puts (if k % 2 == 0 then "Task0: Running...\n" else "Task1: Running...\n") ∷ [])
    ++ loop_turns (k + 1) n

-- Both tasks are in their loops, and the next turn is the `k`-th.
record IsLooping (k : ℕ) (s : Coop) : Type 0 where
  top : s.task_top ≡ 2
  current : s.current_task ≡ k % 2
  first : (s.entry 0 ≡ user_task0) × (s.place 0 ≡ in_loop)
  second : (s.entry 1 ≡ user_task1) × (s.place 1 ≡ in_loop)

-- The calls of one round, printed one after the other, are a turn.
turn_lem :
    (before lines : List Call)
    → (((before ++ puts "OS: Activate next task\n" ∷ []) ++ lines) ++ puts "OS: Back to OS\n" ∷ [])
        ++ puts "\n" ∷ []
      ≡ before ++ turn lines
turn_lem before lines =
    append_assoc ((before ++ puts "OS: Activate next task\n" ∷ []) ++ lines) _ _
    ∙ append_assoc (before ++ puts "OS: Activate next task\n" ∷ []) lines _
    ∙ append_assoc before _ _

even_or_odd : (k : ℕ) → (k % 2 ≡ 0) ⊎ (k % 2 ≡ 1)
even_or_odd k = omega arith

coop_round-IsLooping :
    (k : ℕ) (s : Coop)
    → IsLooping k s
    → IsLooping (k + 1) (coop_round s) × ((coop_round s).console ≡ s.console ++ loop_turns k 1)
unfolding coop_round coop_go task_lines next_task
coop_round-IsLooping k s l = elim (even_or_odd k) [
  | inl e ↦
      let c : s.current_task ≡ 0 = l.current ∙ e in
      (
        record {
          top = l.top;
          current = rw (c, l.top) (omega (arith, e));
          first = (l.first.0, rw c refl);
          second = (l.second.0, rw c l.second.1);
        },
        rw (c, l.first.0, l.first.1, e) (turn_lem s.console _),
      )
  | inr e ↦
      let c : s.current_task ≡ 1 = l.current ∙ e in
      (
        record {
          top = l.top;
          current = rw (c, l.top) (omega (arith, e));
          first = (l.first.0, rw c l.first.1);
          second = (l.second.0, rw c refl);
        },
        rw (c, l.second.0, l.second.1, e) (turn_lem s.console _),
      )
]

coop_loop-IsLooping :
    (n k : ℕ) (s : Coop) → IsLooping k s → (coop_loop n s).console ≡ s.console ++ loop_turns k n
unfolding coop_loop
coop_loop-IsLooping zero k s l = sym (append-nil s.console)
coop_loop-IsLooping (suc n) k s l =
    let (next, printed) = coop_round-IsLooping k s l in
    coop_loop-IsLooping n (k + 1) (coop_round s) next
    ∙ (rw printed (append_assoc s.console (loop_turns k 1) (loop_turns (k + 1) n)))

-- A kernel without tasks after `os_start` and two rounds.
abbrev two_rounds : Coop → Coop
two_rounds s =
    coop_round (coop_round (record (coop_start (record s { task_top = 0 })) { current_task = 0 }))

two_rounds-IsLooping : (s : Coop) → IsLooping 0 (two_rounds s)
unfolding coop_start coop_user_init create coop_round coop_go next_task
two_rounds-IsLooping s = record {
  top = refl;
  current = refl;
  first = (refl, refl);
  second = (refl, refl);
}

two_rounds-console :
    (s : Coop) (rest : List Call)
    → (two_rounds s).console ++ rest
      ≡ s.console
        ++ puts "OS start\n" ∷ turn (task_lines user_task0 at_entry)
        ++ turn (task_lines user_task1 at_entry)
        ++ rest
unfolding coop_start coop_user_init create coop_round coop_go next_task task_lines
two_rounds-console s rest =
    let c0 : List Call = s.console ++ puts "OS start\n" ∷ [] in
    let first : List Call = task_lines user_task0 at_entry in
    let second : List Call = task_lines user_task1 at_entry in
    ap (λ (c : List Call). c ++ rest) (turn_lem _ second)
    ∙ ap (λ (c : List Call). (c ++ turn second) ++ rest) (turn_lem c0 first)
    ∙ ap (λ (c : List Call). (c ++ turn second) ++ rest)
        (append_assoc s.console (puts "OS start\n" ∷ []) (turn first))

-- `os_main` on a kernel without tasks: each task has a first turn, in which it says that it was
-- created, and from then on the tasks take turns in their loops, for ever.
pub coop_main_lem :
    (n : ℕ) (s : Coop)
    → s.task_top ≡ 0
    → (coop_main (suc (suc n)) s).console
      ≡ s.console
        ++ puts "OS start\n" ∷ turn (task_lines user_task0 at_entry)
        ++ turn (task_lines user_task1 at_entry)
        ++ loop_turns 0 n
unfolding coop_main coop_loop
coop_main_lem n s empty =
    let fresh : Coop = record s { task_top = 0 } in
    ap (λ (t : ℕ). (coop_main (suc (suc n)) (record s { task_top = t })).console) empty
    ∙ coop_loop-IsLooping n 0 (two_rounds s) (two_rounds-IsLooping s)
    ∙ two_rounds-console s (loop_turns 0 n)
