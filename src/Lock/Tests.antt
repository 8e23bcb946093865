-- ===== src/Lock/Tests.antt =====
-- Two tasks that add to the shared variable, and one that takes the lock now and then.
use mini_riscv_os.Common.{
  ℕ, ◌+◌, ◌%◌, ◌^◌, ◌≤◌, ◌≡◌, refl, true, false, List, [], ◌∷◌, ◌==◌, if◌then◌else◌, ltb, arith,
}
use mini_riscv_os.Lock.{
  Pc, at_lock, reading, trying, elsewhere, move, System, turn, strike, run, Reach, here, later,
  moved, struck, start, lock_free, atomic_swap,
}
use mini_riscv_os.Lock.Safety.{critical, NeverInto, mutual_exclusion, no_lost_update}
use mini_riscv_os.Lock.Progress.{waits, repeated, Stays, gets_in}

abbrev tasks : ℕ → Pc
tasks t = if ltb t 2 then at_lock 0 else if t == 2 then trying else elsewhere

tasks_quiet : (t : ℕ) → critical (tasks t) ≡ false
tasks_quiet t = ground arith

-- Task 0 takes the lock, the others try in vain, task 0 reads and stores, leaves, and task 1 enters.
abbrev turns : List ℕ
turns = 0 ∷ 1 ∷ 2 ∷ 0 ∷ 1 ∷ 0 ∷ 0 ∷ 1 ∷ 2 ∷ 1 ∷ []

abbrev second : ℕ
second = 1

-- A task that is struck outside goes on outside, and the others stay.
abbrev Outside : Pc → Pc → Type 0
Outside p q = (critical p ≡ false) × (critical q ≡ false)

Outside-NeverInto : NeverInto Outside
Outside-NeverInto p q l c = let out = l.1 in absurd (cc)

Outside-Stays : Stays Outside
Outside-Stays p q l c = let out = l.0 in absurd (cc)

run-Reach : (ts : List ℕ) {s0 s : System} → Reach Outside s0 s → Reach Outside s0 (run ts s)
unfolding run
run-Reach [] r = r
run-Reach (t ∷ ts) {s = s} r = run-Reach ts (later r (moved t s))

-- The turns, and then the third task is struck and waits on.
abbrev after : System
after = strike 2 trying (run turns (start tasks))

after-Reach : Reach Outside (start tasks) after
unfolding run turn move atomic_swap lock_free
after-Reach = later (run-Reach turns here) (struck 2 (run turns (start tasks)) trying (refl, refl))

one_inside : critical (after.pc second) ≡ true
unfolding run turn move atomic_swap lock_free strike
one_inside = refl

mutual_exclusion_example : critical (after.pc 0) ≡ false
mutual_exclusion_example =
    mutual_exclusion Outside-NeverInto tasks tasks_quiet after-Reach second 0 (omega arith)
      one_inside

after-waits : waits (after.pc 2) ≡ true
unfolding run turn move atomic_swap lock_free strike
after-waits = refl

gets_in_example : (u n : ℕ) × (n ≤ 3) × (critical ((turn 2 (run (repeated n u) after)).pc 2) ≡ true)
gets_in_example = gets_in tasks 2 Outside-Stays tasks_quiet after-Reach after-waits

no_lost_update_example : after.mem.shared_var ≡ (500 + after.mem.count) % 2 ^ 32
no_lost_update_example = no_lost_update Outside-NeverInto tasks tasks_quiet after-Reach

-- A task goes on behind the call at whose entry it was struck, or where it stopped.
data BehindCall : Pc → Pc → Type 0 where
  stayed : (p : Pc) → BehindCall p p
  behind : (i : ℕ) → BehindCall (at_lock i) (reading i)
