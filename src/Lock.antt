-- ===== src/Lock.antt =====
-- The spin lock of 10-SystemCall/src/lock.c with `atomic_swap` of sys.s, and the tasks of
-- 10-SystemCall/src/user.c that share it, in any order of their moves. Where a task goes on that the
-- timer strikes depends on its register ra, and so on the compiler: it is a parameter.
pub mod Safety
pub mod Progress
mod Tests
use mini_riscv_os.Common.{
  ℕ, zero, suc, ◌+◌, ◌^◌, ◌%◌, Bool, true, false, List, [], ◌∷◌, ◌++◌, ltb, ◌==◌, if◌then◌else◌,
  update, Run, ok, hang, u32,
}

-- The word `locked` of a lock is all that it holds.
unfoldable pub lock_init : ℕ → ℕ
lock_init locked = 0

-- The value that was there, and the new one.
unfoldable pub atomic_swap : ℕ → ℕ × ℕ
atomic_swap locked = (locked, 1)

-- The loop of `lock_acquire` while nobody else runs, on fuel.
unfoldable pub lock_acquire : ℕ → ℕ → Run ℕ
unfolding atomic_swap
lock_acquire zero locked = hang
lock_acquire (suc fuel) locked =
    let rest : Run ℕ = lock_acquire fuel (atomic_swap locked).1 in
    if (atomic_swap locked).0 == 0 then ok (atomic_swap locked).1 else rest

unfoldable pub lock_free : ℕ → ℕ
lock_free locked = 0

-- What the tasks share. `count` is the number of increments that were stored.
pub record Shared : Type 0 where
  pub locked : ℕ
  pub shared_var : ℕ
  pub count : ℕ
  pub reports : List ℕ

-- Where a task stands. `user_task2` is in round `i` of its loop: at the lock, about to read the
-- variable, about to store, about to release, in its delay; or it prints. `user_task3` is at the
-- lock, inside, or outside. The other tasks touch nothing that is shared.
pub data Pc : Type 0 where
  at_lock reading leaving delaying : (i : ℕ) → Pc
  storing : (i v : ℕ) → Pc
  reporting trying inside outside elsewhere : Pc

abbrev pub rounds : ℕ
rounds = 50

-- One access to what is shared, or none.
unfoldable pub move : Pc → Shared → Pc × Shared
unfolding atomic_swap lock_free
move (at_lock i) m = (
  if (atomic_swap m.locked).0 == 0 then reading i else at_lock i,
  record m { locked = (atomic_swap m.locked).1 },
)
move (reading i) m = (storing i m.shared_var, m)
move (storing i v) m = (leaving i, record m { shared_var = u32 (v + 1); count = m.count + 1 })
move (leaving i) m = (delaying i, record m { locked = lock_free m.locked })
move (delaying i) m = (if ltb (i + 1) rounds then at_lock (i + 1) else reporting, m)
move reporting m = (at_lock 0, record m { reports = m.reports ++ m.shared_var ∷ [] })
move trying m = (
  if (atomic_swap m.locked).0 == 0 then inside else trying,
  record m { locked = (atomic_swap m.locked).1 },
)
move inside m = (outside, record m { locked = lock_free m.locked })
move outside m = (trying, m)
move elsewhere m = (elsewhere, m)

pub record System : Type 0 where
  pub mem : Shared
  pub pc : ℕ → Pc

-- Task `t` makes a move.
unfoldable pub turn : ℕ → System → System
turn t s = let (p, m) = move (s.pc t) s.mem in record { mem = m; pc = update s.pc t p }

-- `t` is struck by the timer, and will go on at `q`.
unfoldable pub strike : ℕ → Pc → System → System
strike t q s = record s { pc = update s.pc t q }

unfoldable pub run : List ℕ → System → System
run [] s = s
run (t ∷ ts) s = run ts (turn t s)

-- Tasks move and are struck. `Lands p q` says that a task that is struck at `p` may go on at `q`.
pub data Step (Lands : Pc → Pc → Type 0) : System → System → Type 0 where
  moved : (t : ℕ) (s : System) → Step Lands s (turn t s)
  struck : (t : ℕ) (s : System) (q : Pc) → Lands (s.pc t) q → Step Lands s (strike t q s)

pub data Reach (Lands : Pc → Pc → Type 0) (s : System) : System → Type 0 where
  here : Reach Lands s s
  later : {s' s'' : System} → Reach Lands s s' → Step Lands s' s'' → Reach Lands s s''

-- `shared_var = 500`, the lock open.
abbrev pub start : (ℕ → Pc) → System
start pc = record {
  mem = record { locked = 0; shared_var = 500; count = 0; reports = [] };
  pc = pc;
}
