-- ===== src/Lock/Progress.antt =====
-- A task that waits for the lock can get it.
use mini_riscv_os.Common.{
  ℕ, zero, suc, ◌≤◌, ◌≡◌, ap, ◌∙◌, ◌≢◌, ◌⊎◌, refl, Bool, true, false, List, [], ◌∷◌, arith,
  Bool-cases, inl, inr, eq_or_ne, update_self, update_ne,
}
use mini_riscv_os.Lock.{
  Pc, at_lock, trying, reading, storing, leaving, inside, move, System, turn, strike, run, start,
  Reach, here, later, moved, struck, atomic_swap, lock_free,
}
use mini_riscv_os.Lock.Safety.{critical}

-- In the loop of `lock_acquire`.
abbrev pub waits : Pc → Bool
waits (at_lock i) = true
waits trying = true
waits _ = false

abbrev pub repeated : ℕ → ℕ → List ℕ
repeated zero u = []
repeated (suc n) u = u ∷ repeated n u

-- The lock is open, or some task is between `lock_acquire` and `lock_free`.
abbrev Owned : System → Type 0
Owned s = (s.mem.locked ≡ 0) ⊎ ((u : ℕ) × (critical (s.pc u) ≡ true))

module _ (s : System) (t : ℕ) where
  -- A turn that leaves an open lock open, or opens it.
  still_open : s.mem.locked ≡ 0 → critical ((turn t s).pc t) ≡ false → (turn t s).mem.locked ≡ 0
  unfolding turn move atomic_swap lock_free
  still_open e c = ground arith

  opened : critical (s.pc t) ≡ true → critical ((turn t s).pc t) ≡ false → (turn t s).mem.locked ≡ 0
  unfolding turn move atomic_swap lock_free
  opened e c = ground arith

  -- The turn of another task.
  kept : (u : ℕ) → t ≢ u → (turn t s).pc u ≡ s.pc u
  unfolding turn
  kept u ne = ground arith

  turn-Owned : Owned s → Owned (turn t s)
  turn-Owned o = elim (Bool-cases (critical ((turn t s).pc t))) [
    | inl c ↦ inr (t, c)
    | inr out ↦ elim o [
      | inl e ↦ inl (still_open e out)
      | inr (u, c) ↦ elim (eq_or_ne t u) [
        | inl same ↦ inl (opened (ap (λ (i : ℕ). critical (s.pc i)) same ∙ c) out)
        | inr other ↦ inr (u, ap critical (kept u other) ∙ c)
      ]
    ]
  ]

-- A task that is struck between `lock_acquire` and `lock_free` goes on where it stopped.
abbrev pub Stays : (Pc → Pc → Type 0) → Type 0
Stays Lands = (p q : Pc) → Lands p q → critical p ≡ true → q ≡ p

strike-Owned :
    (s : System) (t : ℕ) (q : Pc)
    → (critical (s.pc t) ≡ true → q ≡ s.pc t)
    → Owned s
    → Owned (strike t q s)
unfolding strike
strike-Owned s t q same (inl e) = inl e
strike-Owned s t q same (inr (u, c)) = elim (eq_or_ne t u) [
  | inl e ↦
      let inside_t : critical (s.pc t) ≡ true = ap (λ (i : ℕ). critical (s.pc i)) e ∙ c in
      inr (t, ap critical (update_self s.pc t q ∙ same inside_t) ∙ inside_t)
  | inr ne ↦ inr (u, ap critical (update_ne s.pc t u q ne) ∙ c)
]

Reach-Owned :
    {Lands : Pc → Pc → Type 0} {s s' : System} → Stays Lands → Owned s → Reach Lands s s' → Owned s'
Reach-Owned stays o here = o
Reach-Owned stays o (later r (moved t s)) = turn-Owned s t (Reach-Owned stays o r)
Reach-Owned stays o (later r (struck t s q l)) =
    strike-Owned s t q (λ c. stays (s.pc t) q l c) (Reach-Owned stays o r)

-- On an open lock one turn is enough.
enters :
    (s : System) (t : ℕ)
    → waits (s.pc t) ≡ true
    → s.mem.locked ≡ 0
    → critical ((turn t s).pc t) ≡ true
unfolding turn move atomic_swap
enters s t w e = ground arith

-- The task inside opens the lock in three turns at most, and another task stays where it is.
leaves :
    (s : System) (u t : ℕ) (p : Pc)
    → u ≢ t
    → s.pc u ≡ p
    → critical p ≡ true
    → (n : ℕ) × (n ≤ 3)
      × ((run (repeated n u) s).mem.locked ≡ 0)
      × ((run (repeated n u) s).pc t ≡ s.pc t)
unfolding run turn move lock_free
leaves s u t (reading i) ne e c = (3, omega arith, ground arith, ground arith)
leaves s u t (storing i v) ne e c = (2, omega arith, ground arith, ground arith)
leaves s u t (leaving i) ne e c = (1, omega arith, ground arith, ground arith)
leaves s u t inside ne e c = (1, omega arith, ground arith, ground arith)
leaves s u t _ ne e c = absurd (cc)

not_both : (p : Pc) → waits p ≡ true → critical p ≡ false
not_both (at_lock i) w = refl
not_both trying w = refl
not_both _ w = absurd (cc)

waiting_gets_in :
    (s : System) (t : ℕ)
    → waits (s.pc t) ≡ true
    → Owned s
    → (u n : ℕ) × (n ≤ 3) × (critical ((turn t (run (repeated n u) s)).pc t) ≡ true)
waiting_gets_in s t w (inl e) = (t, 0, omega arith, unfold run in enters s t w e)
waiting_gets_in s t w (inr (u, c)) =
    let (n, few, free, same) = leaves s u t (s.pc u) apart refl c in
    (u, n, few, enters (run (repeated n u) s) t (ap waits same ∙ w) free)
  where
    apart : u ≢ t
    apart h =
        let out : critical (s.pc t) ≡ false = not_both (s.pc t) w in
        let at : s.pc u ≡ s.pc t = ap s.pc h in cc

-- From an open lock with every task outside, in whatever order the tasks move and are struck by the
-- timer: if a task that is struck between `lock_acquire` and `lock_free` goes on where it stopped,
-- then a task that waits for the lock has it after at most three moves of some one task and then one
-- move of its own.
pub gets_in :
    {Lands : Pc → Pc → Type 0} {s : System} (pc : ℕ → Pc) (t : ℕ)
    → Stays Lands
    → ((v : ℕ) → critical (pc v) ≡ false)
    → Reach Lands (start pc) s
    → waits (s.pc t) ≡ true
    → (u n : ℕ) × (n ≤ 3) × (critical ((turn t (run (repeated n u) s)).pc t) ≡ true)
gets_in {s = s} pc t stays quiet r w = waiting_gets_in s t w (Reach-Owned stays (inl refl) r)
