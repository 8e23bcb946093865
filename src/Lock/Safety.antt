-- ===== src/Lock/Safety.antt =====
-- The lock keeps the tasks apart, and so no increment is lost.
use mini_riscv_os.Common.{
  ℕ, zero, suc, ◌+◌, ◌^◌, ◌%◌, ◌≡◌, ◌≢◌, refl, Bool, true, false, arith, ok, hang, ne→==,
  Bool-cases, inl, inr, ap, ◌∙◌, sym, subst, update, update_self, update_ne, eq_or_ne,
}
use mini_riscv_os.Lock.{
  Shared, Pc, reading, storing, leaving, inside, move, System, turn, strike, moved, struck, Reach,
  here, later, start, atomic_swap, lock_free, lock_acquire, lock_init,
}

-- Between `lock_acquire` and `lock_free`.
abbrev pub critical : Pc → Bool
critical (reading i) = true
critical (storing i v) = true
critical (leaving i) = true
critical inside = true
critical _ = false

-- A value read under the lock is still the variable's.
abbrev pub IsFresh : Shared → Pc → Type 0
IsFresh m (storing i v) = v ≡ m.shared_var
IsFresh m _ = Unit {0}

pub record Inv (s : System) : Type 0 where
  pub held : (t : ℕ) → critical (s.pc t) ≡ true → s.mem.locked ≢ 0
  pub alone : (t v : ℕ) → critical (s.pc t) ≡ true → critical (s.pc v) ≡ true → t ≡ v
  pub fresh : (t : ℕ) → IsFresh s.mem (s.pc t)
  pub counted : s.mem.shared_var ≡ (500 + s.mem.count) % 2 ^ 32

module _ {s : System} (inv : Inv s) (t : ℕ) where
  open inv use {held, alone, fresh, counted}

  turn-held : (v : ℕ) → critical ((turn t s).pc v) ≡ true → (turn t s).mem.locked ≢ 0
  unfolding turn move atomic_swap lock_free
  turn-held v c = ground (arith, held v, held t, alone t v)

  turn-alone :
      (v w : ℕ) → critical ((turn t s).pc v) ≡ true → critical ((turn t s).pc w) ≡ true → v ≡ w
  unfolding turn move atomic_swap lock_free
  turn-alone v w cv cw = ground (arith, held v, held w, held t, alone v w, alone t v, alone t w)

  turn-fresh : (v : ℕ) → IsFresh (turn t s).mem ((turn t s).pc v)
  unfolding turn move atomic_swap lock_free
  turn-fresh v = ground (arith, fresh v, fresh t, alone t v)

  turn-counted : (turn t s).mem.shared_var ≡ (500 + (turn t s).mem.count) % 2 ^ 32
  unfolding turn move atomic_swap lock_free
  turn-counted = ground (arith, fresh t)

  turn-Inv : Inv (turn t s)
  turn-Inv = record {
    held = turn-held;
    alone = turn-alone;
    fresh = turn-fresh;
    counted = turn-counted;
  }

fresh_outside : (m : Shared) (p : Pc) → critical p ≡ false → IsFresh m p
fresh_outside m (storing i v) e = cc
fresh_outside m _ e = tt

start-Inv : (pc : ℕ → Pc) → ((t : ℕ) → critical (pc t) ≡ false) → Inv (start pc)
start-Inv pc quiet = record {
  held = λ t c. ground (arith, quiet t);
  alone = λ t v c d. ground (arith, quiet t);
  fresh = λ t. fresh_outside (start pc).mem (pc t) (quiet t);
  counted = refl;
}

-- A task that is struck goes on between `lock_acquire` and `lock_free` only where it stopped.
abbrev pub NeverInto : (Pc → Pc → Type 0) → Type 0
NeverInto Lands = (p q : Pc) → Lands p q → critical q ≡ true → q ≡ p

module _ {s : System} (inv : Inv s) (t : ℕ) (q : Pc) (same : critical q ≡ true → q ≡ s.pc t) where
  strike-same : (v : ℕ) → critical ((strike t q s).pc v) ≡ true → (strike t q s).pc v ≡ s.pc v
  unfolding strike
  strike-same v c = elim (eq_or_ne t v) [
    | inl e ↦
        let at : update s.pc t q v ≡ q = ap (update s.pc t q) (sym e) ∙ update_self s.pc t q in
        at ∙ same (ap critical (sym at) ∙ c) ∙ ap s.pc e
    | inr ne ↦ update_ne s.pc t v q ne
  ]

  strike-was : (v : ℕ) → critical ((strike t q s).pc v) ≡ true → critical (s.pc v) ≡ true
  strike-was v c = ap critical (sym (strike-same v c)) ∙ c

  strike-fresh : (v : ℕ) → IsFresh s.mem ((strike t q s).pc v)
  strike-fresh v = elim (Bool-cases (critical ((strike t q s).pc v))) [
    | inl c ↦ subst (IsFresh s.mem) (sym (strike-same v c)) (inv.fresh v)
    | inr e ↦ fresh_outside s.mem ((strike t q s).pc v) e
  ]

  strike-Inv : Inv (strike t q s)
  unfolding strike
  strike-Inv = record {
    held = λ v c. inv.held v (strike-was v c);
    alone = λ v w c d. inv.alone v w (strike-was v c) (strike-was w d);
    fresh = strike-fresh;
    counted = inv.counted;
  }

module _ {Lands : Pc → Pc → Type 0} (never : NeverInto Lands) (pc : ℕ → Pc)
    (quiet : (t : ℕ) → critical (pc t) ≡ false) where
  pub Reach-Inv : {s : System} → Reach Lands (start pc) s → Inv s
  Reach-Inv here = start-Inv pc quiet
  Reach-Inv (later r (moved t s)) = turn-Inv (Reach-Inv r) t
  Reach-Inv (later r (struck t s q l)) = strike-Inv (Reach-Inv r) t q (λ c. never (s.pc t) q l c)

  -- From an open lock with every task outside, in whatever order the tasks move and are struck by the
  -- timer: if no task that is struck goes on between `lock_acquire` and `lock_free` but where it
  -- stopped, then while one task is there, no other task is.
  pub mutual_exclusion :
      {s : System}
      → Reach Lands (start pc) s
      → (v w : ℕ) → v ≢ w
      → critical (s.pc v) ≡ true
      → critical (s.pc w) ≡ false
  mutual_exclusion {s} r v w ne cv =
      let inv = Reach-Inv r in
      elim (Bool-cases (critical (s.pc w))) [
        | inl cw ↦ absurd (ne (inv.alone v w cv cw))
        | inr e ↦ e
      ]

  -- From an open lock with every task outside, in whatever order the tasks move and are struck by the
  -- timer: if no task that is struck goes on between `lock_acquire` and `lock_free` but where it
  -- stopped, the shared variable is always 500 and the number of increments that were stored, modulo
  -- 2 ^ 32: none is lost, though reading and storing are separate moves.
  pub no_lost_update :
      {s : System} → Reach Lands (start pc) s → s.mem.shared_var ≡ (500 + s.mem.count) % 2 ^ 32
  no_lost_update r = (Reach-Inv r).counted

spins : (fuel locked : ℕ) → locked ≢ 0 → lock_acquire fuel locked ≡ hang
unfolding lock_acquire
spins zero locked h = refl
spins (suc fuel) locked h = rw (ne→== locked 0 h) (spins fuel 1 (omega arith))

-- `lock_acquire` on an open lock returns in its first round with the lock taken; on a taken lock
-- that nobody frees it turns for ever. After `lock_init` and after `lock_free` the lock is open.
pub lock_acquire_lem :
    (fuel locked taken : ℕ)
    → taken ≢ 0
    → (lock_acquire (suc fuel) (lock_init locked) ≡ ok 1)
      × (lock_acquire (suc fuel) (lock_free locked) ≡ ok 1)
      × (lock_acquire fuel taken ≡ hang)
unfolding lock_acquire lock_init lock_free
lock_acquire_lem fuel locked taken h = (refl, refl, spins fuel taken h)
