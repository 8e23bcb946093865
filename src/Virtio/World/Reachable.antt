-- ===== src/Virtio/World/Reachable.antt =====
-- What holds in every state that callers, device and interrupts reach, in whatever order they come.
use mini_riscv_os.Common.{
  ℕ, ◌<◌, ◌≡◌, ◌≢◌, refl, sym, ap, ◌∙◌, inl, inr, true, false, update, Run, ok, subst, update_self,
  update_ne, arith, eq_or_ne, Bool-cases, ◌⊎◌, fun_ext,
}
use mini_riscv_os.Virtio.Request.{Addresses, Phase, acquiring, returned}
use mini_riscv_os.Virtio.Ready.{IsReady}
use mini_riscv_os.Virtio.World.{
  Request, World, Step, called, begun, struck, served, interrupted, Reach, here, later, call,
  interrupt,
}
use mini_riscv_os.Virtio.World.Invariant.{inside, NeverCrosses, OnlyInside, Inv, idle, held, busy}
use mini_riscv_os.Virtio.World.Calls.{call-Inv}
use mini_riscv_os.Virtio.World.Locked.{OnlyInside-update}
use mini_riscv_os.Virtio.World.Interrupts.{interrupt-Inv, Serves-Inv}

-- The driver as `virtio_disk_init` leaves it, with nobody in a call.
pub record IsStart (w : World) : Type 0 where
  pub ready : IsReady w.driver.disk
  pub avail : w.driver.disk.avail.idx ≡ w.driver.disk.used.idx
  pub outside : (v : ℕ) → w.phase v ≡ returned

same_result : {w1 w2 : World} {r : Run World} → r ≡ ok w1 → r ≡ ok w2 → w1 ≡ w2
same_result p q = cc

module _ (a : Addresses) (req : ℕ → Request) (regs : ℕ → ℕ) (fuel : ℕ) (enough : 1 < fuel) where
  start-Inv : (w : World) → IsStart w → Inv a req w
  start-Inv w st =
      idle st.ready.unlocked (λ v. ap inside (st.outside v))
        (record {
          seen = st.ready.idle;
          answered = st.avail;
          small = st.ready.ring.made;
          free = λ j lt e. omega (arith, st.ready.free j lt);
        })

  -- A caller that is outside may begin, or go on outside.
  outside-Inv :
      (t : ℕ) (p : Phase) (w : World)
      → inside (w.phase t) ≡ false
      → inside p ≡ false
      → Inv a req w
      → Inv a req (record w { phase = update w.phase t p })
  outside-Inv t p w e o (idle open_lock outside q) = idle open_lock still_outside q
    where
      still_outside : (v : ℕ) → inside (update w.phase t p v) ≡ false
      still_outside v = elim (eq_or_ne t v) [
        | inl same ↦
            subst (λ (i : ℕ). inside (update w.phase t p i) ≡ false) same
              (ap inside (update_self w.phase t p) ∙ o)
        | inr other ↦ ap inside (update_ne w.phase t v p other) ∙ outside v
      ]
  outside-Inv t p w e o (held u taken at only q) =
      held u taken (update_ne w.phase t u p (apart at refl) ∙ at)
        (OnlyInside-update w.phase t p o only) q
    where
      apart : {r : Phase} → w.phase u ≡ r → inside r ≡ true → t ≢ u
      apart h in_r same =
          let here_t = ap (λ (i : ℕ). inside (w.phase i)) same ∙ ap inside h in absurd (cc)
  outside-Inv t p w e o (busy u i0 i1 i2 taken at only b) =
      busy u i0 i1 i2 taken (update_ne w.phase t u p (apart at refl) ∙ at)
        (OnlyInside-update w.phase t p o only) b
    where
      apart : {r : Phase} → w.phase u ≡ r → inside r ≡ true → t ≢ u
      apart h in_r same =
          let here_t = ap (λ (i : ℕ). inside (w.phase i)) same ∙ ap inside h in absurd (cc)

  struck-Inv :
      (t : ℕ) (q : Phase) (w : World)
      → (q ≡ w.phase t) ⊎ ((inside (w.phase t) ≡ false) × (inside q ≡ false))
      → Inv a req w
      → Inv a req (record w { phase = update w.phase t q })
  struck-Inv t q w (inl e) inv =
      subst (λ (f : ℕ → Phase). Inv a req (record w { phase = f }))
        (fun_ext (λ v. sym (elim (eq_or_ne t v) [
          | inl same ↦
              subst (λ (i : ℕ). update w.phase t q i ≡ w.phase i) same (update_self w.phase t q ∙ e)
          | inr other ↦ update_ne w.phase t v q other
        ])))
        inv
  struck-Inv t q w (inr o) inv = outside-Inv t q w o.0 o.1 inv

module _ (a : Addresses) (req : ℕ → Request) (regs : ℕ → ℕ) (fuel : ℕ) (enough : 1 < fuel)
    {Lands : Phase → Phase → Type 0} (lands : NeverCrosses Lands) where
  Step-Inv : {w w' : World} → Step a req regs fuel Lands w w' → Inv a req w → Inv a req w'
  Step-Inv (called t w run) inv =
      let (w1, run1, inv1) = call-Inv a req t w inv in subst (Inv a req) (same_result run1 run) inv1
  Step-Inv (begun t w e) inv =
      outside-Inv a req regs fuel enough t acquiring w (ap inside e) refl inv
  Step-Inv (struck t w q l) inv =
      struck-Inv a req regs fuel enough t q w (lands (w.phase t) q l) inv
  Step-Inv (served w v) inv = Serves-Inv w v inv
  Step-Inv (interrupted w run) inv =
      let (w1, run1, inv1) = interrupt-Inv regs fuel enough a req w inv in
      subst (Inv a req) (same_result run1 run) inv1

  pub Reach-Inv : {w w' : World} → IsStart w → Reach a req regs fuel Lands w w' → Inv a req w'
  Reach-Inv {w} st here = start-Inv a req regs fuel enough w st
  Reach-Inv st (later r s) = Step-Inv s (Reach-Inv st r)

  -- From the state that `virtio_disk_init` leaves, in whatever order callers, a device that serves
  -- requests in order, disk interrupts and timer interrupts take their steps: if the device reports no
  -- error, and a caller that the timer strikes goes on where it stopped or stays outside the lock,
  -- then no caller's step and no run of the interrupt handler panics or hangs, given fuel for two
  -- rounds of the handler.
  pub never_panics :
      {w w' : World} (t : ℕ)
      → IsStart w
      → Reach a req regs fuel Lands w w'
      → ((w1 : World) × (call a req t w' ≡ ok w1))
        × ((w2 : World) × (interrupt regs fuel w' ≡ ok w2))
  never_panics {w' = w'} t st r =
      let inv = Reach-Inv st r in
      let (w1, run1, _) = call-Inv a req t w' inv in
      let (w2, run2, _) = interrupt-Inv regs fuel enough a req w' inv in ((w1, run1), (w2, run2))

  is_holder : (phase : ℕ → Phase) (u t : ℕ) → OnlyInside phase u → inside (phase t) ≡ true → t ≡ u
  is_holder phase u t only h = elim (eq_or_ne t u) [
    | inl same ↦ same
    | inr other ↦ let out = only t other in absurd (cc)
  ]

  Inv-exclusive :
      (w : World) (t v : ℕ)
      → Inv a req w
      → inside (w.phase t) ≡ true
      → inside (w.phase v) ≡ true
      → t ≡ v
  Inv-exclusive w t v (idle open_lock outside q) p r = let out = outside t in absurd (cc)
  Inv-exclusive w t v (held u taken at only q) p r =
      is_holder w.phase u t only p ∙ sym (is_holder w.phase u v only r)
  Inv-exclusive w t v (busy u i0 i1 i2 taken at only b) p r =
      is_holder w.phase u t only p ∙ sym (is_holder w.phase u v only r)

  -- From the state that `virtio_disk_init` leaves, in whatever order callers, a device that serves
  -- requests in order, disk interrupts and timer interrupts take their steps: if the device reports no
  -- error, and a caller that the timer strikes goes on where it stopped or stays outside the lock,
  -- then while one caller is between `lock_acquire` and `lock_free`, no other is. The handler has
  -- fuel for two rounds.
  pub one_caller_inside :
      {w w' : World} (t v : ℕ)
      → IsStart w
      → Reach a req regs fuel Lands w w'
      → inside (w'.phase t) ≡ true
      → t ≢ v
      → inside (w'.phase v) ≡ false
  one_caller_inside {w' = w'} t v st r p ne = elim (Bool-cases (inside (w'.phase v))) [
    | inl q ↦ absurd (ne (Inv-exclusive w' t v (Reach-Inv st r) p q))
    | inr q ↦ q
  ]
