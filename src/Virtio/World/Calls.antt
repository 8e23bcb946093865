-- ===== src/Virtio/World/Calls.antt =====
-- A step of a caller keeps the invariant, and never panics.
use mini_riscv_os.Common.{
  ℕ, ◌≡◌, ◌≢◌, refl, sym, ◌∙◌, subst, inl, inr, Bool, false, ◌==◌, if◌then◌else◌, update,
  update_self, update_ne, ok, arith, eq_or_ne, ne→==, eq→==,
}
use mini_riscv_os.Virtio.Request.{
  locked, Addresses, Driver, Phase, acquiring, holding, waiting, returned, rw_step,
}
use mini_riscv_os.Virtio.Chain.{rw_step-submits}
use mini_riscv_os.Virtio.Finish.{rw_step-finishes}
use mini_riscv_os.Virtio.World.{Request, World, call}
use mini_riscv_os.Virtio.World.Invariant.{
  inside, IsQuiet, Stage, sent, done, released, IsBusy, OnlyInside, Inv, idle, held, busy,
}
use mini_riscv_os.Virtio.World.Locked.{
  outside_cases, OnlyInside-update, OnlyInside-own, OnlyInside-none, IsBusy-locked, IsQuiet-locked,
  IsQuiet-HasThree,
}
use mini_riscv_os.Virtio.World.Transfer.{Submitted-IsBusy, Finished-IsQuiet}

module _ (a : Addresses) (req : ℕ → Request) where
  call_acquiring :
      (t : ℕ) (w : World)
      → w.phase t ≡ acquiring
      → call a req t w
        ≡ ok (record {
          driver = locked w.driver;
          phase = update w.phase t (if w.driver.disk.vdisk_lock == 0 then holding else acquiring);
        })
  unfolding call rw_step
  call_acquiring t w e = rw e

  -- The lock is open, and the caller takes it.
  pub call_open :
      (t : ℕ) (w : World)
      → w.phase t ≡ acquiring
      → w.driver.disk.vdisk_lock ≡ 0
      → call a req t w ≡ ok (record { driver = locked w.driver; phase = update w.phase t holding })
  call_open t w e open_lock =
      subst
        (λ (x : Bool).
          call a req t w
          ≡ ok (record {
            driver = locked w.driver;
            phase = update w.phase t (if x then holding else acquiring);
          }))
        (eq→== w.driver.disk.vdisk_lock 0 open_lock) (call_acquiring t w e)

  call_returned :
      (t : ℕ) (w : World)
      → w.phase t ≡ returned
      → call a req t w ≡ ok (record w { phase = update w.phase t returned })
  unfolding call rw_step
  call_returned t w e = rw e

  -- The step of caller `t` in its own phase.
  pub call_by :
      (t : ℕ) (w : World) {p p' : Phase} {s' : Driver}
      → w.phase t ≡ p
      → rw_step a (req t).buffer (req t).write p w.driver ≡ ok (p', s')
      → call a req t w ≡ ok (record { driver = s'; phase = update w.phase t p' })
  unfolding call
  call_by t w e run = rw (e, run)

  abbrev Goes : ℕ → World → Type 0
  Goes t w = (w' : World) × (call a req t w ≡ ok w') × Inv a req w'

  -- A caller that is outside takes a step while caller `t` is inside.
  other_call :
      (t v : ℕ) (w : World)
      → w.driver.disk.vdisk_lock ≢ 0
      → OnlyInside w.phase t
      → v ≢ t
      → ((p : ℕ → Phase)
          → p t ≡ w.phase t
          → OnlyInside p t
          → Inv a req (record { driver = locked w.driver; phase = p })
            × Inv a req (record w { phase = p }))
      → Goes v w
  other_call t v w taken only ne stays =
      let shut = ne→== w.driver.disk.vdisk_lock 0 taken in
      elim (outside_cases (w.phase v) (only v ne)) [
        | inl e ↦ (
          record { driver = locked w.driver; phase = update w.phase v acquiring },
          subst
              (λ (x : Bool).
                call a req v w
                ≡ ok (record {
                  driver = locked w.driver;
                  phase = update w.phase v (if x then holding else acquiring);
                }))
              shut (call_acquiring v w e),
          (stays (update w.phase v acquiring) (update_ne w.phase v t acquiring ne)
              (OnlyInside-update w.phase v acquiring refl only)).0,
        )
        | inr e ↦ (
          record w { phase = update w.phase v returned },
          call_returned v w e,
          (stays (update w.phase v returned) (update_ne w.phase v t returned ne)
              (OnlyInside-update w.phase v returned refl only)).1,
        )
      ]

  held_own :
      (t : ℕ) (w : World)
      → w.driver.disk.vdisk_lock ≢ 0
      → w.phase t ≡ holding
      → OnlyInside w.phase t
      → IsQuiet w.driver.disk
      → Goes t w
  held_own t w taken at only quiet =
      let (i0, i1, i2, s', run, sub) =
        rw_step-submits a (req t).buffer (req t).write w.driver (IsQuiet-HasThree quiet) in
      (
        record { driver = s'; phase = update w.phase t (waiting i0) },
        call_by t w at run,
        busy t i0 i1 i2 (λ e. taken (sym sub.lock ∙ e)) (update_self w.phase t (waiting i0))
            (OnlyInside-own w.phase t (waiting i0) only) (Submitted-IsBusy a req quiet sub),
      )

  waits :
      (b i0 : ℕ) (write : Bool) (s : Driver)
      → (s.blks b).disk ≡ 1
      → rw_step a b write (waiting i0) s ≡ ok (waiting i0, s)
  unfolding rw_step
  waits b i0 write s e = rw (eq→== (s.blks b).disk 1 e)

  module _ (t i0 i1 i2 : ℕ) (w : World) (taken : w.driver.disk.vdisk_lock ≢ 0)
      (at : w.phase t ≡ waiting i0) (only : OnlyInside w.phase t)
      (b : IsBusy a (req t) i0 i1 i2 w.driver) where
    still_waits : (w.driver.blks (req t).buffer).disk ≡ 1 → Goes t w
    still_waits pending = (
      record w { phase = update w.phase t (waiting i0) },
      call_by t w at (waits (req t).buffer i0 (req t).write w.driver pending),
      busy t i0 i1 i2 taken (update_self w.phase t (waiting i0))
          (OnlyInside-own w.phase t (waiting i0) only) b,
    )

    busy_own : Stage i0 (req t).buffer w.driver → Goes t w
    busy_own (sent p q r pending) = still_waits pending
    busy_own (done p q r u pending) = still_waits pending
    busy_own (released seen answered over) =
        let (s', run, f) = rw_step-finishes b.chain (omega (arith, over)) in
        (
          record { driver = s'; phase = update w.phase t returned },
          call_by t w at run,
          idle f.unlocked (OnlyInside-none w.phase t only)
              (Finished-IsQuiet a req b.others seen answered b.made_small f),
        )

  idle_call :
      (t : ℕ) (w : World)
      → w.driver.disk.vdisk_lock ≡ 0
      → ((v : ℕ) → inside (w.phase v) ≡ false)
      → IsQuiet w.driver.disk
      → Goes t w
  idle_call t w open_lock outside quiet = elim (outside_cases (w.phase t) (outside t)) [
    | inl e ↦ (
      record { driver = locked w.driver; phase = update w.phase t holding },
      call_open t w e open_lock,
      held t (omega arith) (update_self w.phase t holding)
          (OnlyInside-own w.phase t holding (λ v ne. outside v)) (IsQuiet-locked w.driver quiet),
    )
    | inr e ↦ (
      record w { phase = update w.phase t returned },
      call_returned t w e,
      idle open_lock (OnlyInside-none w.phase t (λ v ne. outside v)) quiet,
    )
  ]

  -- A step of any caller returns, and the invariant holds again.
  pub call-Inv : (t : ℕ) (w : World) → Inv a req w → Goes t w
  call-Inv t w (idle open_lock outside quiet) = idle_call t w open_lock outside quiet
  call-Inv v w (held t taken at only quiet) = elim (eq_or_ne v t) [
    | inr other ↦ other_call t v w taken only other (λ p same only'. (
      held t (omega arith) (same ∙ at) only' (IsQuiet-locked w.driver quiet),
      held t taken (same ∙ at) only' quiet,
    ))
    | inl same ↦ subst (λ (x : ℕ). Goes x w) (sym same) (held_own t w taken at only quiet)
  ]
  call-Inv v w (busy t i0 i1 i2 taken at only b) = elim (eq_or_ne v t) [
    | inr other ↦ other_call t v w taken only other (λ p same only'. (
      busy t i0 i1 i2 (omega arith) (same ∙ at) only' (IsBusy-locked b),
      busy t i0 i1 i2 taken (same ∙ at) only' b,
    ))
    | inl same ↦
        subst (λ (x : ℕ). Goes x w) (sym same) (busy_own t i0 i1 i2 w taken at only b b.stage)
  ]
