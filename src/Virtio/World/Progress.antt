-- ===== src/Virtio/World/Progress.antt =====
-- A call of `virtio_disk_rw` can always come to its end, whatever has happened before.
use mini_riscv_os.Common.{
  ℕ, ◌+◌, ◌%◌, ◌^◌, ◌<◌, ◌≡◌, ◌≢◌, refl, sym, ap, ◌∙◌, inl, inr, false, update, update_self,
  update_ne, arith, eq_or_ne, u16,
}
use mini_riscv_os.Virtio.{num}
use mini_riscv_os.Virtio.Request.{locked, Addresses, Driver, Phase, holding, waiting, returned}
use mini_riscv_os.Virtio.Chain.{rw_step-submits}
use mini_riscv_os.Virtio.Finish.{rw_step-finishes}
use mini_riscv_os.Virtio.World.{
  Request, World, Serves, Step, called, served, interrupted, Reach, here, later,
}
use mini_riscv_os.Virtio.World.Invariant.{
  NeverCrosses, inside, IsQuiet, Stage, sent, done, released, IsBusy, Inv, idle, held, busy,
}
use mini_riscv_os.Virtio.World.Calls.{call_open, call_by}
use mini_riscv_os.Virtio.World.Locked.{outside_cases, IsQuiet-HasThree, IsQuiet-locked}
use mini_riscv_os.Virtio.World.Transfer.{Submitted-IsBusy, Finished-IsQuiet}
use mini_riscv_os.Virtio.World.Interrupts.{isr_released, interrupt_by, Serves-IsBusy}
use mini_riscv_os.Virtio.World.Reachable.{IsStart, Reach-Inv}

-- A device that takes up the next chain and does no more than report it.
abbrev answer : Driver → Driver
answer s =
    let head : ℕ = s.disk.avail.ring (s.disk.used.idx % num) in
    record s {
      disk = record s.disk {
        used = record {
          flags = s.disk.used.flags;
          idx = u16 (s.disk.used.idx + 1);
          ring = update s.disk.used.ring (s.disk.used.idx % num) (record { id = head; len = 1 });
        };
        info = update s.disk.info head (record (s.disk.info head) { status = 0 });
      };
    }

answer-Serves : (s : Driver) → s.disk.used.idx ≢ s.disk.avail.idx → Serves s (answer s)
answer-Serves s asked =
    let head : ℕ = s.disk.avail.ring (s.disk.used.idx % num) in
    record {
      asked = asked;
      completes = record {
        desc = λ j. refl;
        free = λ j. refl;
        waiter = ap (λ i. i.b) (update_self s.disk.info head _);
        status = ap (λ i. i.status) (update_self s.disk.info head _);
        entry = ap (λ e. e.id) (update_self s.disk.used.ring (s.disk.used.idx % num) _);
        counted = refl;
        used_idx = refl;
      };
      avail = refl;
      lock = refl;
      pending = λ b. refl;
    }

module _ (a : Addresses) (req : ℕ → Request) (regs : ℕ → ℕ) (fuel : ℕ) (enough : 1 < fuel)
    {Lands : Phase → Phase → Type 0} (lands : NeverCrosses Lands) where
  Reach-trans :
      {x y z : World}
      → Reach a req regs fuel Lands x y
      → Reach a req regs fuel Lands y z
      → Reach a req regs fuel Lands x z
  Reach-trans p here = p
  Reach-trans p (later q s) = later (Reach-trans p q) s

  -- The call of `t` has ended: the lock is open, nothing is under way, and the other callers are
  -- where they were.
  record Ended (t : ℕ) (w w' : World) : Type 0 where
    reached : Reach a req regs fuel Lands w w'
    back : w'.phase t ≡ returned
    others : (v : ℕ) → v ≢ t → w'.phase v ≡ w.phase v
    open_lock : w'.driver.disk.vdisk_lock ≡ 0
    quiet : IsQuiet w'.driver.disk

  abbrev Ends : ℕ → World → Type 0
  Ends t w = (w' : World) × Ended t w w'

  -- One step before.
  Ended-after :
      {t : ℕ} {w w1 w2 : World}
      → Step a req regs fuel Lands w w1
      → ((v : ℕ) → v ≢ t → w1.phase v ≡ w.phase v)
      → Ended t w1 w2
      → Ended t w w2
  Ended-after step same e = record {
    reached = Reach-trans (later here step) e.reached;
    back = e.back;
    others = λ v ne. e.others v ne ∙ same v ne;
    open_lock = e.open_lock;
    quiet = e.quiet;
  }

  own_step : (phase : ℕ → Phase) (t : ℕ) (p : Phase) (v : ℕ) → v ≢ t → update phase t p v ≡ phase v
  own_step phase t p v ne = update_ne phase t v p (λ e. ne (sym e))

  module _ (t i0 i1 i2 : ℕ) where
    released-Ends :
        (w : World)
        → w.phase t ≡ waiting i0
        → IsBusy a (req t) i0 i1 i2 w.driver
        → w.driver.disk.used_idx ≡ w.driver.disk.used.idx
        → w.driver.disk.avail.idx ≡ w.driver.disk.used.idx
        → (w.driver.blks (req t).buffer).disk ≡ 0
        → Ends t w
    released-Ends w at b seen answered over =
        let (s', run, f) = rw_step-finishes b.chain (omega (arith, over)) in
        (
          record { driver = s'; phase = update w.phase t returned },
          record {
            reached = later here (called t w (call_by a req t w at run));
            back = update_self w.phase t returned;
            others = own_step w.phase t returned;
            open_lock = f.unlocked;
            quiet = Finished-IsQuiet a req b.others seen answered b.made_small f;
          },
        )

    done-Ends :
        (w : World)
        → w.phase t ≡ waiting i0
        → IsBusy a (req t) i0 i1 i2 w.driver
        → w.driver.disk.used.idx ≡ u16 (w.driver.disk.used_idx + 1)
        → w.driver.disk.avail.idx ≡ w.driver.disk.used.idx
        → (w.driver.disk.used.ring (w.driver.disk.used_idx % num)).id ≡ i0
        → (w.driver.disk.info i0).status ≡ 0
        → Ends t w
    done-Ends w at b made answered head status =
        let (s', run, _, seen', answered', over, b') =
          isr_released regs fuel enough w.driver b made answered head status in
        let w1 : World = record w { driver = s' } in
        let (w2, e) = released-Ends w1 at b' seen' answered' over in
        (
          w2,
          Ended-after (interrupted w (interrupt_by regs fuel enough a req w run)) (λ v ne. refl) e,
        )

    -- A request that the device has taken up is reported, not asked for again.
    answered-Ends :
        (w : World)
        → w.phase t ≡ waiting i0
        → IsBusy a (req t) i0 i1 i2 w.driver
        → Stage i0 (req t).buffer w.driver
        → w.driver.disk.used_idx ≢ w.driver.disk.used.idx
        → Ends t w
    answered-Ends w at b (sent seen asked head pending) unseen = absurd (unseen seen)
    answered-Ends w at b (released seen answered over) unseen = absurd (unseen seen)
    answered-Ends w at b (done made answered head status pending) unseen =
        done-Ends w at b made answered head status

    busy-Ends :
        (w : World)
        → w.phase t ≡ waiting i0
        → IsBusy a (req t) i0 i1 i2 w.driver
        → Stage i0 (req t).buffer w.driver
        → Ends t w
    busy-Ends w at b (released seen answered over) = released-Ends w at b seen answered over
    busy-Ends w at b (done made answered head status pending) =
        done-Ends w at b made answered head status
    busy-Ends w at b (sent seen asked head pending) =
        let small : w.driver.disk.used.idx < 2 ^ 16 = b.made_small in
        let v : Serves w.driver (answer w.driver) =
          answer-Serves w.driver (λ e. omega (arith, e, asked, small)) in
        let w1 : World = record w { driver = answer w.driver } in
        let b1 : IsBusy a (req t) i0 i1 i2 w1.driver = Serves-IsBusy v b b.stage in
        let (w2, e) = answered-Ends w1 at b1 b1.stage (λ e. omega (arith, e, seen, small)) in
        (w2, Ended-after (served w v) (λ v ne. refl) e)

  held-Ends : (t : ℕ) (w : World) → w.phase t ≡ holding → IsQuiet w.driver.disk → Ends t w
  held-Ends t w at quiet =
      let (i0, i1, i2, s', run, sub) =
        rw_step-submits a (req t).buffer (req t).write w.driver (IsQuiet-HasThree quiet) in
      let w1 : World = record { driver = s'; phase = update w.phase t (waiting i0) } in
      let b : IsBusy a (req t) i0 i1 i2 s' = Submitted-IsBusy a req quiet sub in
      let (w2, e) = busy-Ends t i0 i1 i2 w1 (update_self w.phase t (waiting i0)) b b.stage in
      (w2, Ended-after (called t w (call_by a req t w at run)) (own_step w.phase t (waiting i0)) e)

  -- A caller that finds the lock open.
  outside_ends :
      (t : ℕ) (w : World)
      → inside (w.phase t) ≡ false
      → w.driver.disk.vdisk_lock ≡ 0
      → IsQuiet w.driver.disk
      → (w' : World) × Reach a req regs fuel Lands w w' × (w'.phase t ≡ returned)
  outside_ends t w out open_lock quiet = elim (outside_cases (w.phase t) out) [
    | inr e ↦ (w, here, e)
    | inl e ↦
        let w1 : World = record { driver = locked w.driver; phase = update w.phase t holding } in
        let (w2, end) =
          held-Ends t w1 (update_self w.phase t holding) (IsQuiet-locked w.driver quiet) in
        (
          w2,
          Reach-trans (later here (called t w (call_open a req t w e open_lock))) end.reached,
          end.back,
        )
  ]

  -- Another caller's call has ended, and then that of `t` can.
  next-Ends :
      (t u : ℕ) (w : World)
      → (t ≢ u → inside (w.phase t) ≡ false)
      → Ends u w
      → (w' : World) × Reach a req regs fuel Lands w w' × (w'.phase t ≡ returned)
  next-Ends t u w out (w1, e) = elim (eq_or_ne t u) [
    | inl same ↦ (w1, e.reached, ap w1.phase same ∙ e.back)
    | inr other ↦
        let (w2, r, back) =
          outside_ends t w1 (ap inside (e.others t other) ∙ out other) e.open_lock e.quiet in
        (w2, Reach-trans e.reached r, back)
  ]

  Inv-ends :
      (t : ℕ) (w : World)
      → Inv a req w
      → (w' : World) × Reach a req regs fuel Lands w w' × (w'.phase t ≡ returned)
  Inv-ends t w (idle open_lock outside quiet) = outside_ends t w (outside t) open_lock quiet
  Inv-ends t w (held u taken at only quiet) = next-Ends t u w (only t) (held-Ends u w at quiet)
  Inv-ends t w (busy u i0 i1 i2 taken at only b) =
      next-Ends t u w (only t) (busy-Ends u i0 i1 i2 w at b b.stage)

  -- From the state that `virtio_disk_init` leaves, whatever steps callers, a device that serves
  -- requests in order, disk interrupts and timer interrupts have taken: if the device has reported no
  -- error, and a caller that the timer strikes goes on where it stopped or stays outside the lock,
  -- then every call can come to its end, by further steps of the callers, of such a device and of the
  -- interrupt handler, which has fuel for two rounds. No such order of steps leads into a deadlock.
  pub calls_end :
      {w w' : World} (t : ℕ)
      → IsStart w
      → Reach a req regs fuel Lands w w'
      → (w'' : World) × Reach a req regs fuel Lands w' w'' × (w''.phase t ≡ returned)
  calls_end {w' = w'} t st r = Inv-ends t w' (Reach-Inv a req regs fuel enough lands st r)
