-- ===== src/Virtio/World/Interrupts.antt =====
-- The device and the interrupt handler keep the invariant, and the handler never panics.
use mini_riscv_os.Common.{
  ℕ, ◌+◌, ◌%◌, ◌^◌, ◌<◌, ◌≡◌, refl, sym, ap, ◌∙◌, subst, if◌then◌else◌, List, ok, arith, eq→==, u16,
}
use mini_riscv_os.Virtio.{num, Disk, Blk, VirtqAvail}
use mini_riscv_os.Virtio.Request.{Addresses, Driver, set_disk, virtio_disk_isr}
use mini_riscv_os.Virtio.Chain.{IsChain-same}
use mini_riscv_os.Virtio.Isr.{AllOk, backlog, completed, completion, elem, virtio_disk_isr-CaughtUp}
use mini_riscv_os.Virtio.Complete.{DeviceCompletes}
use mini_riscv_os.Virtio.World.{Request, World, Serves, interrupt}
use mini_riscv_os.Virtio.World.Invariant.{
  IsQuiet, Stage, sent, done, released, IsBusy, Inv, idle, held, busy,
}

-- The disk is the same, and so is what is pending.
pub record Alike (s s' : Driver) : Type 0 where
  pub disk : s'.disk ≡ s.disk
  pub pending : (b : ℕ) → (s'.blks b).disk ≡ (s.blks b).disk

Stage-Alike : {i0 b : ℕ} {s s' : Driver} → Alike s s' → Stage i0 b s → Stage i0 b s'
Stage-Alike {i0} {b} l (sent p q r u) =
    sent (subst (λ (d : Disk). d.used_idx ≡ d.used.idx) (sym l.disk) p)
      (subst (λ (d : Disk). d.avail.idx ≡ u16 (d.used.idx + 1)) (sym l.disk) q)
      (subst (λ (d : Disk). d.avail.ring (d.used.idx % num) ≡ i0) (sym l.disk) r) (l.pending b ∙ u)
Stage-Alike {i0} {b} l (done p q r st u) =
    done (subst (λ (d : Disk). d.used.idx ≡ u16 (d.used_idx + 1)) (sym l.disk) p)
      (subst (λ (d : Disk). d.avail.idx ≡ d.used.idx) (sym l.disk) q)
      (subst (λ (d : Disk). (d.used.ring (d.used_idx % num)).id ≡ i0) (sym l.disk) r)
      (subst (λ (d : Disk). (d.info i0).status ≡ 0) (sym l.disk) st) (l.pending b ∙ u)
Stage-Alike {i0} {b} l (released p q u) =
    released (subst (λ (d : Disk). d.used_idx ≡ d.used.idx) (sym l.disk) p)
      (subst (λ (d : Disk). d.avail.idx ≡ d.used.idx) (sym l.disk) q) (l.pending b ∙ u)

IsBusy-Alike :
    {a : Addresses} {r : Request} {i0 i1 i2 : ℕ} {s s' : Driver}
    → Alike s s'
    → IsBusy a r i0 i1 i2 s
    → IsBusy a r i0 i1 i2 s'
IsBusy-Alike {i0} l b = record {
  chain =
      IsChain-same (λ j. ap (λ (d : Disk). d.desc j) l.disk)
        (λ j. ap (λ (d : Disk). d.free j) l.disk) (ap (λ (d : Disk). (d.info i0).b) l.disk) b.chain;
  others = λ j lt n0 n1 n2 e. b.others j lt n0 n1 n2 (sym (ap (λ (d : Disk). d.free j) l.disk) ∙ e);
  stage = Stage-Alike l b.stage;
  seen_small = subst (λ (d : Disk). d.used_idx < 2 ^ 16) (sym l.disk) b.seen_small;
  made_small = subst (λ (d : Disk). d.used.idx < 2 ^ 16) (sym l.disk) b.made_small;
}

module _ (regs : ℕ → ℕ) (fuel : ℕ) (enough : 1 < fuel) where
  -- With nothing to report, the handler leaves disk and buffers as they are.
  isr-Alike :
      (s : Driver)
      → s.disk.used_idx ≡ s.disk.used.idx
      → s.disk.used.idx < 2 ^ 16
      → (s' : Driver) × (virtio_disk_isr regs fuel s ≡ ok s') × Alike s s'
  isr-Alike s seen small =
      let none_waits : backlog s.disk ≡ 0 = omega (arith, seen, small) in
      let (s', run, c) =
        virtio_disk_isr-CaughtUp regs fuel s
          (record { seen = omega (arith, seen, small); made = small })
          (omega (arith, none_waits, enough))
          (subst (λ (n : ℕ). AllOk s.disk n s.disk.used_idx) (sym none_waits) tt) in
      let nobody = ap (λ (n : ℕ). completed s.disk n s.disk.used_idx) none_waits in
      (
        s',
        run,
        record {
          disk = c.disk ∙ ap (λ (k : ℕ). record s.disk { used_idx = k }) (sym seen);
          pending = λ b.
              ap (λ (k : Blk). k.disk) (c.blks b)
              ∙ ap (λ (l : List ℕ). (if elem b l then set_disk 0 (s.blks b) else s.blks b).disk)
                  nobody;
        },
      )

  -- The handler finds the one completion and releases its buffer.
  pub isr_released :
      {a : Addresses} {r : Request} {i0 i1 i2 : ℕ} (s : Driver)
      → IsBusy a r i0 i1 i2 s
      → s.disk.used.idx ≡ u16 (s.disk.used_idx + 1)
      → s.disk.avail.idx ≡ s.disk.used.idx
      → (s.disk.used.ring (s.disk.used_idx % num)).id ≡ i0
      → (s.disk.info i0).status ≡ 0
      → (s' : Driver) × (virtio_disk_isr regs fuel s ≡ ok s')
        × (s'.disk.vdisk_lock ≡ s.disk.vdisk_lock)
        × (s'.disk.used_idx ≡ s'.disk.used.idx)
        × (s'.disk.avail.idx ≡ s'.disk.used.idx)
        × ((s'.blks r.buffer).disk ≡ 0)
        × IsBusy a r i0 i1 i2 s'
  isr_released {a} {r} {i0} s b made answered head status =
      let one_waits : backlog s.disk ≡ 1 = omega (arith, b.seen_small, made) in
      let fine : (completion s.disk s.disk.used_idx).status ≡ 0 =
        ap (λ (k : ℕ). (s.disk.info k).status) head ∙ status in
      let whose : (completion s.disk s.disk.used_idx).b ≡ r.buffer =
        ap (λ (k : ℕ). (s.disk.info k).b) head ∙ b.chain.waiter in
      let (s', run, c) =
        virtio_disk_isr-CaughtUp regs fuel s (record { seen = b.seen_small; made = b.made_small })
          (omega (arith, one_waits, enough))
          (subst (λ (n : ℕ). AllOk s.disk n s.disk.used_idx) (sym one_waits) (fine, tt)) in
      let bufs = ap (λ (n : ℕ). completed s.disk n s.disk.used_idx) one_waits in
      let over : (s'.blks r.buffer).disk ≡ 0 =
        ap (λ (k : Blk). k.disk) (c.blks r.buffer)
        ∙ ap
            (λ (l : List ℕ).
              (if elem r.buffer l then set_disk 0 (s.blks r.buffer) else s.blks r.buffer).disk)
            bufs
        ∙ rw (eq→== (completion s.disk s.disk.used_idx).b r.buffer whose) in
      let seen' : s'.disk.used_idx ≡ s'.disk.used.idx =
        subst (λ (d : Disk). d.used_idx ≡ d.used.idx) (sym c.disk) refl in
      let answered' : s'.disk.avail.idx ≡ s'.disk.used.idx =
        subst (λ (d : Disk). d.avail.idx ≡ d.used.idx) (sym c.disk) answered in
      (
        s',
        run,
        ap (λ (d : Disk). d.vdisk_lock) c.disk,
        seen',
        answered',
        over,
        record {
          chain =
              IsChain-same (λ j. ap (λ (d : Disk). d.desc j) c.disk)
                (λ j. ap (λ (d : Disk). d.free j) c.disk) (ap (λ (d : Disk). (d.info i0).b) c.disk)
                b.chain;
          others = λ j lt n0 n1 n2 e.
              b.others j lt n0 n1 n2 (sym (ap (λ (d : Disk). d.free j) c.disk) ∙ e);
          stage = released seen' answered' over;
          seen_small = subst (λ (d : Disk). d.used_idx < 2 ^ 16) (sym c.disk) b.made_small;
          made_small = subst (λ (d : Disk). d.used.idx < 2 ^ 16) (sym c.disk) b.made_small;
        },
      )

  module _ (a : Addresses) (req : ℕ → Request) where
    abbrev Interrupted : World → Type 0
    Interrupted w = (w' : World) × (interrupt regs fuel w ≡ ok w') × Inv a req w'

    pub interrupt_by :
        (w : World) {s' : Driver}
        → virtio_disk_isr regs fuel w.driver ≡ ok s'
        → interrupt regs fuel w ≡ ok (record w { driver = s' })
    unfolding interrupt
    interrupt_by w run = rw run

    quiet_interrupt :
        (w : World)
        → w.driver.disk.used_idx ≡ w.driver.disk.used.idx
        → w.driver.disk.used.idx < 2 ^ 16
        → ((s' : Driver) → Alike w.driver s' → Inv a req (record w { driver = s' }))
        → Interrupted w
    quiet_interrupt w seen small stays =
        let (s', run, l) = isr-Alike w.driver seen small in
        (record w { driver = s' }, interrupt_by w run, stays s' l)

    -- The interrupt handler returns, and the invariant holds again.
    pub interrupt-Inv : (w : World) → Inv a req w → Interrupted w
    interrupt-Inv w (idle open_lock outside q) = quiet_interrupt w q.seen q.small (λ s' l.
        idle (ap (λ (d : Disk). d.vdisk_lock) l.disk ∙ open_lock) outside
          (subst IsQuiet (sym l.disk) q))
    interrupt-Inv w (held t taken at only q) = quiet_interrupt w q.seen q.small (λ s' l.
        held t (λ e. taken (sym (ap (λ (d : Disk). d.vdisk_lock) l.disk) ∙ e)) at only
          (subst IsQuiet (sym l.disk) q))
    interrupt-Inv w (busy t i0 i1 i2 taken at only b) = by_stage b.stage
      where
        stays : (s' : Driver) → Alike w.driver s' → Inv a req (record w { driver = s' })
        stays s' l =
            busy t i0 i1 i2 (λ e. taken (sym (ap (λ (d : Disk). d.vdisk_lock) l.disk) ∙ e)) at only
              (IsBusy-Alike l b)

        by_stage : Stage i0 (req t).buffer w.driver → Interrupted w
        by_stage (sent seen q r u) = quiet_interrupt w seen b.made_small stays
        by_stage (released seen q u) = quiet_interrupt w seen b.made_small stays
        by_stage (done made answered head status u) =
            let (s', run, lock, _, _, _, b') = isr_released w.driver b made answered head status in
            (
              record w { driver = s' },
              interrupt_by w run,
              busy t i0 i1 i2 (λ e. taken (sym lock ∙ e)) at only b',
            )

-- What the device does keeps the invariant.
pub Serves-IsBusy :
    {a : Addresses} {r : Request} {i0 i1 i2 : ℕ} {s s' : Driver}
    → Serves s s'
    → IsBusy a r i0 i1 i2 s
    → Stage i0 r.buffer s
    → IsBusy a r i0 i1 i2 s'
Serves-IsBusy v b (done p q r st u) = absurd (v.asked (sym q))
Serves-IsBusy v b (released p q u) = absurd (v.asked (sym q))
Serves-IsBusy {i0} {s} {s'} v b (sent seen asked head pending) =
    let dev : DeviceCompletes i0 s s' =
      subst (λ (k : ℕ). DeviceCompletes k s s') head v.completes in
    let slot : s'.disk.used_idx % num ≡ s.disk.used.idx % num =
      ap (λ (k : ℕ). k % num) (dev.used_idx ∙ seen) in
    record {
      chain = IsChain-same dev.desc dev.free dev.waiter b.chain;
      others = λ j lt n0 n1 n2 e. b.others j lt n0 n1 n2 (sym (dev.free j) ∙ e);
      stage =
          done (dev.counted ∙ ap (λ (k : ℕ). u16 (k + 1)) (sym (dev.used_idx ∙ seen)))
            (ap (λ (g : VirtqAvail). g.idx) v.avail ∙ asked ∙ sym dev.counted)
            (ap (λ (k : ℕ). (s'.disk.used.ring k).id) slot ∙ dev.entry) dev.status
            (v.pending _ ∙ pending);
      seen_small = omega (arith, b.seen_small, dev.used_idx);
      made_small = omega (arith, dev.counted);
    }

pub Serves-Inv :
    {a : Addresses} {req : ℕ → Request} (w : World) {s' : Driver}
    → Serves w.driver s'
    → Inv a req w
    → Inv a req (record w { driver = s' })
Serves-Inv w v (idle open_lock outside q) = absurd (v.asked (sym q.answered))
Serves-Inv w v (held t taken at only q) = absurd (v.asked (sym q.answered))
Serves-Inv w v (busy t i0 i1 i2 taken at only b) =
    busy t i0 i1 i2 (λ e. taken (sym v.lock ∙ e)) at only (Serves-IsBusy v b b.stage)
