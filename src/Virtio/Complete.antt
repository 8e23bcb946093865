-- ===== src/Virtio/Complete.antt =====
-- A whole transfer: submitted by `virtio_disk_rw`, carried out by the device, reported by the
-- interrupt handler, and taken apart by `virtio_disk_rw`.
use mini_riscv_os.Common.{
  ℕ, ◌+◌, ◌%◌, ◌<◌, ◌≡◌, Bool, List, [], ◌∷◌, ◌==◌, ok, arith, u16, bit_and, ap, ◌∙◌, sym, subst,
  ne→==, refl, inl, inr, eq_or_ne, Bool-cases,
}
use mini_riscv_os.Virtio.{num, VirtqUsed, Blk, Info, Disk}
use mini_riscv_os.Virtio.Request.{
  Addresses, Driver, waiting, returned, rw_step, virtio_disk_isr, interrupt_ack, interrupt_status,
  set_disk,
}
use mini_riscv_os.Virtio.Chain.{IsChain, IsChain-same, Submitted}
use mini_riscv_os.Virtio.Finish.{Finished, rw_step-finishes}
use mini_riscv_os.Virtio.Isr.{
  IsRing, AllOk, elem, CaughtUp, backlog, completed, completion, virtio_disk_isr-CaughtUp,
}

-- The device's part, as the virtio standard has it for a request that succeeds: it puts the head of
-- the chain in the used ring, counts it, and leaves status 0. It may fill the bytes of buffers.
pub record DeviceCompletes (i0 : ℕ) (s s' : Driver) : Type 0 where
  pub desc : (j : ℕ) → s'.disk.desc j ≡ s.disk.desc j
  pub free : (j : ℕ) → s'.disk.free j ≡ s.disk.free j
  pub waiter : (s'.disk.info i0).b ≡ (s.disk.info i0).b
  pub status : (s'.disk.info i0).status ≡ 0
  pub entry : (s'.disk.used.ring (s.disk.used.idx % num)).id ≡ i0
  pub counted : s'.disk.used.idx ≡ u16 (s.disk.used.idx + 1)
  pub used_idx : s'.disk.used_idx ≡ s.disk.used_idx

module _ {a : Addresses} {b : ℕ} {write : Bool} {s : Driver} {i0 i1 i2 : ℕ} {s1 s2 : Driver}
    (sub : Submitted a b write s i0 i1 i2 s1) (dev : DeviceCompletes i0 s1 s2) where
  IsChain-device : IsChain a b write i0 i1 i2 s2
  IsChain-device = IsChain-same dev.desc dev.free dev.waiter sub.chain

  seen_lem : s2.disk.used_idx ≡ s.disk.used_idx
  seen_lem = dev.used_idx ∙ sub.used.1

  made_lem : s2.disk.used.idx ≡ u16 (s.disk.used.idx + 1)
  made_lem = dev.counted ∙ ap (λ (u : VirtqUsed). u16 (u.idx + 1)) sub.used.0

  module _ (ring : IsRing s.disk) (idle : s.disk.used_idx ≡ s.disk.used.idx) where
    one_waits : backlog s2.disk ≡ 1
    one_waits = omega (arith, ring.made, seen_lem, made_lem)

    slot_lem : s2.disk.used_idx % num ≡ s1.disk.used.idx % num
    slot_lem =
        ap (λ (t : ℕ). t % num) (seen_lem ∙ idle ∙ sym (ap (λ (u : VirtqUsed). u.idx) sub.used.0))

    completion_lem : completion s2.disk s2.disk.used_idx ≡ s2.disk.info i0
    completion_lem =
        ap (λ (t : ℕ). s2.disk.info (s2.disk.used.ring t).id) slot_lem ∙ ap s2.disk.info dev.entry

    all_ok : AllOk s2.disk 1 s2.disk.used_idx
    all_ok = (ap (λ (t : Info). t.status) completion_lem ∙ dev.status, tt)

    released : completed s2.disk 1 s2.disk.used_idx ≡ b ∷ []
    released =
        ap (λ (t : ℕ). t ∷ [])
          (ap (λ (t : Info). t.b) completion_lem ∙ dev.waiter ∙ sub.chain.waiter)

    IsRing-after : IsRing s2.disk
    IsRing-after = record {
      seen = omega (arith, ring.seen, seen_lem);
      made = omega (arith, made_lem);
    }

    handled :
        (regs : ℕ → ℕ) (fuel : ℕ)
        → 1 < fuel
        → (s3 : Driver) × (virtio_disk_isr regs fuel s2 ≡ ok s3)
          × CaughtUp
              (b ∷ [])
              (record s2 {
                writes = (interrupt_ack, bit_and (regs interrupt_status) 3) ∷ s2.writes;
              })
              s3
    handled regs fuel lt =
        subst
          (λ (l : List ℕ).
            (s3 : Driver) × (virtio_disk_isr regs fuel s2 ≡ ok s3)
            × CaughtUp l
                (record s2 {
                  writes = (interrupt_ack, bit_and (regs interrupt_status) 3) ∷ s2.writes;
                })
                s3)
          (ap (λ (n : ℕ). completed s2.disk n s2.disk.used_idx) one_waits ∙ released)
          (virtio_disk_isr-CaughtUp regs fuel s2 IsRing-after (omega (arith, one_waits))
            (subst (λ (n : ℕ). AllOk s2.disk n s2.disk.used_idx) (sym one_waits) all_ok))

-- The interrupt handler has no hand in the chain.
IsChain-CaughtUp :
    {a : Addresses} {b : ℕ} {write : Bool} {i0 i1 i2 : ℕ} {s s' : Driver} {k : ℕ}
    → IsChain a b write i0 i1 i2 s
    → s'.disk ≡ record s.disk { used_idx = k }
    → IsChain a b write i0 i1 i2 s'
IsChain-CaughtUp {i0} c e =
    IsChain-same (λ j. ap (λ (d : Disk). d.desc j) e) (λ j. ap (λ (d : Disk). d.free j) e)
      (ap (λ (d : Disk). (d.info i0).b) e) c

-- The transfer is over: as many descriptors are free as before, the same ones, the lock is open
-- and the buffer is not pending.
pub record TransferOver (b : ℕ) (s s' : Driver) : Type 0 where
  pub free : (j : ℕ) → (s'.disk.free j == 0) ≡ (s.disk.free j == 0)
  pub unlocked : s'.disk.vdisk_lock ≡ 0
  pub released : (s'.blks b).disk ≡ 0
  pub caught_up : s'.disk.used_idx ≡ s'.disk.used.idx
  pub ring : IsRing s'.disk

free_again :
    {a : Addresses} {b : ℕ} {write : Bool} {s : Driver} {i0 i1 i2 : ℕ} {s1 s2 s3 s4 : Driver}
    {k : ℕ}
    → Submitted a b write s i0 i1 i2 s1
    → DeviceCompletes i0 s1 s2
    → s3.disk ≡ record s2.disk { used_idx = k }
    → Finished i0 i1 i2 s3 s4
    → (j : ℕ) → (s4.disk.free j == 0) ≡ (s.disk.free j == 0)
free_again {i0} {i1} {i2} sub dev e f j = elim (eq_or_ne j i0) [
  | inl e0 ↦ rw (e0, f.freed.0, ne→== _ 0 sub.were_free.0)
  | inr n0 ↦ elim (eq_or_ne j i1) [
    | inl e1 ↦ rw (e1, f.freed.1, ne→== _ 0 sub.were_free.1)
    | inr n1 ↦ elim (eq_or_ne j i2) [
      | inl e2 ↦ rw (e2, f.freed.2, ne→== _ 0 sub.were_free.2)
      | inr n2 ↦
          ap (λ (t : ℕ). t == 0)
            (f.others j n0 n1 n2
              ∙ ap (λ (d : Disk). d.free j) e
              ∙ dev.free j
              ∙ sub.others j n0 n1 n2)
    ]
  ]
]

-- The interrupt handler releases buffers and changes nothing else in them.
content :
    {A : Type 0} (part : Blk → A) (v : ℕ) {bufs : List ℕ} {s s' : Driver}
    → ((k : Blk) → part (set_disk 0 k) ≡ part k)
    → CaughtUp bufs s s'
    → part (s'.blks v) ≡ part (s.blks v)
content part v {bufs} same c = elim (Bool-cases (elem v bufs)) [
  | inl out ↦ ap part (c.blks v) ∙ rw out (same _)
  | inr in_use ↦ ap part (c.blks v) ∙ rw in_use refl
]

-- A request that `virtio_disk_rw` has submitted on an idle ring, once the device has completed it,
-- ends: the interrupt handler returns, the waiting call then returns, the same descriptors are free
-- as before the request, the lock is open, the buffer is released, and every buffer has the bytes
-- and the block number that the device left in it.
pub transfer_completes :
    {a : Addresses} {b : ℕ} {write : Bool} {s : Driver} {i0 i1 i2 : ℕ} {s1 s2 : Driver}
    (regs : ℕ → ℕ) (fuel : ℕ)
    → Submitted a b write s i0 i1 i2 s1
    → DeviceCompletes i0 s1 s2
    → IsRing s.disk
    → s.disk.used_idx ≡ s.disk.used.idx
    → 1 < fuel
    → (s3 : Driver) × (s4 : Driver) × (virtio_disk_isr regs fuel s2 ≡ ok s3)
      × (rw_step a b write (waiting i0) s3 ≡ ok (returned, s4))
      × TransferOver b s s4
      × ((v : ℕ)
          → ((s4.blks v).bytes ≡ (s2.blks v).bytes) × ((s4.blks v).blockno ≡ (s2.blks v).blockno))
transfer_completes {b} {s2} regs fuel sub dev ring idle lt =
    let (s3, isr, c) = handled sub dev ring idle regs fuel lt in
    let not_pending : (s3.blks b).disk ≡ 0 = ground (arith, c.blks b) in
    let (s4, run, f) =
      rw_step-finishes (IsChain-CaughtUp (IsChain-device sub dev) c.disk)
        (omega (arith, not_pending)) in
    let counted : s4.disk.used.idx ≡ s2.disk.used.idx =
      ap (λ (u : VirtqUsed). u.idx) (f.rings.1 ∙ ap (λ (d : Disk). d.used) c.disk) in
    let caught : s4.disk.used_idx ≡ s4.disk.used.idx =
      f.seen ∙ ap (λ (d : Disk). d.used_idx) c.disk ∙ sym counted in
    (
      s3,
      s4,
      isr,
      run,
      record {
        free = free_again sub dev c.disk f;
        unlocked = f.unlocked;
        released = ap (λ (g : ℕ → Blk). (g b).disk) f.blks ∙ not_pending;
        caught_up = caught;
        ring = record {
          seen = omega (arith, caught, counted, (IsRing-after sub dev ring idle).made);
          made = omega (arith, counted, (IsRing-after sub dev ring idle).made);
        };
      },
      λ v. (
        ap (λ (g : ℕ → Blk). (g v).bytes) f.blks ∙ content (λ k. k.bytes) v (λ k. refl) c,
        ap (λ (g : ℕ → Blk). (g v).blockno) f.blks ∙ content (λ k. k.blockno) v (λ k. refl) c,
      ),
    )
