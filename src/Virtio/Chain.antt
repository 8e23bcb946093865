-- ===== src/Virtio/Chain.antt =====
-- The chain that `virtio_disk_rw` builds and hands to the device.
use mini_riscv_os.Common.{
  ◌∙◌, ℕ, ◌+◌, ◌%◌, ◌^◌, ◌<◌, ◌≡◌, refl, ◌≢◌, ◌⊎◌, Bool, Option, List, ◌∷◌, if◌then◌else◌, Run, ok,
  ◌==◌, eq→==, ◌>>=◌, arith, u16,
}
use mini_riscv_os.Virtio.{num, block_size, Disk}
use mini_riscv_os.Virtio.Triple.{Allocates3, got, failed, take3, alloc3_desc-Allocates3}
use mini_riscv_os.Virtio.Request.{
  locked, acquiring, Addresses, Driver, waiting, holding, submit, submit_allocated, rw_step,
  queue_notify, blk_t_in, blk_t_out,
}

-- The descriptors of a request for buffer `b`, as the device is to read them: the header, the data
-- and the status byte, linked in this order. The three are in use.
pub record IsChain (a : Addresses) (b : ℕ) (write : Bool) (i0 i1 i2 : ℕ) (s : Driver) : Type 0 where
  pub low : i0 < i1
  pub middle : i1 < i2
  pub high : i2 < num
  pub used0 : s.disk.free i0 ≡ 0
  pub used1 : s.disk.free i1 ≡ 0
  pub used2 : s.disk.free i2 ≡ 0
  pub header : s.disk.desc i0 ≡ record { addr = a.ops i0; len = 16; flags = 1; next = i1 }
  pub payload :
      s.disk.desc i1
      ≡ record { addr = a.bytes b; len = block_size; flags = if write then 1 else 3; next = i2 }
  pub ending : s.disk.desc i2 ≡ record { addr = a.status i0; len = 1; flags = 2; next = 0 }
  pub waiter : (s.disk.info i0).b ≡ b

-- A chain is one whatever else changes, while its descriptors and its waiter are left alone.
pub IsChain-same :
    {a : Addresses} {b : ℕ} {write : Bool} {i0 i1 i2 : ℕ} {s s' : Driver}
    → ((j : ℕ) → s'.disk.desc j ≡ s.disk.desc j)
    → ((j : ℕ) → s'.disk.free j ≡ s.disk.free j)
    → (s'.disk.info i0).b ≡ (s.disk.info i0).b
    → IsChain a b write i0 i1 i2 s
    → IsChain a b write i0 i1 i2 s'
IsChain-same {i0} {i1} {i2} desc free waiter c = record {
  low = c.low;
  middle = c.middle;
  high = c.high;
  used0 = free i0 ∙ c.used0;
  used1 = free i1 ∙ c.used1;
  used2 = free i2 ∙ c.used2;
  header = desc i0 ∙ c.header;
  payload = desc i1 ∙ c.payload;
  ending = desc i2 ∙ c.ending;
  waiter = waiter ∙ c.waiter;
}

-- Three different descriptors are free.
pub record HasThree (d : Disk) : Type 0 where
  pub j0 : ℕ
  pub j1 : ℕ
  pub j2 : ℕ
  pub low : j0 < j1
  pub middle : j1 < j2
  pub high : j2 < num
  pub free0 : d.free j0 ≢ 0
  pub free1 : d.free j1 ≢ 0
  pub free2 : d.free j2 ≢ 0

-- What the device finds, and what is recorded, once a request is submitted.
pub record Submitted (a : Addresses) (b : ℕ) (write : Bool) (s : Driver) (i0 i1 i2 : ℕ)
    (s' : Driver) : Type 0 where
  pub chain : IsChain a b write i0 i1 i2 s'
  pub were_free : (s.disk.free i0 ≢ 0) × (s.disk.free i1 ≢ 0) × (s.disk.free i2 ≢ 0)
  pub others : (j : ℕ) → j ≢ i0 → j ≢ i1 → j ≢ i2 → s'.disk.free j ≡ s.disk.free j
  pub operation : (s'.disk.ops i0).kind ≡ (if write then blk_t_out else blk_t_in)
  pub sector : (s'.disk.ops i0).sector ≡ (s.blks b).blockno % 2 ^ 32
  pub status : (s'.disk.info i0).status ≡ 0
  pub entry : s'.disk.avail.ring (s.disk.avail.idx % num) ≡ i0
  pub published : s'.disk.avail.idx ≡ u16 (s.disk.avail.idx + 1)
  pub pending : (s'.blks b).disk ≡ 1
  pub bytes : (v : ℕ) → (s'.blks v).bytes ≡ (s.blks v).bytes
  pub blockno : (v : ℕ) → (s'.blks v).blockno ≡ (s.blks v).blockno
  pub lock : s'.disk.vdisk_lock ≡ s.disk.vdisk_lock
  pub used : (s'.disk.used ≡ s.disk.used) × (s'.disk.used_idx ≡ s.disk.used_idx)
  pub notified : s'.writes ≡ (queue_notify, 0) ∷ s.writes

pub submit-Submitted :
    (a : Addresses) (b : ℕ) (write : Bool) (s : Driver) (i0 i1 i2 : ℕ)
    → i0 < i1
    → i1 < i2
    → i2 < num
    → s.disk.free i0 ≢ 0
    → s.disk.free i1 ≢ 0
    → s.disk.free i2 ≢ 0
    → Submitted a b write s i0 i1 i2
        (submit a b write i0 i1 i2 (record s { disk = take3 i0 i1 i2 s.disk }))
unfolding submit
submit-Submitted a b write s i0 i1 i2 l m h f0 f1 f2 = record {
  chain = record {
    low = l;
    middle = m;
    high = h;
    used0 = ground arith;
    used1 = ground arith;
    used2 = ground arith;
    header = ground arith;
    payload = ground arith;
    ending = ground arith;
    waiter = ground arith;
  };
  were_free = (f0, f1, f2);
  others = λ j n0 n1 n2. ground arith;
  operation = ground arith;
  sector = ground arith;
  status = ground arith;
  entry = ground arith;
  published = refl;
  pending = ground arith;
  bytes = λ v. ground arith;
  blockno = λ v. ground arith;
  lock = refl;
  used = (refl, refl);
  notified = refl;
}

three_left_out :
    {d : Disk} (t : HasThree d) (i0 i1 : ℕ)
    → ¬ ((j : ℕ) → j < num → d.free j ≢ 0 → (j ≡ i0) ⊎ (j ≡ i1))
three_left_out t i0 i1 all = omega (
  arith,
  t.low,
  t.middle,
  all t.j0 (omega (arith, t.low, t.middle, t.high)) t.free0,
  all t.j1 (omega (arith, t.middle, t.high)) t.free1,
  all t.j2 t.high t.free2,
)

holding_next :
    (a : Addresses) (b : ℕ) (write : Bool) (s : Driver) {out : Run (Option (List ℕ) × Disk)}
    → HasThree s.disk
    → Allocates3 s.disk out
    → (i0 : ℕ) × (i1 : ℕ) × (i2 : ℕ) × (s' : Driver) × ((out >>= λ r.
          ok (submit_allocated a b write s r))
        ≡ ok (waiting i0, s'))
      × Submitted a b write s i0 i1 i2 s'
unfolding submit_allocated
holding_next a b write s three (got i0 i1 i2 l m h f0 f1 f2) =
    (i0, i1, i2, _, refl, submit-Submitted a b write s i0 i1 i2 l m h f0 f1 f2)
holding_next a b write s three (failed d' same i0 i1 few) = absurd (three_left_out three i0 i1 few)

-- While three descriptors are free, a call of `virtio_disk_rw` that holds the lock gets past its
-- loop at once: it takes three, links header, data and status with the flags of the direction of
-- the transfer, puts the head in the available ring, counts it, marks the buffer as pending,
-- notifies the device, and waits for that head. No other descriptor is touched.
pub rw_step-submits :
    (a : Addresses) (b : ℕ) (write : Bool) (s : Driver)
    → HasThree s.disk
    → (i0 : ℕ) × (i1 : ℕ) × (i2 : ℕ) × (s' : Driver) × (rw_step a b write holding s
        ≡ ok (waiting i0, s'))
      × Submitted a b write s i0 i1 i2 s'
unfolding rw_step
rw_step-submits a b write s three = holding_next a b write s three (alloc3_desc-Allocates3 s.disk)

pub HasThree-free :
    {d d' : Disk} → ((j : ℕ) → (d'.free j == 0) ≡ (d.free j == 0)) → HasThree d → HasThree d'
HasThree-free same t = record {
  j0 = t.j0;
  j1 = t.j1;
  j2 = t.j2;
  low = t.low;
  middle = t.middle;
  high = t.high;
  free0 = λ e. t.free0 (ground (arith, same t.j0));
  free1 = λ e. t.free1 (ground (arith, same t.j1));
  free2 = λ e. t.free2 (ground (arith, same t.j2));
}

-- An open lock is taken at the first step.
pub acquires :
    (a : Addresses) (b : ℕ) (write : Bool) (s : Driver)
    → s.disk.vdisk_lock ≡ 0
    → rw_step a b write acquiring s ≡ ok (holding, locked s)
unfolding rw_step
acquires a b write s open_lock = rw (eq→== s.disk.vdisk_lock 0 open_lock) refl
