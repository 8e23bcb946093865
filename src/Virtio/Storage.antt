-- ===== src/Virtio/Storage.antt =====
-- What `virtio_disk_rw` of 10-SystemCall/src/virtio.c is for: blocks that are written and read again.
-- A call runs alone here, with the device and the interrupt handler between its steps.
pub mod RoundTrip
mod Tests
use mini_riscv_os.Common.{
  ℕ, ◌%◌, ◌^◌, ◌<◌, ◌≡◌, ◌≢◌, refl, sym, ap, ◌∙◌, subst, Bool, true, false, ◌==◌, if◌then◌else◌,
  Run, ok, hang, ◌>>=◌, arith, eq→==, ne→==,
}
use mini_riscv_os.Virtio.{num, block_size, Disk, Blk}
use mini_riscv_os.Virtio.Request.{
  locked, Addresses, Driver, Phase, acquiring, holding, waiting, returned, rw_step, virtio_disk_isr,
  blk_t_in, blk_t_out,
}
use mini_riscv_os.Virtio.Chain.{
  IsChain, HasThree, Submitted, rw_step-submits, HasThree-free, acquires,
}
use mini_riscv_os.Virtio.Isr.{IsRing}
use mini_riscv_os.Virtio.Complete.{DeviceCompletes, TransferOver, transfer_completes}

-- What the disk holds: a byte by sector and place.
abbrev pub Media : Type 0
Media = ℕ → ℕ → ℕ

-- A device that serves the chain with a given head.
abbrev pub Server : Type 0
Server = ℕ → Driver → Media → Driver × Media

-- The device's part, as the virtio standard has it for a block device: a request of the kind OUT
-- puts the bytes of the data descriptor into the sector, one of the kind IN the other way round,
-- nothing else is touched, and the request is completed.
pub record IsStorage (a : Addresses) (device : Server) : Type 0 where
  pub completes : (i0 : ℕ) (s : Driver) (m : Media) → DeviceCompletes i0 s (device i0 s m).0
  pub blockno :
      (i0 : ℕ) (s : Driver) (m : Media) (v : ℕ)
      → ((device i0 s m).0.blks v).blockno ≡ (s.blks v).blockno
  pub stores :
      {b i0 i1 i2 : ℕ} {s : Driver} (m : Media) (k i : ℕ)
      → IsChain a b true i0 i1 i2 s
      → (s.disk.ops i0).kind ≡ blk_t_out
      → i < block_size
      → (device i0 s m).1 k i ≡ (if k == (s.disk.ops i0).sector then (s.blks b).bytes i else m k i)
  pub stores_only :
      {b i0 i1 i2 : ℕ} {s : Driver} (m : Media) (v : ℕ)
      → IsChain a b true i0 i1 i2 s
      → (s.disk.ops i0).kind ≡ blk_t_out
      → ((device i0 s m).0.blks v).bytes ≡ (s.blks v).bytes
  pub loads :
      {b i0 i1 i2 : ℕ} {s : Driver} (m : Media) (i : ℕ)
      → IsChain a b false i0 i1 i2 s
      → (s.disk.ops i0).kind ≡ blk_t_in
      → i < block_size
      → ((device i0 s m).0.blks b).bytes i ≡ m (s.disk.ops i0).sector i
  pub loads_only :
      {b i0 i1 i2 : ℕ} {s : Driver} (m : Media)
      → IsChain a b false i0 i1 i2 s
      → (s.disk.ops i0).kind ≡ blk_t_in
      → (device i0 s m).1 ≡ m

-- The driver between two calls.
pub record IsIdle (d : Disk) : Type 0 where
  pub three : HasThree d
  pub ring : IsRing d
  pub seen : d.used_idx ≡ d.used.idx
  pub unlocked : d.vdisk_lock ≡ 0

module _ (a : Addresses) (device : Server) (regs : ℕ → ℕ) (fuel b : ℕ) (write : Bool) where
  -- The device serves the submitted chain, the interrupt handler runs, and the call goes on.
  unfoldable pub answer : Media → Phase × Driver → Run (Driver × Media)
  answer m (waiting i0, s1) =
      let (s2, m') = device i0 s1 m in
      virtio_disk_isr regs fuel s2 >>= λ s3. rw_step a b write (waiting i0) s3 >>= λ r. ok (r.1, m')
  answer m (other, s1) = hang

  -- A whole call of `virtio_disk_rw` for buffer `b`.
  unfoldable pub transfer : Driver × Media → Run (Driver × Media)
  unfolding answer
  transfer (s, m) = rw_step a b write acquiring s >>= λ r. rw_step a b write r.0 r.1 >>= answer m

-- What a call submitted, and what it leaves.
pub record Transferred (a : Addresses) (device : Server) (b : ℕ) (write : Bool) (s : Driver)
    (m : Media) (s' : Driver) (m' : Media) : Type 0 where
  pub i0 : ℕ
  pub i1 : ℕ
  pub i2 : ℕ
  pub s1 : Driver
  pub sub : Submitted a b write (locked s) i0 i1 i2 s1
  pub media : m' ≡ (device i0 s1 m).1
  pub idle : IsIdle s'.disk
  pub content :
      (v : ℕ)
      → ((s'.blks v).bytes ≡ ((device i0 s1 m).0.blks v).bytes)
        × ((s'.blks v).blockno ≡ ((device i0 s1 m).0.blks v).blockno)

module _ {a : Addresses} {device : Server} (st : IsStorage a device) (regs : ℕ → ℕ) (fuel : ℕ)
    (enough : 1 < fuel) where
  pub transfer_lem :
      (b : ℕ) (write : Bool) (s : Driver) (m : Media)
      → IsIdle s.disk
      → (s' : Driver) × (m' : Media) × (transfer a device regs fuel b write (s, m) ≡ ok (s', m'))
        × Transferred a device b write s m s' m'
  unfolding transfer answer
  transfer_lem b write s m idle =
      let (i0, i1, i2, s1, run, sub) =
        rw_step-submits a b write (locked s) (HasThree-free (λ j. refl) idle.three) in
      let (s3, s4, isr, back, over, kept) =
        transfer_completes regs fuel sub (st.completes i0 s1 m)
          (record { seen = idle.ring.seen; made = idle.ring.made }) idle.seen enough in
      (
        s4,
        (device i0 s1 m).1,
        rw (acquires a b write s idle.unlocked, run, isr, back) refl,
        record {
          i0 = i0;
          i1 = i1;
          i2 = i2;
          s1 = s1;
          sub = sub;
          media = refl;
          idle = record {
            three = HasThree-free (λ j. over.free j) idle.three;
            ring = over.ring;
            seen = over.caught_up;
            unlocked = over.unlocked;
          };
          content = kept;
        },
      )
