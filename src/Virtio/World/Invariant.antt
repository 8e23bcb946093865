-- ===== src/Virtio/World/Invariant.antt =====
-- What holds between two steps of the callers, the device and the interrupt handler.
use mini_riscv_os.Common.{ℕ, ◌+◌, ◌%◌, ◌^◌, ◌<◌, ◌≡◌, ◌≢◌, ◌⊎◌, Bool, true, false, u16}
use mini_riscv_os.Virtio.{num, Disk}
use mini_riscv_os.Virtio.Request.{Addresses, Driver, Phase, acquiring, holding, waiting, returned}
use mini_riscv_os.Virtio.Chain.{IsChain}
use mini_riscv_os.Virtio.World.{Request, World}

-- Between `lock_acquire` and `lock_free`.
abbrev pub inside : Phase → Bool
inside acquiring = false
inside holding = true
inside (waiting i0) = true
inside returned = false

-- A caller that is struck goes on where it stopped, or stays outside.
abbrev pub NeverCrosses : (Phase → Phase → Type 0) → Type 0
NeverCrosses Lands = (p q : Phase) → Lands p q → (q ≡ p) ⊎ ((inside p ≡ false) × (inside q ≡ false))

-- Nothing is asked of the device, and all descriptors are free.
pub record IsQuiet (d : Disk) : Type 0 where
  pub seen : d.used_idx ≡ d.used.idx
  pub answered : d.avail.idx ≡ d.used.idx
  pub small : d.used.idx < 2 ^ 16
  pub free : (j : ℕ) → j < num → d.free j ≢ 0

-- How far the one request is.
pub data Stage (i0 b : ℕ) (s : Driver) : Type 0 where
  sent :
      s.disk.used_idx ≡ s.disk.used.idx
      → s.disk.avail.idx ≡ u16 (s.disk.used.idx + 1)
      → s.disk.avail.ring (s.disk.used.idx % num) ≡ i0
      → (s.blks b).disk ≡ 1
      → Stage i0 b s
  done :
      s.disk.used.idx ≡ u16 (s.disk.used_idx + 1)
      → s.disk.avail.idx ≡ s.disk.used.idx
      → (s.disk.used.ring (s.disk.used_idx % num)).id ≡ i0
      → (s.disk.info i0).status ≡ 0
      → (s.blks b).disk ≡ 1
      → Stage i0 b s
  released :
      s.disk.used_idx ≡ s.disk.used.idx
      → s.disk.avail.idx ≡ s.disk.used.idx
      → (s.blks b).disk ≡ 0
      → Stage i0 b s

-- One request is under way: its chain stands, the other descriptors are free.
pub record IsBusy (a : Addresses) (r : Request) (i0 i1 i2 : ℕ) (s : Driver) : Type 0 where
  pub chain : IsChain a r.buffer r.write i0 i1 i2 s
  pub others : (j : ℕ) → j < num → j ≢ i0 → j ≢ i1 → j ≢ i2 → s.disk.free j ≢ 0
  pub stage : Stage i0 r.buffer s
  pub seen_small : s.disk.used_idx < 2 ^ 16
  pub made_small : s.disk.used.idx < 2 ^ 16

abbrev pub OnlyInside : (ℕ → Phase) → ℕ → Type 0
OnlyInside phase t = (v : ℕ) → v ≢ t → inside (phase v) ≡ false

-- The lock is open and nothing is under way; or one caller holds it, with its request not yet made,
-- or under way.
pub data Inv (a : Addresses) (req : ℕ → Request) (w : World) : Type 0 where
  idle :
      w.driver.disk.vdisk_lock ≡ 0
      → ((v : ℕ) → inside (w.phase v) ≡ false)
      → IsQuiet w.driver.disk
      → Inv a req w
  held :
      (t : ℕ)
      → w.driver.disk.vdisk_lock ≢ 0
      → w.phase t ≡ holding
      → OnlyInside w.phase t
      → IsQuiet w.driver.disk
      → Inv a req w
  busy :
      (t i0 i1 i2 : ℕ)
      → w.driver.disk.vdisk_lock ≢ 0
      → w.phase t ≡ waiting i0
      → OnlyInside w.phase t
      → IsBusy a (req t) i0 i1 i2 w.driver
      → Inv a req w
