-- ===== src/Virtio/World.antt =====
-- Callers of `virtio_disk_rw`, the device and its interrupts, in any order: the driver of
-- 10-SystemCall/src/virtio.c under a timer that may strike between any two steps.
pub mod Invariant
pub mod Locked
pub mod Transfer
pub mod Calls
pub mod Interrupts
pub mod Reachable
pub mod Progress
mod Tests
use mini_riscv_os.Common.{ℕ, ◌+◌, ◌%◌, ◌≡◌, ◌≢◌, Bool, update, Run, ok, ◌>>=◌}
use mini_riscv_os.Virtio.{num}
use mini_riscv_os.Virtio.Request.{
  Addresses, Driver, Phase, acquiring, returned, rw_step, virtio_disk_isr,
}
use mini_riscv_os.Virtio.Complete.{DeviceCompletes}

-- What a caller asks for: its buffer, and whether it is written to the disk.
pub record Request : Type 0 where
  pub buffer : ℕ
  pub write : Bool

-- The driver, and where the call of each caller stands.
pub record World : Type 0 where
  pub driver : Driver
  pub phase : ℕ → Phase

-- Caller `t` takes a step.
unfoldable pub call : Addresses → (ℕ → Request) → ℕ → World → Run World
call a req t w = rw_step a (req t).buffer (req t).write (w.phase t) w.driver >>= λ r.
    ok (record { driver = r.1; phase = update w.phase t r.0 })

unfoldable pub interrupt : (ℕ → ℕ) → ℕ → World → Run World
interrupt regs fuel w = virtio_disk_isr regs fuel w.driver >>= λ s. ok (record w { driver = s })

-- The device takes up the chains in the order of the available ring, reports no error, and leaves the
-- driver's own memory alone.
pub record Serves (s s' : Driver) : Type 0 where
  pub asked : s.disk.used.idx ≢ s.disk.avail.idx
  pub completes : DeviceCompletes (s.disk.avail.ring (s.disk.used.idx % num)) s s'
  pub avail : s'.disk.avail ≡ s.disk.avail
  pub lock : s'.disk.vdisk_lock ≡ s.disk.vdisk_lock
  pub pending : (b : ℕ) → (s'.blks b).disk ≡ (s.blks b).disk

-- `Lands p q` says that a caller that the timer strikes at `p` may go on at `q`: where it goes on
-- depends on its register ra, and so on the compiler.
module _ (a : Addresses) (req : ℕ → Request) (regs : ℕ → ℕ) (fuel : ℕ)
    (Lands : Phase → Phase → Type 0) where
  pub data Step : World → World → Type 0 where
    called : (t : ℕ) (w : World) {w' : World} → call a req t w ≡ ok w' → Step w w'
    begun :
        (t : ℕ) (w : World)
        → w.phase t ≡ returned
        → Step w (record w { phase = update w.phase t acquiring })
    struck :
        (t : ℕ) (w : World) (q : Phase)
        → Lands (w.phase t) q
        → Step w (record w { phase = update w.phase t q })
    served : (w : World) {s' : Driver} → Serves w.driver s' → Step w (record w { driver = s' })
    interrupted : (w : World) {w' : World} → interrupt regs fuel w ≡ ok w' → Step w w'

  pub data Reach (start : World) : World → Type 0 where
    here : Reach start start
    later : {w w' : World} → Reach start w → Step w w' → Reach start w'
