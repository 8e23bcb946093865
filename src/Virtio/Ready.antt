-- ===== src/Virtio/Ready.antt =====
-- What `virtio_disk_init` leaves: a driver that can take requests, or a panic that says why not.
use mini_riscv_os.Common.{
  ℕ, ◌≤◌, ◌<◌, ◌≡◌, refl, inl, inr, true, false, List, Run, ok, panic, arith, Bool-cases, ltb, ◌==◌,
}
use mini_riscv_os.Console.{Call}
use mini_riscv_os.Virtio.{num, Disk}
use mini_riscv_os.Virtio.Reg
use mini_riscv_os.Virtio.Chain.{HasThree}
use mini_riscv_os.Virtio.Isr.{IsRing}
use mini_riscv_os.Virtio.Init.{is_disk, reset_queue, init_writes, virtio_disk_init}

-- The driver after a successful call.
pub record IsReady (d : Disk) : Type 0 where
  pub free : (j : ℕ) → j < num → d.free j ≡ 1
  pub three : HasThree d
  pub ring : IsRing d
  pub idle : d.used_idx ≡ d.used.idx
  pub unlocked : d.vdisk_lock ≡ 0

-- How `virtio_disk_init` ends, by what the registers say.
pub data Inits (regs : ℕ → ℕ) (pages : ℕ) : Run (Disk × List (ℕ × ℕ) × List Call) → Type 0 where
  wrong_device : is_disk regs ≡ false → Inits regs pages (panic "could not find virtio disk")
  no_queue :
      is_disk regs ≡ true
      → regs Reg.queue_num_max ≡ 0
      → Inits regs pages (panic "virtio disk has no queue 0\n")
  short_queue :
      is_disk regs ≡ true
      → 0 < regs Reg.queue_num_max
      → regs Reg.queue_num_max < num
      → Inits regs pages (panic "virtio disk max queue too short\n")
  ready :
      {d : Disk} {calls : List Call}
      → is_disk regs ≡ true
      → num ≤ regs Reg.queue_num_max
      → IsReady d
      → Inits regs pages (ok (d, init_writes regs pages, calls))

pub reset_queue-IsReady :
    (d : Disk) → d.used_idx ≡ 0 → IsReady (record (reset_queue d) { vdisk_lock = 0 })
unfolding reset_queue
reset_queue-IsReady d zero_idx = record {
  free = λ j lt. ground arith;
  three = record {
    j0 = 0;
    j1 = 1;
    j2 = 2;
    low = omega arith;
    middle = omega arith;
    high = omega arith;
    free0 = ground arith;
    free1 = ground arith;
    free2 = ground arith;
  };
  ring = record { seen = omega arith; made = omega arith };
  idle = zero_idx;
  unlocked = refl;
}

-- `virtio_disk_init` panics with the message that fits if the device is not the one that it knows,
-- has no queue, or a queue of fewer than NUM entries; otherwise it has made its register writes,
-- and the driver is ready: all descriptors free, the ring idle, the lock open.
pub virtio_disk_init-Inits :
    (regs : ℕ → ℕ) (pages : ℕ) (d : Disk)
    → d.used_idx ≡ 0
    → Inits regs pages (virtio_disk_init regs pages d)
unfolding virtio_disk_init
virtio_disk_init-Inits regs pages d zero_idx = elim (Bool-cases (is_disk regs)) [
  | inr other ↦ rw other (wrong_device other)
  | inl known ↦ rw known (elim (Bool-cases (regs Reg.queue_num_max == 0)) [
    | inl absent ↦ rw absent (no_queue known (ground arith))
    | inr present ↦ rw present (elim (Bool-cases (ltb (regs Reg.queue_num_max) num)) [
      | inl short ↦ rw short (short_queue known (ground arith) (ground arith))
      | inr long ↦ rw long (ready known (ground arith) (reset_queue-IsReady d zero_idx))
    ])
  ])
]
