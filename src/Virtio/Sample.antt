-- ===== src/Virtio/Sample.antt =====
-- Addresses and a device to try the driver with.
use mini_riscv_os.Common.{ℕ, ◌+◌, ◌*◌, ◌%◌, refl, ap, update, update_self, u16}
use mini_riscv_os.Virtio.{num, Info, VirtqUsedElem}
use mini_riscv_os.Virtio.Request.{Addresses, Driver}
use mini_riscv_os.Virtio.Complete.{DeviceCompletes}

abbrev pub addresses : Addresses
addresses = record { ops = λ i. 1000 + 16 * i; status = λ i. 2000 + 8 * i; bytes = λ b. 4096 * b }

-- A device that fills the first buffer with sevens.
abbrev pub sevens : ℕ → Driver → Driver
sevens i0 s = record s {
  disk = record s.disk {
    used = record {
      flags = s.disk.used.flags;
      idx = u16 (s.disk.used.idx + 1);
      ring = update s.disk.used.ring (s.disk.used.idx % num) (record { id = i0; len = 513 });
    };
    info = update s.disk.info i0 (record (s.disk.info i0) { status = 0 });
  };
  blks = update s.blks 0 (record (s.blks 0) { bytes = λ j. 7 });
}

pub sevens-DeviceCompletes : (i0 : ℕ) (s : Driver) → DeviceCompletes i0 s (sevens i0 s)
sevens-DeviceCompletes i0 s = record {
  desc = λ j. refl;
  free = λ j. refl;
  waiter = ap (λ (i : Info). i.b) (update_self s.disk.info i0 _);
  status = ap (λ (i : Info). i.status) (update_self s.disk.info i0 _);
  entry = ap (λ (e : VirtqUsedElem). e.id) (update_self s.disk.used.ring (s.disk.used.idx % num) _);
  counted = refl;
  used_idx = refl;
}
