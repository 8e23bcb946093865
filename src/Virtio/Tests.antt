-- ===== src/Virtio/Tests.antt =====
-- The driver at a disk that has served no request yet.
use mini_riscv_os.Common.{ℕ, ◌<◌, ◌≡◌, refl, true, [], ◌∷◌, ok, arith, bit_and}
use mini_riscv_os.Virtio.{Disk, Blk, empty_desc}
use mini_riscv_os.Virtio.Triple.{take3}
use mini_riscv_os.Virtio.Sample.{addresses}
use mini_riscv_os.Virtio.Request.{
  Driver, waiting, returned, submit, rw_step, virtio_disk_isr, interrupt_ack,
}
use mini_riscv_os.Virtio.Chain.{IsChain, Submitted, submit-Submitted}
use mini_riscv_os.Virtio.Isr.{IsRing, AllOk, CaughtUp, backlog, completed, virtio_disk_isr-CaughtUp}
use mini_riscv_os.Virtio.Complete.{transfer_completes, DeviceCompletes, TransferOver}

abbrev fresh : Disk
fresh = record {
  desc = λ j. empty_desc;
  avail = record { flags = 0; idx = 0; ring = λ j. 0 };
  used = record { flags = 0; idx = 0; ring = λ j. record { id = 0; len = 0 } };
  free = λ j. 1;
  info = λ j. record { b = 0; status = 0 };
  used_idx = 0;
  ops = λ j. record { kind = 0; reserved = 0; sector = 0 };
  vdisk_lock = 1;
}

abbrev buffer : ℕ → Blk
buffer b = record { dev = 1; blockno = 1; lock = 0; disk = 0; bytes = λ i. 0 }

abbrev driver : Driver
driver = record { disk = fresh; blks = buffer; writes = [] }

-- A write of buffer 3 with the descriptors 0, 1 and 2; then the device's answer.
abbrev asked : Driver
asked = submit addresses 3 true 0 1 2 (record driver { disk = take3 0 1 2 fresh })

asked-Submitted : Submitted addresses 3 true driver 0 1 2 asked
asked-Submitted =
    submit-Submitted addresses 3 true driver 0 1 2 (omega arith) (omega arith) (omega arith)
      (omega arith) (omega arith) (omega arith)

abbrev answered : Driver
answered = record asked {
  disk = record asked.disk {
    used = record { flags = 0; idx = 1; ring = λ j. record { id = 0; len = 513 } };
  };
}

answered-DeviceCompletes : DeviceCompletes 0 asked answered
unfolding submit
answered-DeviceCompletes = record {
  desc = λ j. refl;
  free = λ j. refl;
  waiter = refl;
  status = refl;
  entry = refl;
  counted = refl;
  used_idx = refl;
}

answered-AllOk : AllOk answered.disk (backlog answered.disk) answered.disk.used_idx
unfolding submit
answered-AllOk = (refl, tt)

answered-IsRing : IsRing answered.disk
unfolding submit
answered-IsRing = record { seen = omega arith; made = omega arith }

answered-backlog : backlog answered.disk < 2
unfolding submit
answered-backlog = omega arith

virtio_disk_isr-CaughtUp_example :
    (s' : Driver) × (virtio_disk_isr (λ r. 1) 2 answered ≡ ok s')
    × CaughtUp
        (completed answered.disk (backlog answered.disk) answered.disk.used_idx)
        (record answered { writes = (interrupt_ack, bit_and 1 3) ∷ answered.writes })
        s'
virtio_disk_isr-CaughtUp_example =
    virtio_disk_isr-CaughtUp (λ r. 1) 2 answered answered-IsRing answered-backlog answered-AllOk

transfer_completes_example :
    (s3 : Driver) × (s4 : Driver) × (virtio_disk_isr (λ r. 1) 2 answered ≡ ok s3)
    × (rw_step addresses 3 true (waiting 0) s3 ≡ ok (returned, s4))
    × TransferOver 3 driver s4
    × ((v : ℕ)
        → ((s4.blks v).bytes ≡ (answered.blks v).bytes)
          × ((s4.blks v).blockno ≡ (answered.blks v).blockno))
transfer_completes_example =
    transfer_completes (λ r. 1) 2 asked-Submitted answered-DeviceCompletes
      (record { seen = omega arith; made = omega arith }) refl (omega arith)

-- The buffer is released: the chain is as it was built.
abbrev served : Driver
served = record asked { blks = buffer }

served-IsChain : IsChain addresses 3 true 0 1 2 served
served-IsChain =
    let c = asked-Submitted.chain in
    record {
      low = c.low;
      middle = c.middle;
      high = c.high;
      used0 = c.used0;
      used1 = c.used1;
      used2 = c.used2;
      header = c.header;
      payload = c.payload;
      ending = c.ending;
      waiter = c.waiter;
    }
