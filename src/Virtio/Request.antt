-- ===== src/Virtio/Request.antt =====
-- `virtio_disk_rw` and `virtio_disk_isr` over the disk, the buffers and the device's registers.
use mini_riscv_os.Common.{
  ℕ, zero, suc, ◌+◌, ◌/◌, ◌%◌, bit_and, bit_or, Bool, Option, some, List, [], ◌∷◌, ◌==◌,
  if◌then◌else◌, update, Run, ok, panic, hang, ◌>>=◌, u16, mul32,
}
use mini_riscv_os.Virtio.{
  num, block_size, desc_f_next, desc_f_write, VirtqDesc, VirtioBlkReq, Blk, Disk, alloc3_desc,
  free_chain,
}

abbrev pub blk_t_in : ℕ
blk_t_in = 0

abbrev pub blk_t_out : ℕ
blk_t_out = 1

abbrev pub queue_notify : ℕ
queue_notify = 0x050

abbrev pub interrupt_status : ℕ
interrupt_status = 0x060

abbrev pub interrupt_ack : ℕ
interrupt_ack = 0x064

-- Where the linker has put what the device reaches by address.
pub record Addresses : Type 0 where
  pub ops : ℕ → ℕ
  pub status : ℕ → ℕ
  pub bytes : ℕ → ℕ

-- The driver's memory, and the register writes it has made, the last one first.
pub record Driver : Type 0 where
  pub disk : Disk
  pub blks : ℕ → Blk
  pub writes : List (ℕ × ℕ)

abbrev pub locked : Driver → Driver
locked s = record s { disk = record s.disk { vdisk_lock = 1 } }

abbrev pub set_disk : ℕ → Blk → Blk
set_disk v b = record b { disk = v }

-- The part of `virtio_disk_rw` from the descriptors on to the notification.
unfoldable pub submit : Addresses → ℕ → Bool → ℕ → ℕ → ℕ → Driver → Driver
submit a b write i0 i1 i2 s =
    let d : Disk = s.disk in
    let sector : ℕ = mul32 (s.blks b).blockno (block_size / 512) in
    let request : VirtioBlkReq = record {
      kind = if write then blk_t_out else blk_t_in;
      reserved = 0;
      sector = sector;
    } in
    let desc0 : VirtqDesc = record { addr = a.ops i0; len = 16; flags = desc_f_next; next = i1 } in
    let desc1 : VirtqDesc = record {
      addr = a.bytes b;
      len = block_size;
      flags = bit_or (if write then 0 else desc_f_write) desc_f_next;
      next = i2;
    } in
    let desc2 : VirtqDesc = record {
      addr = a.status i0;
      len = 1;
      flags = desc_f_write;
      next = 0;
    } in
    record {
      disk = record d {
        ops = update d.ops i0 request;
        desc = update (update (update d.desc i0 desc0) i1 desc1) i2 desc2;
        info = update d.info i0 (record { b = b; status = 0 });
        avail = record {
          flags = d.avail.flags;
          idx = u16 (d.avail.idx + 1);
          ring = update d.avail.ring (d.avail.idx % num) i0;
        };
      };
      blks = update s.blks b (set_disk 1 (s.blks b));
      writes = (queue_notify, 0) ∷ s.writes;
    }

-- The end of `virtio_disk_rw`, once `b->disk` is not 1.
unfoldable pub finish : ℕ → ℕ → Driver → Run Driver
finish fuel i0 s =
    let d : Disk = s.disk in
    free_chain fuel i0 (record d { info = update d.info i0 (record (d.info i0) { b = 0 }) })
    >>= λ d'. ok (record s { disk = record d' { vdisk_lock = 0 } })

-- Where a call of `virtio_disk_rw` stands: at the lock, with the lock, waiting for the chain with
-- head `i0`, or back.
pub data Phase : Type 0 where
  acquiring holding returned : Phase
  waiting : ℕ → Phase

-- What `alloc3_desc` gives is submitted, or the loop turns again.
unfoldable pub submit_allocated :
    Addresses → ℕ → Bool → Driver → Option (List ℕ) × Disk → Phase × Driver
submit_allocated a b write s (some (i0 ∷ i1 ∷ i2 ∷ []), d) =
    (waiting i0, submit a b write i0 i1 i2 (record s { disk = d }))
submit_allocated a b write s (other, d) = (holding, record s { disk = d })

-- One turn of the loop that the call stands at. `atomic_swap` leaves a taken lock taken.
unfoldable pub rw_step : Addresses → ℕ → Bool → Phase → Driver → Run (Phase × Driver)
rw_step a b write acquiring s = ok (
  if s.disk.vdisk_lock == 0 then holding else acquiring,
  record s { disk = record s.disk { vdisk_lock = 1 } },
)
rw_step a b write holding s = alloc3_desc s.disk >>= λ r. ok (submit_allocated a b write s r)
rw_step a b write (waiting i0) s =
    if (s.blks b).disk == 1 then ok (waiting i0, s) else finish num i0 s >>= λ s'. ok (returned, s')
rw_step a b write returned s = ok (returned, s)

-- The `while` of `virtio_disk_isr`, on fuel.
unfoldable pub isr_loop : ℕ → Driver → Run Driver
isr_loop zero s = hang
isr_loop (suc fuel) s =
    let d : Disk = s.disk in
    let id : ℕ = (d.used.ring (d.used_idx % num)).id in
    let b : ℕ = (d.info id).b in
    let next : Driver = record s {
      disk = record d { used_idx = u16 (d.used_idx + 1) };
      blks = update s.blks b (set_disk 0 (s.blks b));
    } in
    let rest : Run Driver = isr_loop fuel next in
    if d.used_idx == d.used.idx
    then ok s
    else if (d.info id).status == 0
    then rest
    else panic "virtio_disk_intr status"

-- `regs` is what the device's registers read as.
unfoldable pub virtio_disk_isr : (ℕ → ℕ) → ℕ → Driver → Run Driver
virtio_disk_isr regs fuel s =
    isr_loop fuel
      (record s { writes = (interrupt_ack, bit_and (regs interrupt_status) 3) ∷ s.writes })
