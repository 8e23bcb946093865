-- ===== src/Virtio/Finish.antt =====
-- The end of `virtio_disk_rw`: the chain is taken apart and its descriptors are free again.
use mini_riscv_os.Common.{
  ℕ, suc, ◌<◌, ◌≡◌, refl, ◌≢◌, bit_and, Bool, true, false, ◌==◌, if◌then◌else◌, update, ok, arith,
  ne→==, ap,
}
use mini_riscv_os.Virtio.{num, desc_f_next, VirtqDesc, Disk, empty_desc, free_chain}
use mini_riscv_os.Virtio.Triple.{free_desc-ok}
use mini_riscv_os.Virtio.Request.{Addresses, Driver, waiting, returned, finish, rw_step}
use mini_riscv_os.Virtio.Chain.{IsChain}

-- One round of `free_chain` at a descriptor in use.
free_chain_step :
    (fuel i : ℕ) (d : Disk)
    → i < num
    → d.free i ≡ 0
    → free_chain (suc fuel) i d ≡ (
        if bit_and (d.desc i).flags desc_f_next == 0
        then ok (record d { desc = update d.desc i empty_desc; free = update d.free i 1 })
        else free_chain fuel
            (d.desc i).next
            (record d { desc = update d.desc i empty_desc; free = update d.free i 1 }))
unfolding free_chain
free_chain_step fuel i d lt e = rw (free_desc-ok i d lt e)

-- `free_chain` at the head of a chain frees its three descriptors and clears them.
free_chain_three :
    (d : Disk) (i0 i1 i2 f1 : ℕ)
    → i0 < i1
    → i1 < i2
    → i2 < num
    → d.free i0 ≡ 0
    → d.free i1 ≡ 0
    → d.free i2 ≡ 0
    → (d.desc i0).flags ≡ 1
    → (d.desc i0).next ≡ i1
    → bit_and (d.desc i1).flags 1 ≡ 1
    → (d.desc i1).next ≡ i2
    → (d.desc i2).flags ≡ 2
    → free_chain num i0 d
      ≡ ok (record d {
        desc = update (update (update d.desc i0 empty_desc) i1 empty_desc) i2 empty_desc;
        free = update (update (update d.free i0 1) i1 1) i2 1;
      })
free_chain_three d i0 i1 i2 f1 l m h u0 u1 u2 fl0 n0 fl1 n1 fl2 =
    rw (free_chain_step 7 i0 d (omega arith) u0, fl0, n0)
      (rw
        (
          free_chain_step 6 i1
              (record d { desc = update d.desc i0 empty_desc; free = update d.free i0 1 })
              (omega arith) (ground arith),
          ne→== i0 i1 (omega arith),
          fl1,
          n1,
        )
        (rw (
          free_chain_step 5 i2
              (record d {
                desc = update (update d.desc i0 empty_desc) i1 empty_desc;
                free = update (update d.free i0 1) i1 1;
              })
              (omega arith) (ground arith),
          ne→== i1 i2 (omega arith),
          ne→== i0 i2 (omega arith),
          fl2,
        )))

-- The chain is taken apart and the lock is open; all else is as it was.
pub record Finished (i0 i1 i2 : ℕ) (s s' : Driver) : Type 0 where
  pub freed : (s'.disk.free i0 ≡ 1) × (s'.disk.free i1 ≡ 1) × (s'.disk.free i2 ≡ 1)
  pub others : (j : ℕ) → j ≢ i0 → j ≢ i1 → j ≢ i2 → s'.disk.free j ≡ s.disk.free j
  pub descs : (j : ℕ) → j ≢ i0 → j ≢ i1 → j ≢ i2 → s'.disk.desc j ≡ s.disk.desc j
  pub no_waiter : (s'.disk.info i0).b ≡ 0
  pub unlocked : s'.disk.vdisk_lock ≡ 0
  pub rings : (s'.disk.avail ≡ s.disk.avail) × (s'.disk.used ≡ s.disk.used)
  pub seen : s'.disk.used_idx ≡ s.disk.used_idx
  pub blks : s'.blks ≡ s.blks
  pub writes : s'.writes ≡ s.writes

-- The driver after `finish`.
abbrev pub finished : ℕ → ℕ → ℕ → Driver → Driver
finished i0 i1 i2 s = record s {
  disk = record s.disk {
    info = update s.disk.info i0 (record (s.disk.info i0) { b = 0 });
    desc = update (update (update s.disk.desc i0 empty_desc) i1 empty_desc) i2 empty_desc;
    free = update (update (update s.disk.free i0 1) i1 1) i2 1;
    vdisk_lock = 0;
  };
}

finish-Finished :
    {a : Addresses} {b : ℕ} {write : Bool} {i0 i1 i2 : ℕ} {s : Driver}
    → IsChain a b write i0 i1 i2 s
    → (s' : Driver) × (finish num i0 s ≡ ok s') × Finished i0 i1 i2 s s'
unfolding finish
finish-Finished {write} {i0} {i1} {i2} {s} c = (
  finished i0 i1 i2 s,
  rw (
      free_chain_three
        (record s.disk { info = update s.disk.info i0 (record (s.disk.info i0) { b = 0 }) }) i0 i1
        i2 0 c.low c.middle c.high c.used0 c.used1 c.used2
        (ap (λ (t : VirtqDesc). t.flags) c.header) (ap (λ (t : VirtqDesc). t.next) c.header)
        (rw c.payload (linked write)) (ap (λ (t : VirtqDesc). t.next) c.payload)
        (ap (λ (t : VirtqDesc). t.flags) c.ending)),
  record {
    freed = (
      ground (arith, c.low, c.middle),
      ground (arith, c.low, c.middle),
      ground (arith, c.low, c.middle),
    );
    others = λ j n0 n1 n2. ground arith;
    descs = λ j n0 n1 n2. ground arith;
    no_waiter = ground arith;
    unlocked = refl;
    rings = (refl, refl);
    seen = refl;
    blks = refl;
    writes = refl;
  },
)
  where
    linked : (write : Bool) → bit_and (if write then 1 else 3) 1 ≡ 1
    linked true = refl
    linked false = refl

-- A call of `virtio_disk_rw` that waits for its chain returns once its buffer is no longer pending:
-- the three descriptors are free again, nobody waits for the head, the lock is open, and the rest
-- of the driver is unchanged.
pub rw_step-finishes :
    {a : Addresses} {b : ℕ} {write : Bool} {i0 i1 i2 : ℕ} {s : Driver}
    → IsChain a b write i0 i1 i2 s
    → (s.blks b).disk ≢ 1
    → (s' : Driver) × (rw_step a b write (waiting i0) s ≡ ok (returned, s'))
      × Finished i0 i1 i2 s s'
unfolding rw_step
rw_step-finishes {b} {i0} {s} c done =
    let (s', run, f) = finish-Finished c in (s', rw (ne→== (s.blks b).disk 1 done, run), f)
