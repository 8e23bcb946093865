-- ===== src/Virtio/Tester/Read.antt =====
-- The read that `os_main` makes after the start, from its first call to the last byte it prints.
use mini_riscv_os.Common.{
  ℕ, ◌^◌, ◌<◌, ◌≡◌, refl, ap, ◌∙◌, subst, sym, false, List, [], ◌∷◌, ◌==◌, ok, Bool-cases, inl, inr,
}
use mathlib.Core.List.{append-nil}
use mini_riscv_os.Console.{Call, puts, printf, int}
use mini_riscv_os.Virtio.{Disk}
use mini_riscv_os.Virtio.Request.{
  locked, Addresses, Driver, waiting, returned, rw_step, virtio_disk_isr,
}
use mini_riscv_os.Virtio.Chain.{HasThree, Submitted, rw_step-submits, HasThree-free, acquires}
use mini_riscv_os.Virtio.Ready.{IsReady}
use mini_riscv_os.Virtio.Complete.{DeviceCompletes, TransferOver, transfer_completes}
use mini_riscv_os.Virtio.Tester.{
  starting, over, transferring, tester_prepare, tester_bytes, tester_report, virtio_tester,
  disk_read,
}

-- The ten lines of a buffer's first bytes.
abbrev pub lines_of : (ℕ → ℕ) → List Call
lines_of bytes =
    printf "%x \n" (int (bytes 0) ∷ [])
    ∷ printf "%x \n" (int (bytes 1) ∷ [])
    ∷ printf "%x \n" (int (bytes 2) ∷ [])
    ∷ printf "%x \n" (int (bytes 3) ∷ [])
    ∷ printf "%x \n" (int (bytes 4) ∷ [])
    ∷ printf "%x \n" (int (bytes 5) ∷ [])
    ∷ printf "%x \n" (int (bytes 6) ∷ [])
    ∷ printf "%x \n" (int (bytes 7) ∷ [])
    ∷ printf "%x \n" (int (bytes 8) ∷ [])
    ∷ printf "%x \n" (int (bytes 9) ∷ [])
    ∷ puts "\n"
    ∷ []

report-lines_of : (s : Driver) → tester_report s ≡ lines_of (s.blks 0).bytes
unfolding tester_report tester_bytes
report-lines_of s = refl

-- The set-up of the buffer leaves the disk alone.
prepare-disk : (s : Driver) → (tester_prepare s).1.disk ≡ s.disk
unfolding tester_prepare
prepare-disk s = elim (Bool-cases ((s.blks 0).dev == 0)) [
  | inl unset ↦ rw unset refl
  | inr set ↦ rw set refl
]

-- Set-up, lock and submission.
disk_read-submits :
    (a : Addresses) (s : Driver)
    → HasThree s.disk
    → s.disk.vdisk_lock ≡ 0
    → (i0 : ℕ) × (i1 : ℕ) × (i2 : ℕ) × (s1 : Driver) × (disk_read a 3 starting s
        ≡ ok ((tester_prepare s).0, transferring (waiting i0), s1))
      × Submitted a 0 false (locked (tester_prepare s).1) i0 i1 i2 s1
unfolding disk_read virtio_tester
disk_read-submits a s three open_lock =
    let prepared : Driver = (tester_prepare s).1 in
    let same : prepared.disk ≡ s.disk = prepare-disk s in
    let open_still : prepared.disk.vdisk_lock ≡ 0 =
      ap (λ (d : Disk). d.vdisk_lock) same ∙ open_lock in
    let some_free : HasThree prepared.disk = subst HasThree (sym same) three in
    let (i0, i1, i2, s1, run, sub) =
      rw_step-submits a 0 false (locked prepared) (HasThree-free (λ j. refl) some_free) in
    (
      i0,
      i1,
      i2,
      s1,
      rw (acquires a 0 false prepared open_still, run)
          (ap (λ (c : List Call). ok (c, transferring (waiting i0), s1))
            (append-nil (tester_prepare s).0)),
      sub,
    )

-- The end of the call, and the report.
disk_read-reports :
    (a : Addresses) (i0 : ℕ) (s s' : Driver)
    → rw_step a 0 false (waiting i0) s ≡ ok (returned, s')
    → disk_read a 2 (transferring (waiting i0)) s ≡ ok (lines_of (s'.blks 0).bytes, over, s')
unfolding disk_read virtio_tester
disk_read-reports a i0 s s' run =
    rw run (
      ap (λ (c : List Call). ok (c, over, s')) (append-nil (tester_report s') ∙ report-lines_of s'))

-- `disk_read` on a driver as `virtio_disk_init` leaves it submits a read of the first buffer. When
-- a device that completes requests has done so and the interrupt handler has run, it goes on to its
-- end and prints the first ten bytes that the device has left in the buffer; the same descriptors
-- are free as before, and the lock is open.
pub disk_read_lem :
    (a : Addresses) (s : Driver) (regs : ℕ → ℕ) (fuel : ℕ) (device : ℕ → Driver → Driver)
    → IsReady s.disk
    → 1 < fuel
    → ((i0 : ℕ) (s1 : Driver) → DeviceCompletes i0 s1 (device i0 s1))
    → (i0 : ℕ) × (s1 : Driver) × (s3 : Driver) × (s4 : Driver) × (disk_read a 3 starting s
        ≡ ok ((tester_prepare s).0, transferring (waiting i0), s1))
      × (virtio_disk_isr regs fuel (device i0 s1) ≡ ok s3)
      × (disk_read a 2 (transferring (waiting i0)) s3
          ≡ ok (lines_of ((device i0 s1).blks 0).bytes, over, s4))
      × TransferOver 0 s s4
disk_read_lem a s regs fuel device ready enough completes =
    let (i0, i1, i2, s1, run, sub) = disk_read-submits a s ready.three ready.unlocked in
    let same : (tester_prepare s).1.disk ≡ s.disk = prepare-disk s in
    let (s3, s4, isr, back, e, kept) =
      transfer_completes regs fuel sub (completes i0 s1)
        (record {
          seen = subst (λ (d : Disk). d.used_idx < 2 ^ 16) (sym same) ready.ring.seen;
          made = subst (λ (d : Disk). d.used.idx < 2 ^ 16) (sym same) ready.ring.made;
        })
        (subst (λ (d : Disk). d.used_idx ≡ d.used.idx) (sym same) ready.idle) enough in
    (
      i0,
      s1,
      s3,
      s4,
      run,
      isr,
      disk_read-reports a i0 s3 s4 back ∙ ap (λ (l : ℕ → ℕ). ok (lines_of l, over, s4)) (kept 0).0,
      record {
        free = λ j. e.free j ∙ ap (λ (d : Disk). d.free j == 0) same;
        unlocked = e.unlocked;
        released = e.released;
        caught_up = e.caught_up;
        ring = e.ring;
      },
    )
