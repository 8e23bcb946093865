-- ===== src/Virtio/Isr.antt =====
-- `virtio_disk_isr` handles every completion that the device has put in the used ring.
use mini_riscv_os.Common.{
  ℕ, zero, suc, ◌+◌, ◌-◌, ◌%◌, ◌^◌, ◌<◌, ◌≡◌, refl, ◌≢◌, Bool, false, List, [], ◌∷◌, ◌==◌, ◌||◌,
  if◌then◌else◌, update, ok, arith, u16, bit_and, ne→==, eq→==, ap,
}
use mini_riscv_os.Virtio.{num, Info, Disk}
use mini_riscv_os.Virtio.Request.{
  Driver, set_disk, isr_loop, virtio_disk_isr, interrupt_ack, interrupt_status,
}

-- The info entry that the `m`-th completion from `used_idx` on names.
abbrev pub completion : Disk → ℕ → Info
completion d i = d.info (d.used.ring (i % num)).id

-- The buffers of `n` completions from index `i` on, in order.
abbrev pub completed : Disk → ℕ → ℕ → List ℕ
completed d zero i = []
completed d (suc n) i = (completion d i).b ∷ completed d n (u16 (i + 1))

-- None of these completions reports an error.
abbrev pub AllOk : Disk → ℕ → ℕ → Type 0
AllOk d zero i = Unit {0}
AllOk d (suc n) i = ((completion d i).status ≡ 0) × AllOk d n (u16 (i + 1))

abbrev pub elem : ℕ → List ℕ → Bool
elem b [] = false
elem b (c ∷ cs) = c == b || elem b cs

-- How many completions are waiting, modulo 2 ^ 16.
abbrev pub backlog : Disk → ℕ
backlog d = (d.used.idx + 2 ^ 16 - d.used_idx) % 2 ^ 16

-- Both indices are uint16.
pub record IsRing (d : Disk) : Type 0 where
  pub seen : d.used_idx < 2 ^ 16
  pub made : d.used.idx < 2 ^ 16

-- The interrupt handler has caught up: the buffers of the list are released, no other is touched.
pub record CaughtUp (bufs : List ℕ) (s s' : Driver) : Type 0 where
  pub disk : s'.disk ≡ record s.disk { used_idx = s.disk.used.idx }
  pub blks : (b : ℕ) → s'.blks b ≡ (if elem b bufs then set_disk 0 (s.blks b) else s.blks b)
  pub writes : s'.writes ≡ s.writes

abbrev pub after_one : Driver → Driver
after_one s =
    let b : ℕ = (completion s.disk s.disk.used_idx).b in
    record s {
      disk = record s.disk { used_idx = u16 (s.disk.used_idx + 1) };
      blks = update s.blks b (set_disk 0 (s.blks b));
    }

CaughtUp-nil : (s : Driver) → s.disk.used_idx ≡ s.disk.used.idx → CaughtUp [] s s
CaughtUp-nil s same = record {
  disk = ap (λ (t : ℕ). record s.disk { used_idx = t }) same;
  blks = λ b. refl;
  writes = refl;
}

CaughtUp-cons :
    {bufs : List ℕ} {s s' : Driver}
    → CaughtUp bufs (after_one s) s'
    → CaughtUp ((completion s.disk s.disk.used_idx).b ∷ bufs) s s'
CaughtUp-cons {bufs} {s} c = record {
  disk = c.disk;
  blks = λ b. ground (arith, c.blks b);
  writes = c.writes;
}

isr_loop-CaughtUp :
    (n fuel : ℕ) (s : Driver)
    → IsRing s.disk
    → backlog s.disk ≡ n
    → n < fuel
    → AllOk s.disk n s.disk.used_idx
    → (s' : Driver) × (isr_loop fuel s ≡ ok s') × CaughtUp (completed s.disk n s.disk.used_idx) s s'
unfolding isr_loop
isr_loop-CaughtUp n zero s ring e lt all = absurd (omega arith)
isr_loop-CaughtUp zero (suc fuel) s ring e lt all =
    let same : s.disk.used_idx ≡ s.disk.used.idx = omega (arith, ring.seen, ring.made) in
    (s, rw (eq→== s.disk.used_idx s.disk.used.idx same), CaughtUp-nil s same)
isr_loop-CaughtUp (suc n) (suc fuel) s ring e lt all =
    let other : s.disk.used_idx ≢ s.disk.used.idx = omega (arith, ring.seen, ring.made) in
    let (s', run, c) =
      isr_loop-CaughtUp n fuel (after_one s) (record { seen = omega arith; made = ring.made })
        (omega (arith, ring.seen, ring.made)) (omega arith) all.1 in
    (s', rw (ne→== s.disk.used_idx s.disk.used.idx other, all.0, run), CaughtUp-cons c)

-- `virtio_disk_isr` ends, given more fuel than there are completions, if none of them reports an
-- error. It has acknowledged the interrupt, has caught up with the device's index, has released
-- the buffer of every completion, and has changed nothing else.
pub virtio_disk_isr-CaughtUp :
    (regs : ℕ → ℕ) (fuel : ℕ) (s : Driver)
    → IsRing s.disk
    → backlog s.disk < fuel
    → AllOk s.disk (backlog s.disk) s.disk.used_idx
    → (s' : Driver) × (virtio_disk_isr regs fuel s ≡ ok s')
      × CaughtUp
          (completed s.disk (backlog s.disk) s.disk.used_idx)
          (record s { writes = (interrupt_ack, bit_and (regs interrupt_status) 3) ∷ s.writes })
          s'
unfolding virtio_disk_isr
virtio_disk_isr-CaughtUp regs fuel s ring lt all =
    isr_loop-CaughtUp (backlog s.disk) fuel
      (record s { writes = (interrupt_ack, bit_and (regs interrupt_status) 3) ∷ s.writes }) ring
      refl lt all
