-- ===== src/Virtio/Tester.antt =====
-- `virtio_tester` of 10-SystemCall/src/virtio.c, and `disk_read` of os.c, which calls it.
pub mod Read
use mini_riscv_os.Common.{
  ℕ, zero, suc, ◌+◌, Bool, false, ◌++◌, Run, ok, ◌>>=◌, List, [], ◌∷◌, ltb, ◌==◌, if◌then◌else◌,
  update,
}
use mini_riscv_os.Console.{Call, puts, printf, int}
use mini_riscv_os.Virtio.{block_size, Blk}
use mini_riscv_os.Virtio.Request.{Addresses, Driver, Phase, acquiring, returned, rw_step}

-- `b[i]` as the loop of the set-up leaves it.
abbrev pub reset_blk : Blk → Blk
reset_blk b = record b {
  dev = 1;
  blockno = 1;
  lock = 0;
  bytes = λ j. if ltb j block_size then 0 else b.bytes j;
}

-- The buffer that is read has index 0. What is printed, and the driver to call with.
unfoldable pub tester_prepare : Driver → List Call × Driver
tester_prepare s =
    let reading : Call = puts "block read...\n" in
    if (s.blks 0).dev == 0
    then (
      puts "buffer init...\n" ∷ reading ∷ [],
      record s { blks = update s.blks 0 (reset_blk (s.blks 0)) },
    )
    else (reading ∷ [], s)

-- The loop that prints `count` bytes from index `i` on.
unfoldable pub tester_bytes : ℕ → ℕ → Driver → List Call
tester_bytes zero i s = puts "\n" ∷ []
tester_bytes (suc count) i s =
    printf "%x \n" (int ((s.blks 0).bytes i) ∷ []) ∷ tester_bytes count (i + 1) s

unfoldable pub tester_report : Driver → List Call
unfolding tester_bytes
tester_report s = tester_bytes 10 0 s

-- Before the call of `virtio_disk_rw`, in it, or at the end.
pub data TesterPhase : Type 0 where
  starting over : TesterPhase
  transferring : Phase → TesterPhase

-- What is printed, where the tester stands, and the driver.
abbrev pub Told : Type 0
Told = List Call × TesterPhase × Driver

unfoldable pub virtio_tester : Addresses → Bool → TesterPhase → Driver → Run Told
unfolding tester_prepare tester_report
virtio_tester a write starting s =
    let (calls, s') = tester_prepare s in ok (calls, transferring acquiring, s')
virtio_tester a write (transferring returned) s = ok (tester_report s, over, s)
virtio_tester a write (transferring p) s =
    rw_step a 0 write p s >>= λ r. ok ([], transferring r.0, r.1)
virtio_tester a write over s = ok ([], over, s)

-- `disk_read` in so many steps of the tester.
unfoldable pub disk_read : Addresses → ℕ → TesterPhase → Driver → Run Told
unfolding virtio_tester
disk_read a zero p s = ok ([], p, s)
disk_read a (suc steps) p s = virtio_tester a false p s >>= λ r.
    disk_read a steps r.1 r.2 >>= λ rest. ok (r.0 ++ rest.0, rest.1, rest.2)
