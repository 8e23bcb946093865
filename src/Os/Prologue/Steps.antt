-- ===== src/Os/Prologue/Steps.antt =====
-- `os_main` of 10-SystemCall/src/os.c before its loop, from the runs of the parts that it calls.
use mini_riscv_os.Common.{ℕ, ◌≡◌, refl, ap, List, Option, none, some, Run, ok, hang}
use mini_riscv_os.Console.{Call}
use mini_riscv_os.Uart.{Device}
use mini_riscv_os.Alloc.{Heap}
use mini_riscv_os.Alloc.Check.{page_test}
use mini_riscv_os.Virtio.Request.{Addresses, Driver}
use mini_riscv_os.Virtio.Tester.{TesterPhase, over, starting, disk_read}
use mini_riscv_os.Os.{Image, System, os_start}
use mini_riscv_os.Os.Prologue.{print_all, test_pages, read_on, os_main_starts, os_main_goes_on}

module _ {u : Device} (a : Addresses) where
  -- The steps of `disk_read`, from those on the driver.
  pub read_on_lem :
      (steps : ℕ) (p : TesterPhase) (s : System u) {calls : List Call} {p' : TesterPhase}
      {d : Driver}
      → disk_read a steps p s.machine.driver ≡ ok (calls, p', d)
      → read_on a steps p s
        ≡ ok (p', print_all calls (record s { machine = record s.machine { driver = d } }))
  unfolding read_on
  read_on_lem steps p s run = rw run refl

  pub os_main_starts_lem :
      (steps : ℕ) (image : Image) (s : System u) {s1 : System u} {r : TesterPhase × System u}
      → os_start image s ≡ ok s1
      → read_on a steps starting s1 ≡ ok r
      → os_main_starts a steps image s ≡ ok r
  unfolding os_main_starts
  os_main_starts_lem steps image s begun run = rw begun run

  pub test_pages_lem :
      (fuel : ℕ) (s : System u) {calls : List Call} {h : Heap}
      → page_test fuel s.heap ≡ (calls, some h)
      → test_pages fuel s ≡ ok (record (print_all calls s) { heap = h })
  unfolding test_pages
  test_pages_lem fuel s test =
      ap
        (λ (o : List Call × Option Heap). elim o.1 as (λ x. Run (System u)) [
          | none ↦ hang
          | some h ↦ ok (record (print_all o.0 s) { heap = h })
        ])
        test

  pub os_main_goes_on_lem :
      (steps fuel : ℕ) (p : TesterPhase) (s : System u) {s1 s2 : System u}
      → read_on a steps p s ≡ ok (over, s1)
      → test_pages fuel s1 ≡ ok s2
      → os_main_goes_on a steps fuel p s ≡ ok (over, s2)
  unfolding os_main_goes_on
  os_main_goes_on_lem steps fuel p s run test = rw (run, test) refl
