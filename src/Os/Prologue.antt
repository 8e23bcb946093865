-- ===== src/Os/Prologue.antt =====
-- `os_main` of 10-SystemCall/src/os.c before its loop: os_start, disk_read and page_test.
pub mod Steps
pub mod Booted
pub mod Sent
pub mod Alternate
mod Tests
use mini_riscv_os.Common.{ℕ, List, [], ◌∷◌, ◌++◌, Option, none, some, Run, ok, hang, ◌>>=◌}
use mini_riscv_os.Console.{Call}
use mini_riscv_os.Uart.{Device}
use mini_riscv_os.Alloc.{Heap}
use mini_riscv_os.Alloc.Check.{page_test}
use mini_riscv_os.Virtio.Request.{Addresses, Driver}
use mini_riscv_os.Virtio.Tester.{TesterPhase, starting, over, transferring, Told, disk_read}
use mini_riscv_os.Machine.{Machine}
use mini_riscv_os.Os.{Image, System, os_start}
use mini_riscv_os.Os.Main.{Turns, in_kernel}

module _ {u : Device} where
  abbrev pub print_all : List Call → System u → System u
  print_all calls s = record s {
    machine = record s.machine { console = s.machine.console ++ calls };
  }

  -- `page_test` on the kernel's heap; the fuel is that of `free`.
  unfoldable pub test_pages : ℕ → System u → Run (System u)
  test_pages fuel s =
      let (calls, left) = page_test fuel s.heap in
      elim left [ none ↦ hang | some h ↦ ok (record (print_all calls s) { heap = h }) ]

  module _ (a : Addresses) where
    -- Steps of `disk_read` on the kernel's driver.
    unfoldable pub read_on : ℕ → TesterPhase → System u → Run (TesterPhase × System u)
    read_on steps p s = disk_read a steps p s.machine.driver >>= λ r.
        ok (r.1, print_all r.0 (record s { machine = record s.machine { driver = r.2 } }))

    -- From the first line of `os_main` on, with so many steps of `disk_read`.
    unfoldable pub os_main_starts : ℕ → Image → System u → Run (TesterPhase × System u)
    unfolding read_on
    os_main_starts steps image s = os_start image s >>= λ s1. read_on steps starting s1

    -- When `disk_read` is over, `page_test` follows.
    unfoldable pub os_main_goes_on : ℕ → ℕ → TesterPhase → System u → Run (TesterPhase × System u)
    unfolding read_on test_pages
    os_main_goes_on steps fuel p s = read_on steps p s >>= λ r. elim r.0 [
      | starting ↦ ok r
      | transferring q ↦ ok r
      | over ↦ (test_pages fuel r.1 >>= λ s'. ok (over, s'))
    ]

  -- The loop of `os_main` before its first round, with nothing of its history.
  unfoldable pub loop_start : System u → Turns
  loop_start s = record {
    kernel = s.kernel;
    current_task = 0;
    mode = in_kernel;
    console = s.machine.console;
    turns = [];
    called = λ r. 0;
    left = λ j. none;
  }
