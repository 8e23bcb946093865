-- ===== src/Os/Prologue/Booted.antt =====
-- `os_main` reaches its loop, and what it has done by then.
use mini_riscv_os.Common.{
  ℕ, ◌≤◌, ◌<◌, ◌≡◌, refl, ap, sym, ◌∙◌, subst, List, [], ◌∷◌, ◌++◌, ok, arith, ◌==◌, true, false,
}
use mathlib.Core.List.{append_assoc}
use mini_riscv_os.Common.Bits.{bit}
use mini_riscv_os.Console.{Call, puts}
use mini_riscv_os.Uart.{Device}
use mini_riscv_os.Alloc.{page_init}
use mini_riscv_os.Alloc.Init.{IsHeap}
use mini_riscv_os.Alloc.Blocks.{Represents}
use mini_riscv_os.Alloc.PageTest.{page_lines, page_test_lem}
use mini_riscv_os.Virtio.{num, Blk}
use mini_riscv_os.Virtio.Reg
use mini_riscv_os.Virtio.Init.{is_disk}
use mini_riscv_os.Virtio.Request.{Addresses, Driver, waiting}
use mini_riscv_os.Virtio.Complete.{DeviceCompletes}
use mini_riscv_os.Virtio.Tester.{over, transferring, starting, tester_prepare}
use mini_riscv_os.Virtio.Tester.Read.{lines_of, disk_read_lem}
use mini_riscv_os.Machine.{Machine, virtio_irq}
use mini_riscv_os.Task.{frame_saved}
use mini_riscv_os.Task.Switch.{SameOn}
use mini_riscv_os.Trap.{Fuel, plic_claim, plic_complete, timer_init, plic_init, trap_init}
use mini_riscv_os.Trap.Entry.{take_trap, enter_frame, disk_trap}
use mini_riscv_os.Boot.{Sections, link}
use mini_riscv_os.Boot.Memory.{IsLinked, link-IsHeap}
use mini_riscv_os.Os.{Image, System, user_init, os_start}
use mini_riscv_os.Os.Start.{IsStarted, started, os_start_lem, started-IsStarted}
use mini_riscv_os.Os.Prologue.{print_all, os_main_starts, os_main_goes_on}
use mini_riscv_os.Os.Prologue.Steps.{
  read_on_lem, os_main_starts_lem, test_pages_lem, os_main_goes_on_lem,
}

-- What the kernel has printed when it waits for the disk.
abbrev pub start_log : List Call → List Call
start_log calls =
    calls
    ++ puts "OS start\n"
      ∷ puts "Disk init work is success!\n"
      ∷ puts "buffer init...\n"
      ∷ puts "block read...\n"
      ∷ []

-- What it prints from the interrupt on, when the device has read these bytes.
abbrev pub read_log : (ℕ → ℕ) → ℕ → List Call
read_log bytes pool = puts "Virtio IRQ\n" ∷ lines_of bytes ++ page_lines pool

-- A kernel in front of its loop, which has grown from `s`.
pub record IsBooted {u : Device} (image : Image) (bytes : ℕ → ℕ) (s e : System u) : Type 0 where
  pub heap : Represents e.heap []
  pub free : (j : ℕ) → j < num → (e.machine.driver.disk.free j == 0) ≡ false
  pub unlocked : e.machine.driver.disk.vdisk_lock ≡ 0
  pub kernel : e.kernel ≡ user_init image s.kernel
  pub vector : e.machine.mtvec ≡ image.trap_entry
  pub timer : bit e.machine.mie 7 ≡ 1
  pub external : bit e.machine.mie 11 ≡ 1
  pub interrupts : bit e.machine.mstatus 3 ≡ 1
  pub log :
      e.machine.console
      ≡ s.machine.console
        ++ start_log (page_init image.symbols s.heap).0
        ++ read_log bytes (page_init image.symbols s.heap).1.alloc_start

log_lem :
    (before calls lines tested : List Call)
    → ((((((before ++ calls) ++ puts "OS start\n" ∷ []) ++ puts "Disk init work is success!\n" ∷ [])
              ++ puts "buffer init...\n" ∷ puts "block read...\n" ∷ [])
            ++ puts "Virtio IRQ\n" ∷ [])
          ++ lines)
        ++ tested
      ≡ before ++ start_log calls ++ (puts "Virtio IRQ\n" ∷ (lines ++ tested))
log_lem before calls lines tested = simp append_assoc

module _ {u : Device} (image : Image) (s : System u) where
  started-console :
      (started image s).machine.console
      ≡ ((s.machine.console ++ (page_init image.symbols s.heap).0) ++ puts "OS start\n" ∷ [])
        ++ puts "Disk init work is success!\n" ∷ []
  unfolding timer_init plic_init trap_init
  started-console = refl

  started-blks : (started image s).machine.driver.blks ≡ s.machine.driver.blks
  unfolding timer_init plic_init trap_init
  started-blks = refl

  started-claim : plic_claim (started image s).machine ≡ plic_claim s.machine
  unfolding plic_claim timer_init plic_init trap_init
  started-claim = refl

  driver-claim :
      (m : Machine u) (d : Driver) (calls : List Call)
      → plic_claim (record m { driver = d; console = calls }) ≡ plic_claim m
  unfolding plic_claim
  driver-claim m d calls = refl

  prepare-calls :
      (d : Driver)
      → (d.blks 0).dev ≡ 0
      → (tester_prepare d).0 ≡ puts "buffer init...\n" ∷ puts "block read...\n" ∷ []
  unfolding tester_prepare
  prepare-calls d unset = ground (arith, unset)

  booted_log :
      (bytes : ℕ → ℕ)
      → (s.machine.driver.blks 0).dev ≡ 0
      → ((((started image s).machine.console ++ (tester_prepare (started image s).machine.driver).0)
              ++ puts "Virtio IRQ\n" ∷ [])
            ++ lines_of bytes)
          ++ page_lines (page_init image.symbols s.heap).1.alloc_start
        ≡ s.machine.console
          ++ start_log (page_init image.symbols s.heap).0
          ++ read_log bytes (page_init image.symbols s.heap).1.alloc_start
  booted_log bytes unset =
      let asked : (tester_prepare (started image s).machine.driver).0
          ≡ puts "buffer init...\n" ∷ puts "block read...\n" ∷ [] =
        prepare-calls (started image s).machine.driver
          (ap (λ (b : ℕ → Blk). (b 0).dev) started-blks ∙ unset) in
      rw (started-console, asked)
        (log_lem s.machine.console (page_init image.symbols s.heap).0 (lines_of bytes)
          (page_lines (page_init image.symbols s.heap).1.alloc_start))

module _ {u : Device} (a : Addresses) (image : Image) (s : System u) (fuel : Fuel)
    (pages entry pc : ℕ) (regs : ℕ → ℕ) (device : ℕ → Driver → Driver) where
  -- On an image that is linked in memory with room for eight pages, and with the disk that the driver
  -- knows, `os_main` reaches its loop, if the driver's index and the first buffer's device are zero at
  -- the start, the device completes every request, the interrupt is that of the disk and the only one,
  -- and there is fuel for two rounds of the handler and four pages in `free`: `os_main` comes to wait
  -- for the read; the interrupt goes on where it struck with the registers that the frame holds; and
  -- the rest ends with a sound heap without blocks, all descriptors free, the lock open, the tasks of
  -- user_init created, the trap vector set, interrupts enabled, and one fixed sequence of calls
  -- printed, among them the first ten bytes that the device has left in the buffer.
  pub os_main-IsBooted :
      (sections : Sections)
      → IsLinked sections
      → image.symbols ≡ link sections
      → 8 ≤ (page_init image.symbols s.heap).1.num_pages
      → is_disk s.machine.virtio_regs ≡ true
      → num ≤ s.machine.virtio_regs Reg.queue_num_max
      → s.machine.driver.disk.used_idx ≡ 0
      → (s.machine.driver.blks 0).dev ≡ 0
      → plic_claim s.machine ≡ virtio_irq
      → 1 < fuel.blocks
      → 4 ≤ pages
      → ((i0 : ℕ) (d : Driver) → DeviceCompletes i0 d (device i0 d))
      → (i0 : ℕ) × (w : System u) × (regs' : ℕ → ℕ) × (m : Machine u) × (e : System u)
        × (os_main_starts a 3 image s ≡ ok (transferring (waiting i0), w))
        × (take_trap fuel entry pc 0x8000000b regs
              (record w.machine { driver = device i0 w.machine.driver })
            ≡ ok (regs', pc, m))
        × SameOn frame_saved regs' regs
        × (os_main_goes_on a 2 pages (transferring (waiting i0)) (record w { machine = m })
            ≡ ok (over, e))
        × IsBooted image ((device i0 w.machine.driver).blks 0).bytes s e
  unfolding plic_complete
  os_main-IsBooted sections linked placed room known long fresh unset claimed blocks enough
        completes =
      let s1 : System u = started image s in
      let begun : os_start image s ≡ ok s1 = os_start_lem image s known long in
      let ready : IsStarted image s.kernel.task_top s1 =
        started-IsStarted image s (subst IsHeap (sym placed) (link-IsHeap sections linked)) fresh in
      let (i0, d1, d3, d4, submits, isr, reports, finished) =
        disk_read_lem a s1.machine.driver s1.machine.virtio_regs fuel.blocks device ready.disk
          blocks completes in
      let w : System u =
        print_all (tester_prepare s1.machine.driver).0
          (record s1 { machine = record s1.machine { driver = d1 } }) in
      let arrived : Machine u = record w.machine { driver = device i0 d1 } in
      let (regs', trap, same) =
        disk_trap arrived fuel entry pc regs d3
          (driver-claim image s s1.machine (device i0 d1) w.machine.console
            ∙ started-claim image s
            ∙ claimed)
          isr in
      let (h', test, rest) = page_test_lem pages ready.heap room enough in
      let back : Machine u = plic_complete virtio_irq (record arrived {
        console = arrived.console ++ puts "Virtio IRQ\n" ∷ [];
        driver = d3;
        frame = enter_frame regs arrived.frame pc;
      }) in
      let read : System u =
        print_all (lines_of ((device i0 d1).blks 0).bytes)
          (record w { machine = record back { driver = d4 } }) in
      let e : System u = record (print_all (page_lines s1.heap.alloc_start) read) { heap = h' } in
      (
        i0,
        w,
        regs',
        back,
        e,
        os_main_starts_lem a 3 image s begun (read_on_lem a 3 starting s1 submits),
        trap,
        same,
        os_main_goes_on_lem a 2 pages (transferring (waiting i0)) (record w { machine = back })
            (read_on_lem a 2 (transferring (waiting i0)) (record w { machine = back }) reports)
            (test_pages_lem a pages read test),
        record {
          heap = rest;
          free = λ j lt. finished.free j ∙ rw (ready.disk.free j lt) refl;
          unlocked = finished.unlocked;
          kernel = refl;
          vector = ready.vector;
          timer = ready.timer;
          external = ready.external;
          interrupts = ready.interrupts;
          log = booted_log image s ((device i0 d1).blks 0).bytes unset;
        },
      )
