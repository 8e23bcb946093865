-- ===== src/Os/Start.antt =====
-- What holds when `os_start` of 10-SystemCall/src/os.c returns.
use mini_riscv_os.Common.{
  ℕ, ◌+◌, ◌≤◌, ◌≡◌, refl, ◌∙◌, true, false, [], ◌∷◌, ◌==◌, ok, arith, bit_or, ne→==, le→ltb, foldl,
  ◌++◌,
}
use mini_riscv_os.Common.Bits.{bit}
use mini_riscv_os.Console.{puts}
use mini_riscv_os.Alloc.{page_init}
use mini_riscv_os.Alloc.Blocks.{Represents}
use mini_riscv_os.Alloc.Init.{IsHeap, page_init-Represents}
use mini_riscv_os.Virtio.{num}
use mini_riscv_os.Virtio.Reg
use mini_riscv_os.Virtio.Init.{is_disk, reset_queue, init_writes, virtio_disk_init}
use mini_riscv_os.Virtio.Ready.{IsReady, reset_queue-IsReady}
use mini_riscv_os.Uart.{Device, uart_init}
use mini_riscv_os.Machine.{Machine, say}
use mini_riscv_os.Trap.{timer_init, plic_init, trap_init}
use mini_riscv_os.Trap.Interrupts.{set_digit}
use mini_riscv_os.Task.{task_create}
use mini_riscv_os.Os.{Image, System, user_init, disk_init, os_start}

-- The allocator holds no block, the disk serves requests, the trap vector is set, the timer, the
-- external and all interrupts are enabled, and two tasks wait, each at its entry.
pub record IsStarted {u : Device} (image : Image) (before : ℕ) (s : System u) : Type 0 where
  pub heap : Represents s.heap []
  pub disk : IsReady s.machine.driver.disk
  pub vector : s.machine.mtvec ≡ image.trap_entry
  pub timer : bit s.machine.mie 7 ≡ 1
  pub external : bit s.machine.mie 11 ≡ 1
  pub interrupts : bit s.machine.mstatus 3 ≡ 1
  pub tasks : s.kernel.task_top ≡ before + 2
  pub first : s.kernel.ctx_tasks before 0 ≡ image.task0_entry
  pub second : s.kernel.ctx_tasks (before + 1) 0 ≡ image.task4_entry

abbrev pub with_disk : {u : Device} → Image → Machine u → Machine u
with_disk image m = record m {
  driver = record m.driver {
    disk = record (reset_queue m.driver.disk) { vdisk_lock = 0 };
    writes = foldl (λ ws w. w ∷ ws) m.driver.writes (init_writes m.virtio_regs image.disk_pages);
  };
  console = m.console ++ puts "Disk init work is success!\n" ∷ [];
}

pub disk_init_lem :
    {u : Device} (image : Image) (m : Machine u)
    → is_disk m.virtio_regs ≡ true
    → num ≤ m.virtio_regs Reg.queue_num_max
    → disk_init image m ≡ ok (with_disk image m)
unfolding disk_init virtio_disk_init
disk_init_lem image m known long =
    let queue : ℕ = m.virtio_regs Reg.queue_num_max in
    let some_queue : (queue == 0) ≡ false = ne→== queue 0 (omega arith) in
    rw (known, some_queue, le→ltb queue num long)

module _ {u : Device} (image : Image) (s : System u) where
  abbrev pub before_disk : Machine u
  before_disk = plic_init (
      trap_init image.trap_entry (
        say (puts "OS start\n") (record s.machine {
          uart = uart_init u s.machine.uart;
          console = s.machine.console ++ (page_init image.symbols s.heap).0;
        })))

  abbrev pub started : System u
  started = record {
    machine = timer_init image.timer_scratch (with_disk image before_disk);
    heap = (page_init image.symbols s.heap).1;
    kernel = user_init image s.kernel;
  }

module _ {u : Device} (image : Image) (s : System u) where
  pub os_start_lem :
      is_disk s.machine.virtio_regs ≡ true
      → num ≤ s.machine.virtio_regs Reg.queue_num_max
      → os_start image s ≡ ok (started image s)
  unfolding os_start timer_init plic_init trap_init
  os_start_lem known long = rw (disk_init_lem image (before_disk image s) known long)

  pub started-IsStarted :
      IsHeap image.symbols
      → s.machine.driver.disk.used_idx ≡ 0
      → IsStarted image s.kernel.task_top (started image s)
  unfolding user_init task_create timer_init plic_init trap_init
  started-IsStarted heap fresh = record {
    heap = page_init-Represents image.symbols s.heap heap;
    disk = reset_queue-IsReady s.machine.driver.disk fresh;
    vector = refl;
    timer = set_digit (bit_or s.machine.mie 0x800) 7 7 (omega arith) (omega arith);
    external =
        set_digit (bit_or s.machine.mie 0x800) 7 11 (omega arith) (omega arith)
        ∙ set_digit s.machine.mie 11 11 (omega arith) (omega arith);
    interrupts = set_digit s.machine.mstatus 3 3 (omega arith) (omega arith);
    tasks = omega arith;
    first = ground arith;
    second = ground arith;
  }

-- `os_start` returns, and has started the kernel, if the heap is laid out as the linker script has
-- it and the disk is the one that the driver knows, with a queue that is long enough and an index
-- that starts at 0.
pub os_start-IsStarted :
    {u : Device} (image : Image) (s : System u)
    → IsHeap image.symbols
    → is_disk s.machine.virtio_regs ≡ true
    → num ≤ s.machine.virtio_regs Reg.queue_num_max
    → s.machine.driver.disk.used_idx ≡ 0
    → (s' : System u) × (os_start image s ≡ ok s') × IsStarted image s.kernel.task_top s'
os_start-IsStarted image s heap known long fresh =
    (started image s, os_start_lem image s known long, started-IsStarted image s heap fresh)
