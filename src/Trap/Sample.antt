-- ===== src/Trap/Sample.antt =====
-- A machine to try the kernel on: its block device has one completion to report, and `irq` is what
-- its interrupt controller answers to a claim.
use mini_riscv_os.Common.{ℕ, [], ◌==◌, if◌then◌else◌}
use mini_riscv_os.Uart.Line.{line, idle}
use mini_riscv_os.Virtio.{Disk, empty_desc}
use mini_riscv_os.Virtio.Request.{Driver}
use mini_riscv_os.Machine.{Machine}
use mini_riscv_os.Trap.{Fuel}

abbrev pub disk : Disk
disk = record {
  desc = λ j. empty_desc;
  avail = record { flags = 0; idx = 1; ring = λ j. 0 };
  used = record { flags = 0; idx = 1; ring = λ j. record { id = 0; len = 513 } };
  free = λ j. 1;
  info = λ j. record { b = 3; status = 0 };
  used_idx = 0;
  ops = λ j. record { kind = 0; reserved = 0; sector = 0 };
  vdisk_lock = 1;
}

abbrev pub driver : Driver
driver = record {
  disk = disk;
  blks = λ b. record { dev = 1; blockno = 1; lock = 0; disk = 1; bytes = λ i. 0 };
  writes = [];
}

abbrev pub machine : ℕ → Machine line
machine irq = record {
  mie = 0x888;
  mstatus = 0x1808;
  mtvec = 0x80000000;
  mscratch = 0x80020000;
  mhartid = 0;
  tp = 0;
  mtime = 1000;
  mtimecmp = λ hart. 0;
  timer_count = 6;
  timer_scratch = λ hart k. 0;
  plic_read = λ a. irq;
  plic_writes = [];
  uart = idle;
  virtio_regs = λ r. 1;
  driver = driver;
  frame = λ k. if k == 16 then 1 else if k == 9 then 0x80030000 else 0;
  words = λ a. 0;
  console = [];
}

abbrev pub fuel : Fuel
fuel = record { polls = 2; chars = 2; blocks = 2 }
