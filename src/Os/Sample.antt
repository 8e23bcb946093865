-- ===== src/Os/Sample.antt =====
-- A machine with the disk that the driver knows, and where a linker may put the kernel's parts.
use mini_riscv_os.Common.{ℕ, ◌≡◌, refl, true, ◌==◌, if◌then◌else◌}
use mini_riscv_os.Virtio.Reg
use mini_riscv_os.Virtio.Init.{is_disk}
use mini_riscv_os.Uart.Line.{line}
use mini_riscv_os.Task.{os}
use mini_riscv_os.Trap.Sample.{machine}
use mini_riscv_os.Os.{Image, System}

abbrev pub image : Image
image = record {
  symbols = record {
    text_start = 0x80000000;
    text_end = 0x80001000;
    data_start = 0x80001000;
    data_end = 0x80002000;
    rodata_start = 0x80002000;
    rodata_end = 0x80003000;
    bss_start = 0x80003000;
    bss_end = 0x80008000;
    heap_start = 0x80008010;
    heap_size = 0x7ff7ff0;
  };
  trap_entry = 0x80000100;
  task0_entry = 0x80000400;
  task4_entry = 0x80000500;
  task_stack = 0x80004000;
  timer_scratch = λ hart. 0x80007000;
  disk_pages = 0x80005000;
}

-- The registers of the disk that the driver knows, with a queue of 1024 entries.
abbrev pub registers : ℕ → ℕ
registers r =
    if r == Reg.magic_value
    then 0x74726976
    else if r == Reg.version
    then 1
    else if r == Reg.device_id
    then 2
    else if r == Reg.vendor_id
    then 0x554d4551
    else if r == Reg.queue_num_max
    then 1024
    else 0

abbrev pub system : System line
system = record {
  machine = record (machine 0) { virtio_regs = registers };
  heap = record { alloc_start = 0; alloc_end = 0; num_pages = 0; page = λ i. 7 };
  kernel = record {
    regs = λ r. 0;
    pc = 0;
    ctx_os = λ k. 0;
    ctx_tasks = λ i k. 0;
    ctx_now = os;
    task_top = 0;
  };
}

pub known_lem : is_disk registers ≡ true
unfolding is_disk
known_lem = refl
