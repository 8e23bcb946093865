-- ===== src/Chapters/Starts/Booted.antt =====
-- What holds when `os_start` of chapters 5 to 8 returns.
use mini_riscv_os.Common.{
  ℕ, ◌+◌, ◌<◌, ◌≤◌, ◌≡◌, refl, ◌∙◌, true, ok, arith, bit_or, suc, ◌≢◌, ◌⊎◌, inl, inr, sym, ap,
  update_self, update_ne, eq_or_ne,
}
use mini_riscv_os.Common.Bits.{bit}
use mini_riscv_os.Console.{puts}
use mini_riscv_os.Virtio.{num}
use mini_riscv_os.Virtio.Reg
use mini_riscv_os.Virtio.Init.{is_disk}
use mini_riscv_os.Virtio.Ready.{IsReady, reset_queue-IsReady}
use mini_riscv_os.Uart.{Device, uart_init}
use mini_riscv_os.Machine.{Machine, say}
use mini_riscv_os.Trap.{timer_init, plic_init, trap_init}
use mini_riscv_os.Trap.Interrupts.{set_digit}
use mini_riscv_os.Lock.{lock_init}
use mini_riscv_os.Task.{Kernel, task_create}
use mini_riscv_os.Os.{Image}
use mini_riscv_os.Os.Start.{with_disk, disk_init_lem}
use mini_riscv_os.Chapters.UartPlic.{uart_plic_init}
use mini_riscv_os.Chapters.Preemptive.{preemptive_trap_init}
use mini_riscv_os.Chapters.Starts.{
  Early, created, lock_user_init, disk_user_init, lock_os_start, uart_os_start,
  preemptive_user_init, preemptive_os_start, disk_os_start,
}

-- The `n` tasks that were created since the count was `before` wait, each at its entry.
record Waits (entry : ℕ → ℕ) (before n : ℕ) (k : Kernel) : Type 0 where
  top : k.task_top ≡ before + n
  at : (i : ℕ) → i < n → k.ctx_tasks (before + i) 0 ≡ entry i

none_Waits : (entry : ℕ → ℕ) (k : Kernel) → Waits entry k.task_top 0 k
none_Waits entry k = record { top = omega arith; at = λ i lt. absurd (omega arith) }

created-Waits :
    (image : Image) (entry : ℕ → ℕ) (before n : ℕ) (k : Kernel)
    → Waits entry before n k
    → Waits entry before (suc n) (created image (entry n) k)
unfolding created task_create
created-Waits image entry before n k w = record {
  top = omega (arith, w.top);
  at = λ i lt. at_entry i lt (eq_or_ne k.task_top (before + i));
}
  where
    at_entry :
        (i : ℕ)
        → i < suc n
        → (k.task_top ≡ before + i) ⊎ (k.task_top ≢ before + i)
        → (created image (entry n) k).ctx_tasks (before + i) 0 ≡ entry i
    at_entry i lt (inl same) =
        let last : n ≡ i = omega (arith, w.top) in
        ap (λ (x : ℕ). (created image (entry n) k).ctx_tasks x 0) (sym same)
        ∙ ap (λ (c : ℕ → ℕ). c 0) (update_self k.ctx_tasks k.task_top _)
        ∙ ap entry last
    at_entry i lt (inr other) =
        ap (λ (c : ℕ → ℕ). c 0) (update_ne k.ctx_tasks k.task_top (before + i) _ other)
        ∙ w.at i (omega (arith, w.top, earlier i other))
      where
        earlier : (i : ℕ) → k.task_top ≢ before + i → n ≢ i
        earlier i other same = other (w.top ∙ ap (λ (x : ℕ). before + x) same)

two_tasks-Waits :
    (image : Image) (entry : ℕ → ℕ) (k : Kernel)
    → Waits entry k.task_top 2 (disk_user_init image entry k)
unfolding disk_user_init
two_tasks-Waits image entry k =
    created-Waits image entry k.task_top 1 _
      (created-Waits image entry k.task_top 0 k (none_Waits entry k))

four_tasks-Waits :
    (image : Image) (entry : ℕ → ℕ) (k : Kernel)
    → Waits entry k.task_top 4
        (created image (entry 3) (created image (entry 2) (disk_user_init image entry k)))
four_tasks-Waits image entry k =
    created-Waits image entry k.task_top 3 _
      (created-Waits image entry k.task_top 2 _ (two_tasks-Waits image entry k))

-- The trap vector is set, interrupts and the timer's are enabled, and `n` tasks wait, each at its
-- entry.
pub record IsBooted {u : Device} (image : Image) (entry : ℕ → ℕ) (before n : ℕ) (s : Early u)
    : Type 0 where
  pub vector : s.machine.mtvec ≡ image.trap_entry
  pub timer : bit s.machine.mie 7 ≡ 1
  pub interrupts : bit s.machine.mstatus 3 ≡ 1
  pub tasks : s.kernel.task_top ≡ before + n
  pub entries : (i : ℕ) → i < n → s.kernel.ctx_tasks (before + i) 0 ≡ entry i

-- The fifth chapter's `os_start` starts the kernel with two tasks, from any state.
pub preemptive_os_start-IsBooted :
    {u : Device} (image : Image) (entry : ℕ → ℕ) (s : Early u)
    → IsBooted image entry s.kernel.task_top 2 (preemptive_os_start image entry s)
unfolding preemptive_os_start preemptive_user_init disk_user_init created preemptive_trap_init
    task_create timer_init
preemptive_os_start-IsBooted image entry s = record {
  vector = refl;
  timer = set_digit s.machine.mie 7 7 (omega arith) (omega arith);
  interrupts = set_digit s.machine.mstatus 3 3 (omega arith) (omega arith);
  tasks = omega arith;
  entries = (two_tasks-Waits image entry s.kernel).at;
}

-- The sixth chapter's `os_start` starts the kernel with four tasks and a free lock, from any state.
pub lock_os_start-IsBooted :
    {u : Device} (image : Image) (entry : ℕ → ℕ) (s : Early u)
    → IsBooted image entry s.kernel.task_top 4 (lock_os_start image entry s)
      × ((lock_os_start image entry s).locked ≡ 0)
unfolding lock_os_start lock_user_init disk_user_init lock_init created preemptive_trap_init
    task_create timer_init
lock_os_start-IsBooted image entry s = (
  record {
    vector = refl;
    timer = set_digit s.machine.mie 7 7 (omega arith) (omega arith);
    interrupts = set_digit s.machine.mstatus 3 3 (omega arith) (omega arith);
    tasks = omega arith;
    entries = (four_tasks-Waits image entry s.kernel).at;
  },
  refl,
)

-- The seventh chapter's `os_start` does so too, and enables the external interrupt.
pub uart_os_start-IsBooted :
    {u : Device} (image : Image) (entry : ℕ → ℕ) (s : Early u)
    → IsBooted image entry s.kernel.task_top 4 (uart_os_start image entry s)
      × ((uart_os_start image entry s).locked ≡ 0)
      × (bit (uart_os_start image entry s).machine.mie 11 ≡ 1)
unfolding uart_os_start lock_user_init disk_user_init lock_init created trap_init uart_plic_init
    task_create timer_init
uart_os_start-IsBooted image entry s = (
  record {
    vector = refl;
    timer = set_digit (bit_or s.machine.mie 0x800) 7 7 (omega arith) (omega arith);
    interrupts = set_digit s.machine.mstatus 3 3 (omega arith) (omega arith);
    tasks = omega arith;
    entries = (four_tasks-Waits image entry s.kernel).at;
  },
  refl,
  set_digit (bit_or s.machine.mie 0x800) 7 11 (omega arith) (omega arith)
      ∙ set_digit s.machine.mie 11 11 (omega arith) (omega arith),
)

-- The disk serves requests, the trap vector is set, the timer, the external and all interrupts are
-- enabled, and two tasks wait, each at its entry.
pub record IsDiskStarted {u : Device} (image : Image) (entry : ℕ → ℕ) (before : ℕ) (s : Early u)
    : Type 0 where
  pub disk : IsReady s.machine.driver.disk
  pub vector : s.machine.mtvec ≡ image.trap_entry
  pub timer : bit s.machine.mie 7 ≡ 1
  pub external : bit s.machine.mie 11 ≡ 1
  pub interrupts : bit s.machine.mstatus 3 ≡ 1
  pub tasks : s.kernel.task_top ≡ before + 2
  pub entries : (i : ℕ) → i < 2 → s.kernel.ctx_tasks (before + i) 0 ≡ entry i

-- The eighth chapter's `os_start` returns, and has started the kernel, if the disk is the one that
-- the driver knows, with a queue that is long enough and an index that starts at 0.
pub disk_os_start-IsDiskStarted :
    {u : Device} (image : Image) (entry : ℕ → ℕ) (s : Early u)
    → is_disk s.machine.virtio_regs ≡ true
    → num ≤ s.machine.virtio_regs Reg.queue_num_max
    → s.machine.driver.disk.used_idx ≡ 0
    → (s' : Early u) × (disk_os_start image entry s ≡ ok s')
      × IsDiskStarted image entry s.kernel.task_top s'
unfolding disk_os_start disk_user_init created task_create timer_init plic_init trap_init
disk_os_start-IsDiskStarted {u} image entry s known long fresh =
    let m1 : Machine u = plic_init (
      trap_init image.trap_entry
        (say (puts "OS start\n") (record s.machine { uart = uart_init u s.machine.uart }))) in
    (
      record s {
        machine = timer_init image.timer_scratch (with_disk image m1);
        kernel = disk_user_init image entry s.kernel;
      },
      rw (disk_init_lem image m1 known long),
      record {
        disk = reset_queue-IsReady s.machine.driver.disk fresh;
        vector = refl;
        timer = set_digit (bit_or s.machine.mie 0x800) 7 7 (omega arith) (omega arith);
        external =
            set_digit (bit_or s.machine.mie 0x800) 7 11 (omega arith) (omega arith)
            ∙ set_digit s.machine.mie 11 11 (omega arith) (omega arith);
        interrupts = set_digit s.machine.mstatus 3 3 (omega arith) (omega arith);
        tasks = omega arith;
        entries = (two_tasks-Waits image entry s.kernel).at;
      },
    )
