-- ===== src/Chapters/Starts.antt =====
-- The start of the kernel in chapters 5 to 8: os.c and user_init of user.c in 05-Preemptive,
-- 06-Spinlock, 07-ExterInterrupt and 08-BlockDeviceDriver.
pub mod Booted
use mini_riscv_os.Common.{
  ℕ, ◌+◌, ◌<◌, ◌≤◌, ◌≡◌, refl, ◌∙◌, true, Run, ok, ◌>>=◌, arith, bit_or, suc, ◌≢◌, ◌⊎◌, inl, inr,
  sym, ap, update_self, update_ne, eq_or_ne,
}
use mini_riscv_os.Common.Bits.{bit}
use mini_riscv_os.Console.{puts}
use mini_riscv_os.Virtio.{num}
use mini_riscv_os.Virtio.Reg
use mini_riscv_os.Virtio.Init.{is_disk}
use mini_riscv_os.Virtio.Ready.{IsReady, reset_queue-IsReady}
use mini_riscv_os.Uart.{Device, uart_init}
use mini_riscv_os.Machine.{Machine, say}
use mini_riscv_os.Trap.{timer_init, plic_init, trap_init}
use mini_riscv_os.Trap.Interrupts.{set_digit}
use mini_riscv_os.Lock.{lock_init}
use mini_riscv_os.Task.{Kernel, task_create}
use mini_riscv_os.Os.{Image, disk_init}
use mini_riscv_os.Os.Start.{with_disk, disk_init_lem}
use mini_riscv_os.Chapters.UartPlic.{uart_plic_init}
use mini_riscv_os.Chapters.Preemptive.{preemptive_trap_init}

-- What the kernel's files keep, with the lock of user.c; `entry i` is the address of `user_task` i.
pub record Early (u : Device) : Type 0 where
  pub machine : Machine u
  pub kernel : Kernel
  pub locked : ℕ

unfoldable pub created : Image → ℕ → Kernel → Kernel
created image entry k = (task_create image.task_stack entry k).1

unfoldable pub lock_user_init : {u : Device} → Image → (ℕ → ℕ) → Early u → Early u
unfolding created
lock_user_init image entry s = record s {
  locked = lock_init s.locked;
  kernel =
      created image (entry 3)
        (created image (entry 2) (created image (entry 1) (created image (entry 0) s.kernel)));
}

unfoldable pub disk_user_init : Image → (ℕ → ℕ) → Kernel → Kernel
unfolding created
disk_user_init image entry k = created image (entry 1) (created image (entry 0) k)

unfoldable pub lock_os_start : {u : Device} → Image → (ℕ → ℕ) → Early u → Early u
unfolding lock_user_init
lock_os_start image entry s =
    let told : Early _ = record s { machine = say (puts "OS start\n") s.machine } in
    let made : Early _ = lock_user_init image entry told in
    record made {
      machine = timer_init image.timer_scratch (preemptive_trap_init image.trap_entry made.machine);
    }

unfoldable pub uart_os_start : {u : Device} → Image → (ℕ → ℕ) → Early u → Early u
unfolding lock_user_init
uart_os_start {u} image entry s =
    let m0 : Machine u = record s.machine { uart = uart_init u s.machine.uart } in
    let told : Early u = record s { machine = say (puts "OS start\n") m0 } in
    let made : Early u = lock_user_init image entry told in
    record made {
      machine =
          timer_init image.timer_scratch (uart_plic_init (trap_init image.trap_entry made.machine));
    }

unfoldable pub preemptive_user_init : Image → (ℕ → ℕ) → Kernel → Kernel
unfolding created
preemptive_user_init image entry k = created image (entry 1) (created image (entry 0) k)

unfoldable pub preemptive_os_start : {u : Device} → Image → (ℕ → ℕ) → Early u → Early u
unfolding preemptive_user_init
preemptive_os_start image entry s =
    let m : Machine _ = say (puts "OS start\n") s.machine in
    record s {
      kernel = preemptive_user_init image entry s.kernel;
      machine = timer_init image.timer_scratch (preemptive_trap_init image.trap_entry m);
    }

unfoldable pub disk_os_start : {u : Device} → Image → (ℕ → ℕ) → Early u → Run (Early u)
unfolding disk_user_init
disk_os_start {u} image entry s =
    let m0 : Machine u = record s.machine { uart = uart_init u s.machine.uart } in
    let m1 : Machine u = say (puts "OS start\n") m0 in
    let kernel : Kernel = disk_user_init image entry s.kernel in
    disk_init image (plic_init (trap_init image.trap_entry m1)) >>= λ m2.
    ok (record s { machine = timer_init image.timer_scratch m2; kernel = kernel })
