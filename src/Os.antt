-- ===== src/Os.antt =====
-- The start of the kernel, 10-SystemCall/src/os.c, with user_init of 10-SystemCall/src/user.c.
pub mod Start
pub mod Main
pub mod Resume
pub mod Order
pub mod Preempt
pub mod Prologue
pub mod Sample
mod Tests
use mini_riscv_os.Common.{ℕ, List, [], ◌∷◌, ◌++◌, foldl, Run, ok, ◌>>=◌}
use mini_riscv_os.Console.{puts}
use mini_riscv_os.Alloc.{Symbols, Heap, page_init}
use mini_riscv_os.Virtio.Init.{virtio_disk_init}
use mini_riscv_os.Uart.{Device, uart_init}
use mini_riscv_os.Machine.{Machine, say}
use mini_riscv_os.Trap.{timer_init, plic_init, trap_init}
use mini_riscv_os.Task.{Kernel, task_create}

-- Where the linker has put the functions and variables whose addresses are taken.
pub record Image : Type 0 where
  pub symbols : Symbols
  pub trap_entry : ℕ
  pub task0_entry : ℕ
  pub task4_entry : ℕ
  pub task_stack : ℕ
  pub timer_scratch : ℕ → ℕ
  pub disk_pages : ℕ

-- All that the kernel's files keep.
pub record System (u : Device) : Type 0 where
  pub machine : Machine u
  pub heap : Heap
  pub kernel : Kernel

unfoldable pub user_init : Image → Kernel → Kernel
user_init image k =
    let (i, k1) = task_create image.task_stack image.task0_entry k in
    let (j, k2) = task_create image.task_stack image.task4_entry k1 in k2

module _ {u : Device} where
  -- `virtio_disk_init` in the machine: `panic` ends the start.
  unfoldable pub disk_init : Image → Machine u → Run (Machine u)
  disk_init image m = virtio_disk_init m.virtio_regs image.disk_pages m.driver.disk >>= λ r.
      let (disk, writes, calls) = r in
      ok (record m {
        driver = record m.driver {
          disk = disk;
          writes = foldl (λ ws w. w ∷ ws) m.driver.writes writes;
        };
        console = m.console ++ calls;
      })

  unfoldable pub os_start : Image → System u → Run (System u)
  unfolding disk_init
  os_start image s =
      let m0 : Machine u = record s.machine { uart = uart_init u s.machine.uart } in
      let (calls, heap) = page_init image.symbols s.heap in
      let m1 : Machine u = say (puts "OS start\n") (record m0 { console = m0.console ++ calls }) in
      let kernel : Kernel = user_init image s.kernel in
      let m2 : Machine u = plic_init (trap_init image.trap_entry m1) in
      disk_init image m2 >>= λ m3.
      ok (record { machine = timer_init image.timer_scratch m3; heap = heap; kernel = kernel })
