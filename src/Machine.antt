-- ===== src/Machine.antt =====
-- The hart and the kernel's memory, as the trap path of 10-SystemCall sees them: the control and
-- status registers of include/riscv.h, the devices, and the static variables.
use mini_riscv_os.Common.{ℕ, ◌+◌, ◌*◌, List, ◌∷◌, bit_and, bit_or, not32, ◌++◌, []}
use mini_riscv_os.Console.{Call}
use mini_riscv_os.Uart.{Device}
use mini_riscv_os.Virtio.Request.{Driver}

abbrev pub uart0_irq : ℕ
uart0_irq = 10

abbrev pub virtio_irq : ℕ
virtio_irq = 1

-- `1 << 3` of mstatus; `1 << 11`, `1 << 7` of mie.
abbrev pub mstatus_mie : ℕ
mstatus_mie = 0x8

abbrev pub mie_meie : ℕ
mie_meie = 0x800

abbrev pub mie_mtie : ℕ
mie_mtie = 0x80

abbrev pub clint : ℕ
clint = 0x2000000

abbrev pub clint_mtimecmp : ℕ → ℕ
clint_mtimecmp hartid = clint + 0x4000 + 4 * hartid

-- `plic_read` is what the interrupt controller answers at an address; `plic_writes` holds the
-- writes to it, the last one first. `frame` is the trap frame, the memory at mscratch by words, in the
-- order of `struct context`: from `timer_init` on it starts at `timer_scratch[id]`, and `timer_scratch`
-- is what the array held before any trap. `words` is user memory by address; `console` is what was
-- printed, in order.
pub record Machine (u : Device) : Type 0 where
  pub mie : ℕ
  pub mstatus : ℕ
  pub mtvec : ℕ
  pub mscratch : ℕ
  pub mhartid : ℕ
  pub tp : ℕ
  pub mtime : ℕ
  pub mtimecmp : ℕ → ℕ
  pub timer_count : ℕ
  pub timer_scratch : ℕ → ℕ → ℕ
  pub plic_read : ℕ → ℕ
  pub plic_writes : List (ℕ × ℕ)
  pub uart : u.State
  pub virtio_regs : ℕ → ℕ
  pub driver : Driver
  pub frame : ℕ → ℕ
  pub words : ℕ → ℕ
  pub console : List Call

module _ {u : Device} where
  abbrev pub say : Call → Machine u → Machine u
  say c m = record m { console = m.console ++ c ∷ [] }

  -- The control and status registers, as the inline functions of riscv.h read and write them.
  abbrev pub r_tp : Machine u → ℕ
  r_tp m = m.tp

  abbrev pub r_mhartid : Machine u → ℕ
  r_mhartid m = m.mhartid

  abbrev pub r_mstatus : Machine u → ℕ
  r_mstatus m = m.mstatus

  abbrev pub w_mstatus : ℕ → Machine u → Machine u
  w_mstatus x m = record m { mstatus = x }

  abbrev pub w_mscratch : ℕ → Machine u → Machine u
  w_mscratch x m = record m { mscratch = x }

  abbrev pub w_mtvec : ℕ → Machine u → Machine u
  w_mtvec x m = record m { mtvec = x }

  abbrev pub r_mie : Machine u → ℕ
  r_mie m = m.mie

  abbrev pub w_mie : ℕ → Machine u → Machine u
  w_mie x m = record m { mie = x }

  -- `w_mie(r_mie() & ~bits)`, `w_mie(r_mie() | bits)`, and the same for mstatus.
  abbrev pub clear_mie : ℕ → Machine u → Machine u
  clear_mie bits m = w_mie (bit_and (r_mie m) (not32 bits)) m

  abbrev pub set_mie : ℕ → Machine u → Machine u
  set_mie bits m = w_mie (bit_or (r_mie m) bits) m

  abbrev pub clear_mstatus : ℕ → Machine u → Machine u
  clear_mstatus bits m = w_mstatus (bit_and (r_mstatus m) (not32 bits)) m

  abbrev pub set_mstatus : ℕ → Machine u → Machine u
  set_mstatus bits m = w_mstatus (bit_or (r_mstatus m) bits) m
