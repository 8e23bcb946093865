-- ===== src/Trap/Entry/Tests.antt =====
-- Whole traps of the sample machine.
use mini_riscv_os.Common.{ℕ, ◌+◌, ◌%◌, ◌^◌, ◌≡◌, refl, inl, ◌==◌, if◌then◌else◌, ok, update}
use mini_riscv_os.Uart.Line.{line}
use mini_riscv_os.Machine.{Machine}
use mini_riscv_os.Task.{frame_saved}
use mini_riscv_os.Task.Switch.{SameOn}
use mini_riscv_os.Common.{[], ◌∷◌}
use mini_riscv_os.Common.Bits.{bit}
use mini_riscv_os.Console.{printf, int}
use mini_riscv_os.Trap.{interval}
use mini_riscv_os.Trap.Sample.{machine, fuel}
use mini_riscv_os.Trap.Entry.{take_trap, kept_by_call, timer_trap, call_trap}

-- Number 1 in a7, a pointer in a0.
abbrev calling : ℕ → ℕ
calling r = if r == 17 then 1 else if r == 10 then 0x80030000 else 0x80001000

timer_trap_example :
    (regs' : ℕ → ℕ) × (m' : Machine line) × (take_trap fuel 0x100 0x200 0x80000007 calling
        (machine 0)
      ≡ ok (regs', 0x100, m'))
    × SameOn frame_saved regs' calling
    × (take_trap fuel 0x100 0x204 0x80000007 calling (machine 0)
        ≡ ok (regs', 0x100, record m' { frame = update m'.frame 31 0x204 }))
    × (m'.timer_count ≡ 7)
    × (m'.mtimecmp 0 ≡ 1000 + interval)
    × (m'.console ≡ printf "timer_handler: %d\n" (int m'.timer_count ∷ []) ∷ [])
    × (bit m'.mie 7 ≡ 1)
    × (m'.uart ≡ (machine 0).uart)
    × (m'.driver ≡ (machine 0).driver)
timer_trap_example = timer_trap (machine 0) fuel 0x100 0x200 calling 0x204

call_trap_example :
    (regs' : ℕ → ℕ) × (m' : Machine line) × (take_trap fuel 0x100 0x200 8 calling (machine 0)
      ≡ ok (regs', (0x200 + 4) % 2 ^ 32, m'))
    × SameOn kept_by_call regs' calling
    × (regs' 10 ≡ 0)
    × ((p : ℕ) → m'.words p ≡ (if 0x80030000 == p then 0 else 0))
call_trap_example = call_trap (machine 0) fuel 0x100 0x200 calling 8 (inl refl)
