-- ===== src/Chapters/Ticks.antt =====
-- The kernel of the fourth chapter, 04-TimerInterrupt/os.c: it starts the timer and idles.
use mini_riscv_os.Common.{
  ℕ, zero, suc, ◌+◌, ◌%◌, ◌^◌, ◌<◌, ◌≡◌, refl, ◌∙◌, List, [], ◌∷◌, ◌++◌, length, u32, arith, sym,
}
use mathlib.Core.List.{append-nil, append_assoc}
use mini_riscv_os.Common.Bits.{bit}
use mini_riscv_os.Console.{Call, puts, printf, int}
use mini_riscv_os.Uart.{Device}
use mini_riscv_os.Machine.{Machine, say}
use mini_riscv_os.Trap.Interrupts.{set_digit}
use mini_riscv_os.Chapters.Timer.{chapter_interval, chapter_timer_init, chapter_timer_handler}

module _ {u : Device} where
  -- `os_main` up to its empty loop; `sys_timer` is the address of the trap entry.
  unfoldable pub ticking_main : ℕ → Machine u → Machine u
  ticking_main sys_timer m = chapter_timer_init sys_timer (say (puts "OS start\n") m)

  -- The empty loop, interrupted at the times of the clock that the list gives; `epc` is its address.
  unfoldable pub ticks : ℕ → List ℕ → Machine u → Machine u
  ticks epc [] m = m
  ticks epc (t ∷ ts) m = ticks epc ts (chapter_timer_handler epc (record m { mtime = t })).1

-- What `n` interrupts print when the counter is at `count`.
abbrev pub tick_lines : ℕ → ℕ → List Call
tick_lines count zero = []
tick_lines count (suc n) =
    printf "timer_handler: %d\n" (int (u32 (count + 1)) ∷ []) ∷ tick_lines (u32 (count + 1)) n

-- The time of the last interrupt, or `now` if there was none.
abbrev pub last_time : ℕ → List ℕ → ℕ
last_time now [] = now
last_time now (t ∷ ts) = last_time t ts

-- The counter, the console, the comparator of the hart and the enable bit.
pub record Ticked {u : Device} (m : Machine u) (lines : List Call) (n now : ℕ) (m' : Machine u)
    : Type 0 where
  pub counted : m'.timer_count ≡ (m.timer_count + n) % 2 ^ 32
  pub printed : m'.console ≡ m.console ++ lines
  pub armed : m'.mtimecmp m.mhartid ≡ (now + chapter_interval) % 2 ^ 32
  pub enabled : bit m'.mie 7 ≡ 1
  pub hart : m'.mhartid ≡ m.mhartid

module _ {u : Device} where
  handler-Ticked :
      (epc t : ℕ) (m : Machine u)
      → Ticked m
          (tick_lines m.timer_count 1)
          1
          t
          (chapter_timer_handler epc (record m { mtime = t })).1
  unfolding chapter_timer_handler
  handler-Ticked epc t m = record {
    counted = refl;
    printed = refl;
    armed = ground arith;
    enabled = set_digit _ 7 7 (omega arith) (omega arith);
    hart = refl;
  }

  ticks-Ticked :
      (epc : ℕ) (ts : List ℕ) (m : Machine u)
      → m.timer_count < 2 ^ 32
      → m.mtimecmp m.mhartid ≡ (m.mtime + chapter_interval) % 2 ^ 32
      → bit m.mie 7 ≡ 1
      → Ticked m
          (tick_lines m.timer_count (length ts))
          (length ts)
          (last_time m.mtime ts)
          (ticks epc ts m)
  unfolding ticks chapter_timer_handler
  ticks-Ticked epc [] m small at on = record {
    counted = omega arith;
    printed = sym (append-nil m.console);
    armed = at;
    enabled = on;
    hart = refl;
  }
  ticks-Ticked epc (t ∷ ts) m small at on =
      let one = handler-Ticked epc t m in
      let more =
        ticks-Ticked epc ts (chapter_timer_handler epc (record m { mtime = t })).1 (omega arith)
          one.armed one.enabled in
      record {
        counted = omega (arith, more.counted);
        printed =
            more.printed
            ∙ append_assoc m.console (tick_lines m.timer_count 1)
                (tick_lines (u32 (m.timer_count + 1)) (length ts));
        armed = more.armed;
        enabled = more.enabled;
        hart = more.hart;
      }

  -- The kernel of the fourth chapter, with a 32-bit counter, interrupted at whatever times: it has
  -- counted the interrupts and printed a line with each count, from 1 on if the counter was 0; the
  -- next interrupt is armed for one interval after the last one, or after the start, and the timer
  -- interrupt is enabled.
  pub ticking_lem :
      (sys_timer epc : ℕ) (ts : List ℕ) (m : Machine u)
      → m.timer_count < 2 ^ 32
      → Ticked m
          (puts "OS start\n" ∷ tick_lines m.timer_count (length ts))
          (length ts)
          (last_time m.mtime ts)
          (ticks epc ts (ticking_main sys_timer m))
  unfolding ticking_main chapter_timer_init
  ticking_lem sys_timer epc ts m small =
      let started : Machine u = ticking_main sys_timer m in
      let t =
        ticks-Ticked epc ts started small (ground arith)
          (set_digit _ 7 7 (omega arith) (omega arith)) in
      record {
        counted = t.counted;
        printed =
            t.printed
            ∙ append_assoc m.console (puts "OS start\n" ∷ [])
                (tick_lines m.timer_count (length ts));
        armed = t.armed;
        enabled = t.enabled;
        hart = t.hart;
      }
