-- ===== src/Chapters/Timer.antt =====
-- The timer of the fourth chapter, 04-TimerInterrupt/timer.c.
use mini_riscv_os.Common.{
  ℕ, zero, suc, ◌+◌, ◌-◌, ◌/◌, ◌%◌, ◌^◌, ◌≤◌, ◌<◌, ◌≡◌, refl, ap, [], ◌∷◌, ◌==◌, if◌then◌else◌,
  update, bit_or, not32, u32, add32, arith,
}
use native.Mathlib.Nat.{pow-suc, pow-le-pow_right}
use mini_riscv_os.Common.Bits.{bit, bit_or-below}
use mini_riscv_os.Virtio.Features.{bit-lt}
use mini_riscv_os.Console.{printf, int}
use mini_riscv_os.Uart.{Device}
use mini_riscv_os.Machine.{Machine, mstatus_mie, mie_mtie, say, set_mie, set_mstatus}
use mini_riscv_os.Trap.Interrupts.{set_digit}

abbrev pub chapter_interval : ℕ
chapter_interval = 10000000

-- The digits of the complement of a word of `n` digits.
pub bit-complement : (k n w : ℕ) → w < 2 ^ n → k < n → bit (2 ^ n - 1 - w) k ≡ 1 - bit w k
bit-complement k zero w h lt = absurd (omega arith)
bit-complement zero (suc n) w h lt = omega (arith, pow-suc 2 n)
bit-complement (suc k) (suc n) w h lt =
    let half : (2 ^ suc n - 1 - w) / 2 ≡ 2 ^ n - 1 - w / 2 = omega (arith, pow-suc 2 n) in
    rw half (bit-complement k n (w / 2) (omega (arith, pow-suc 2 n)) (omega arith))

-- The mask that is written with two complements, digit by digit.
two_complements :
    (w j k : ℕ)
    → w < 2 ^ 32
    → j < 32
    → k < 32
    → bit (not32 (bit_or (not32 w) (2 ^ j))) k ≡ (if j == k then 0 else bit w k)
two_complements w j k small hj hk =
    let inner : not32 w ≡ 2 ^ 32 - 1 - w = omega arith in
    let below : bit_or (not32 w) (2 ^ j) < 2 ^ 32 =
      bit_or-below 32 (not32 w) (2 ^ j) (omega arith) (power_below j hj) in
    let outer : not32 (bit_or (not32 w) (2 ^ j)) ≡ 2 ^ 32 - 1 - bit_or (not32 w) (2 ^ j) =
      omega arith in
    rw outer (
      ground (
        arith,
        bit-complement k 32 (bit_or (not32 w) (2 ^ j)) below hk,
        set_digit (not32 w) j k hj hk,
        ap (λ (a : ℕ). bit a k) inner,
        bit-complement k 32 w small hk,
        bit-lt w k,
      ))
  where
    power_below : (j : ℕ) → j < 32 → 2 ^ j < 2 ^ 32
    power_below j h =
        let bound : 2 ^ j ≤ 2 ^ 31 = pow-le-pow_right (omega arith) {j = 31} (omega arith) in
        omega (arith, bound)

module _ {u : Device} where
  -- `sys_timer` is the address of the trap entry.
  unfoldable pub chapter_timer_init : ℕ → Machine u → Machine u
  chapter_timer_init sys_timer m = set_mie mie_mtie (
      set_mstatus mstatus_mie (record m {
        mtimecmp = update m.mtimecmp m.mhartid (add32 m.mtime chapter_interval);
        mtvec = sys_timer;
      }))

  -- The program counter to go on at, and the machine.
  unfoldable pub chapter_timer_handler : ℕ → Machine u → ℕ × Machine u
  chapter_timer_handler epc m =
      let masked : Machine u = record m { mie = not32 (bit_or (not32 m.mie) (2 ^ 7)) } in
      let count : ℕ = u32 (masked.timer_count + 1) in
      let told : Machine u =
        say (printf "timer_handler: %d\n" (int count ∷ []))
          (record masked { timer_count = count }) in
      (
        epc,
        set_mie mie_mtie (record told {
          mtimecmp = update told.mtimecmp told.mhartid (add32 told.mtime chapter_interval);
        }),
      )

  -- The timer interrupt of the fourth chapter goes on where it struck, with the next one armed for
  -- this hart alone; the mask it writes with two complements is the one that clears a digit, so
  -- that in the end the timer interrupt is enabled and the other digits of a 32-bit mie are kept.
  pub chapter_timer_lem :
      (m : Machine u) (epc hart k : ℕ)
      → m.mie < 2 ^ 32
      → k < 32
      → ((chapter_timer_handler epc m).0 ≡ epc)
        × ((chapter_timer_handler epc m).1.mtimecmp hart ≡ (
            if m.mhartid == hart then (m.mtime + chapter_interval) % 2 ^ 32 else m.mtimecmp hart))
        × (bit (chapter_timer_handler epc m).1.mie k ≡ (if 7 == k then 1 else bit m.mie k))
  unfolding chapter_timer_handler
  chapter_timer_lem m epc hart k small lt = (
    refl,
    refl,
    ground (
      arith,
      set_digit (not32 (bit_or (not32 m.mie) (2 ^ 7))) 7 k (omega arith) lt,
      two_complements m.mie 7 k small (omega arith) lt,
    ),
  )
