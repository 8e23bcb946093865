-- ===== src/Trap/Interrupts.antt =====
-- The timer, the interrupt controller, and what a trap leaves of the interrupt state.
use mini_riscv_os.Common.{
  ℕ, ◌+◌, ◌%◌, ◌^◌, ◌<◌, ◌≡◌, refl, Bool, true, ◌∷◌, ◌==◌, if◌then◌else◌, bit_and, bit_or, not32,
  ok, arith,
}
use mini_riscv_os.Common.Bits.{bit, bit-bit_and, bit-bit_or}
use mini_riscv_os.Uart.{Device}
use mini_riscv_os.Virtio.Features.{mask_lem, bit-lt, all_below, all_below_lem}
use mini_riscv_os.Machine.{Machine, uart0_irq, virtio_irq, clint_mtimecmp}
use mini_riscv_os.Trap.{
  Fuel, interval, plic_menable, plic_mthreshold, plic_priority, plic_init, timer_init,
  timer_handler, handle_interrupt, trap_handler, basic_lock, basic_unlock,
}

-- A word with one digit set.
one_digit : ℕ → ℕ → Bool
one_digit j k = bit (2 ^ j) k == (if j == k then 1 else 0)

one_digit_table : all_below 32 (λ j. all_below 32 (one_digit j)) ≡ true
unfolding all_below one_digit
one_digit_table = refl

one_digit_lem : (j k : ℕ) → j < 32 → k < 32 → bit (2 ^ j) k ≡ (if j == k then 1 else 0)
unfolding one_digit
one_digit_lem j k hj hk = ground (
  arith,
  all_below_lem 32 (one_digit j) k
      (all_below_lem 32 (λ j. all_below 32 (one_digit j)) j one_digit_table hj) hk,
)

-- Setting and clearing one digit of a register, digit by digit.
pub set_digit :
    (w j k : ℕ) → j < 32 → k < 32 → bit (bit_or w (2 ^ j)) k ≡ (if j == k then 1 else bit w k)
set_digit w j k hj hk = ground (arith, bit-bit_or k w (2 ^ j), one_digit_lem j k hj hk, bit-lt w k)

pub clear_digit :
    (w j k : ℕ)
    → j < 32
    → k < 32
    → bit (bit_and w (not32 (2 ^ j))) k ≡ (if j == k then 0 else bit w k)
clear_digit w j k hj hk =
    ground (arith, bit-bit_and k w (not32 (2 ^ j)), mask_lem j k hj hk, bit-lt w k)

module _ {u : Device} (m : Machine u) where
  -- `basic_lock` clears the digit MIE of mstatus and `basic_unlock` sets it; after the two the
  -- other 31 digits are what they were.
  pub basic_lock_unlock :
      (k : ℕ)
      → k < 32
      → (bit (basic_lock m).mstatus k ≡ (if 3 == k then 0 else bit m.mstatus k))
        × (bit (basic_unlock (basic_lock m)).mstatus k ≡ (if 3 == k then 1 else bit m.mstatus k))
  unfolding basic_lock basic_unlock
  basic_lock_unlock k lt = ground (
    arith,
    clear_digit m.mstatus 3 k (omega arith) lt,
    set_digit (bit_and m.mstatus (not32 (2 ^ 3))) 3 k (omega arith) lt,
  )

  -- A timer interrupt goes on in `os_kernel` wherever it struck; it arms the next one
  -- `interval` cycles after now for this hart alone, counts itself, and leaves the timer interrupt enabled and
  -- the other digits of mie as they were.
  pub timer_interrupt :
      (fuel : Fuel) (os_kernel epc hart k : ℕ)
      → k < 32
      → (m' : Machine u) × (trap_handler fuel os_kernel epc 0x80000007 m ≡ ok (os_kernel, m'))
        × (m'.mtimecmp hart
            ≡ (if m.mhartid == hart then (m.mtime + interval) % 2 ^ 32 else m.mtimecmp hart))
        × (m'.timer_count ≡ (m.timer_count + 1) % 2 ^ 32)
        × (bit m'.mie k ≡ (if 7 == k then 1 else bit m.mie k))
  unfolding trap_handler handle_interrupt timer_handler
  timer_interrupt fuel os_kernel epc hart k lt = (
    _,
    refl,
    refl,
    refl,
    ground (
      arith,
      clear_digit m.mie 7 k (omega arith) lt,
      set_digit (bit_and m.mie (not32 (2 ^ 7))) 7 k (omega arith) lt,
    ),
  )

  -- `timer_init` arms the timer of its hart, enables the timer interrupt, leaves the other digits
  -- of mie as they were, and points mscratch at the hart's row, whose fourth and fifth word it sets.
  pub timer_init_lem :
      (scratch : ℕ → ℕ) (k : ℕ)
      → k < 32
      → ((timer_init scratch m).mtimecmp m.mhartid ≡ (m.mtime + interval) % 2 ^ 32)
        × (bit (timer_init scratch m).mie k ≡ (if 7 == k then 1 else bit m.mie k))
        × ((timer_init scratch m).mscratch ≡ scratch m.mhartid)
        × ((timer_init scratch m).timer_scratch m.mhartid 3 ≡ clint_mtimecmp m.mhartid)
        × ((timer_init scratch m).timer_scratch m.mhartid 4 ≡ interval)
  unfolding timer_init
  timer_init_lem scratch k lt =
      (ground arith, set_digit m.mie 7 k (omega arith) lt, refl, ground arith, ground arith)

  -- `plic_init` gives the two sources priority 1, enables these two and no other for the hart, and
  -- sets its threshold to 0, in this order; external interrupts and interrupts are then on, and the
  -- other digits of mie and mstatus are what they were.
  pub plic_init_lem :
      (k : ℕ)
      → k < 32
      → ((plic_init m).plic_writes
          ≡ (plic_mthreshold m.tp, 0)
            ∷ (plic_menable m.tp, 2 ^ 10 + 2 ^ 1)
            ∷ (plic_priority virtio_irq, 1)
            ∷ (plic_priority uart0_irq, 1)
            ∷ m.plic_writes)
        × (bit (plic_init m).mie k ≡ (if 11 == k then 1 else bit m.mie k))
        × (bit (plic_init m).mstatus k ≡ (if 3 == k then 1 else bit m.mstatus k))
  unfolding plic_init
  plic_init_lem k lt =
      (refl, set_digit m.mie 11 k (omega arith) lt, set_digit m.mstatus 3 k (omega arith) lt)
