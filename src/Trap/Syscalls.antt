-- ===== src/Trap/Syscalls.antt =====
-- Environment calls, and the exceptions that are no such call.
use mini_riscv_os.Common.{
  ℕ, ◌+◌, ◌%◌, ◌^◌, ◌<◌, ◌≡◌, ◌≢◌, ◌⊎◌, inl, inr, ◌==◌, if◌then◌else◌, bit_and, ok, arith, ne→==,
}
use mini_riscv_os.Common.Bits.{bit_and_mask, bit_and_above}
use mini_riscv_os.Console.{Call, puts}
use mini_riscv_os.Uart.{Device}
use mini_riscv_os.Machine.{Machine, say}
use mini_riscv_os.Trap.{
  Fuel, a0, a7, minus_one, sys_gethid, do_syscall, handle_exception, trap_handler,
}

-- What a system call leaves in the trap frame and in user memory: only the word of a0, and the word
-- at the pointer if the call is number 1 and the pointer is not NULL.
pub record Answers {u : Device} (m m' : Machine u) : Type 0 where
  pub result :
      m'.frame a0
      ≡ (if m.frame a7 == 1 then if m.frame a0 == 0 then minus_one else 0 else minus_one)
  pub frame : (i : ℕ) → i ≢ a0 → m'.frame i ≡ m.frame i
  pub words :
      (p : ℕ)
      → m'.words p ≡ (
          if m.frame a7 == 1
          then if m.frame a0 == 0
            then m.words p
            else if m.frame a0 == p
            then m.mhartid
            else m.words p
          else m.words p)
  pub csrs :
      (m'.mie ≡ m.mie)
      × (m'.mstatus ≡ m.mstatus)
      × (m'.mtvec ≡ m.mtvec)
      × (m'.mscratch ≡ m.mscratch)

do_syscall-Answers : {u : Device} (m : Machine u) → Answers m (do_syscall m)
unfolding do_syscall sys_gethid
do_syscall-Answers m = record {
  result = ground arith;
  frame = λ i ne. ground arith;
  words = λ p. ground arith;
  csrs = (ground arith, ground arith, ground arith, ground arith);
}

Answers-say : {u : Device} {m m' : Machine u} (c : Call) → Answers (say c m) m' → Answers m m'
Answers-say c a = record { result = a.result; frame = a.frame; words = a.words; csrs = a.csrs }

-- An environment call, from user or machine mode, goes on behind the call, and answers it: number
-- 1 writes the hart's number through a pointer that is not NULL and gives 0, and gives -1 for NULL;
-- any other number gives -1.
pub environment_call :
    {u : Device} (m : Machine u) (fuel : Fuel) (os_kernel epc cause : ℕ)
    → (cause ≡ 8) ⊎ (cause ≡ 11)
    → (m' : Machine u) × (trap_handler fuel os_kernel epc cause m ≡ ok ((epc + 4) % 2 ^ 32, m'))
      × Answers m m'
unfolding trap_handler handle_exception
environment_call m fuel os_kernel epc cause (inl e) = (
  do_syscall (say (puts "Environment call from U-mode!\n") m),
  rw e,
  Answers-say _ (do_syscall-Answers (say (puts "Environment call from U-mode!\n") m)),
)
environment_call m fuel os_kernel epc cause (inr e) = (
  do_syscall (say (puts "Environment call from M-mode!\n") m),
  rw e,
  Answers-say _ (do_syscall-Answers (say (puts "Environment call from M-mode!\n") m)),
)

-- Any other exception is reported, and goes back to the instruction that raised it with the machine
-- as it was.
pub other_exception :
    {u : Device} (m : Machine u) (fuel : Fuel) (os_kernel epc cause : ℕ)
    → cause < 2 ^ 12
    → cause ≢ 8
    → cause ≢ 11
    → (m' : Machine u) × (trap_handler fuel os_kernel epc cause m ≡ ok (epc, m'))
      × (record m' { console = m.console } ≡ m)
unfolding trap_handler handle_exception
other_exception m fuel os_kernel epc cause small ne8 ne11 =
    let code : bit_and cause 0xfff ≡ cause = omega (arith, bit_and_mask 12 cause) in
    let sync : bit_and cause 0x80000000 ≡ 0 = bit_and_above 31 cause 1 (omega arith) in
    (
      (handle_exception epc cause m).1,
      rw (sync, code, ne→== cause 8 ne8, ne→== cause 11 ne11) (ground arith),
      ground arith,
    )
