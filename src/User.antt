-- ===== src/User.antt =====
-- The tasks of 10-SystemCall/src/user.c that share nothing, and gethid of usys.s.
use mini_riscv_os.Common.{
  ℕ, zero, suc, ◌≡◌, ◌≢◌, ◌⊎◌, ◌∙◌, refl, ap, List, [], ◌∷◌, ◌++◌, ◌==◌, if◌then◌else◌, update, Run,
  ok, ◌>>=◌, ne→==, arith, String,
}
use mini_riscv_os.Console.{Call, puts, printf, int}
use mini_riscv_os.Uart.{Device}
use mini_riscv_os.Machine.{Machine, say}
use mini_riscv_os.Trap.{Fuel, minus_one}
use mini_riscv_os.Trap.Entry.{take_trap, kept_by_call, call_trap}
use mini_riscv_os.Task.Switch.{SameOn}

-- What a task that only prints says in `rounds` rounds of its loop, by its number.
unfoldable pub running : String → ℕ → List Call
running line zero = []
running line (suc rounds) = puts line ∷ running line rounds

unfoldable pub user_task0 : ℕ → List Call
unfolding running
user_task0 rounds = puts "Task0: Created!\n" ∷ running "Task0: Running...\n" rounds

unfoldable pub user_task1 : ℕ → List Call
unfolding running
user_task1 rounds = puts "Task1: Created!\n" ∷ running "Task1: Running...\n" rounds

module _ {u : Device} where
  -- `li a7, 1; ecall; ret`, with the argument in a0: the registers, the pc behind `ret`, and the
  -- machine. `cause` says in which mode the call was made, `epc` where its `ecall` is.
  unfoldable pub gethid : Fuel → ℕ → ℕ → ℕ → (ℕ → ℕ) → Machine u → Run ((ℕ → ℕ) × ℕ × Machine u)
  gethid fuel os_kernel epc cause regs m =
      take_trap fuel os_kernel epc cause (update regs 17 1) m >>= λ r. ok (r.0, r.0 1, r.2)

  unfoldable pub report : ℕ → ℕ → Machine u → Machine u
  report hid ret m =
      if ret == 0
      then say (printf "system call returned!, hart id is %d\n" (int (m.words hid) ∷ [])) m
      else say (printf "gethid() failed, return: %d\n" (int ret ∷ [])) m

  -- `user_task4` in `rounds` rounds of its loop; `hid` is the address of its variable.
  unfoldable pub user_task4 : Fuel → ℕ → ℕ → ℕ → ℕ → ℕ → (ℕ → ℕ) → Machine u → Run (Machine u)
  unfolding report running
  user_task4 fuel os_kernel epc cause hid rounds regs m =
      let created : Machine u = say (puts "Task4: Created!\n") m in
      let unset : Machine u = record created { words = update created.words hid minus_one } in
      gethid fuel os_kernel epc cause (update regs 10 hid) unset >>= λ r.
      let told : Machine u = report hid (r.0 10) r.2 in
      ok (record told { console = told.console ++ running "Task4: Running...\n" rounds })

  -- `gethid`, from either mode, returns to its caller with all registers of the frame but a0 and a7:
  -- it writes the number of the hart through a pointer that is not NULL and gives 0, and gives -1 for
  -- NULL.
  pub gethid_lem :
      (m : Machine u) (fuel : Fuel) (os_kernel epc cause : ℕ) (regs : ℕ → ℕ)
      → (cause ≡ 8) ⊎ (cause ≡ 11)
      → (regs' : ℕ → ℕ) × (m' : Machine u) × (gethid fuel os_kernel epc cause regs m
          ≡ ok (regs', regs 1, m'))
        × SameOn kept_by_call regs' (update regs 17 1)
        × (regs' 10 ≡ (if regs 10 == 0 then minus_one else 0))
        × (m'.words (regs 10) ≡ (if regs 10 == 0 then m.words (regs 10) else m.mhartid))
  unfolding gethid
  gethid_lem m fuel os_kernel epc cause regs mode =
      let (regs', m', run, same, result, words) =
        call_trap m fuel os_kernel epc (update regs 17 1) cause mode in
      (
        regs',
        m',
        rw run (ap (λ (r : ℕ). ok (regs', r, m')) same.0),
        same,
        result,
        ground (arith, words (regs 10)),
      )

  -- `user_task4`, with its variable at an address that is not NULL, reports the number of its hart
  -- before it enters its loop, and then says in every round that it is running.
  pub user_task4-reports :
      (m : Machine u) (fuel : Fuel) (os_kernel epc cause hid rounds : ℕ) (regs : ℕ → ℕ)
      → (cause ≡ 8) ⊎ (cause ≡ 11)
      → hid ≢ 0
      → (m' : Machine u) × (before : List Call) × (user_task4 fuel os_kernel epc cause hid rounds
            regs m
          ≡ ok m')
        × (m'.console
            ≡ (before ++ printf "system call returned!, hart id is %d\n" (int m.mhartid ∷ []) ∷ [])
              ++ running "Task4: Running...\n" rounds)
  unfolding user_task4 report
  user_task4-reports m fuel os_kernel epc cause hid rounds regs mode ne =
      let created : Machine u = say (puts "Task4: Created!\n") m in
      let asked : Machine u = record created { words = update created.words hid minus_one } in
      let (regs', m', run, same, result, word) =
        gethid_lem asked fuel os_kernel epc cause (update regs 10 hid) mode in
      let some_pointer = ne→== hid 0 ne in
      let zero_result : regs' 10 ≡ 0 = result ∙ rw some_pointer refl in
      let hart : m'.words hid ≡ m.mhartid = word ∙ rw some_pointer refl in
      let told : Machine u = report hid 0 m' in
      (
        record told { console = told.console ++ running "Task4: Running...\n" rounds },
        m'.console,
        rw (run, zero_result) refl,
        ap
            (λ (h : ℕ).
              (m'.console ++ printf "system call returned!, hart id is %d\n" (int h ∷ []) ∷ [])
              ++ running "Task4: Running...\n" rounds)
            hart,
      )
