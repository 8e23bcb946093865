-- ===== src/Trap/Entry.antt =====
-- A trap from its entry in trap_vector, 10-SystemCall/src/sys.s, through trap_handler of trap.c, to
-- `mret`: what the interrupted code finds in its registers, and where it goes on.
mod Tests
use mini_riscv_os.Common.{
  ℕ, ◌+◌, ◌%◌, ◌^◌, ◌<◌, ◌≡◌, ◌≢◌, ◌⊎◌, refl, inl, inr, ◌==◌, if◌then◌else◌, ok, arith, Run, ◌>>=◌,
  List, [], ◌∷◌, update, ap, ◌∙◌, subst, sym, fun_ext, eq_or_ne, update_self, update_ne,
}
use mini_riscv_os.Uart.{Device}
use mini_riscv_os.Common.{◌++◌, bit_and, not32}
use mini_riscv_os.Common.Bits.{bit}
use mini_riscv_os.Console.{puts, printf, int}
use mini_riscv_os.Trap.Interrupts.{set_digit}
use mini_riscv_os.Virtio.Request.{Driver, virtio_disk_isr}
use mini_riscv_os.Machine.{Machine, virtio_irq, say, mie_mtie, set_mie, clear_mie}
use mini_riscv_os.Task
use mini_riscv_os.Task.{save, load, frame_saved, frame_loaded}
use mini_riscv_os.Task.Switch.{SameOn}
use mini_riscv_os.Trap.{
  Fuel, a0, a7, minus_one, trap_handler, handle_interrupt, timer_handler, interval,
  external_handler, plic_claim, plic_complete,
}
use mini_riscv_os.Trap.Syscalls.{Answers, environment_call}

-- The frame as the handler finds it.
unfoldable pub enter_frame : (ℕ → ℕ) → (ℕ → ℕ) → ℕ → ℕ → ℕ
unfolding save
enter_frame regs frame mepc = update (save frame_saved 0 regs frame) 31 mepc

module _ {u : Device} where
  -- `trap_vector`: the registers and the pc after it, and the machine.
  unfoldable pub take_trap : Fuel → ℕ → ℕ → ℕ → (ℕ → ℕ) → Machine u → Run ((ℕ → ℕ) × ℕ × Machine u)
  unfolding enter_frame load
  take_trap fuel os_kernel mepc mcause regs m =
      trap_handler fuel os_kernel mepc mcause (record m { frame = enter_frame regs m.frame mepc })
      >>= λ r. ok (load frame_loaded 0 r.1.frame regs, r.0, r.1)

-- The registers that a system call must leave alone: all that the frame holds but a0.
abbrev pub kept_by_call : List ℕ
kept_by_call =
    1 ∷ 2 ∷ 3 ∷ 4 ∷ 5 ∷ 6 ∷ 7 ∷ 8 ∷ 9 ∷ 11 ∷ 12 ∷ 13 ∷ 14 ∷ 15 ∷ 16 ∷ 17 ∷ 18 ∷ 19 ∷ 20 ∷ 21 ∷ 22
    ∷ 23 ∷ 24 ∷ 25 ∷ 26 ∷ 27 ∷ 28 ∷ 29 ∷ 30 ∷ []

-- A frame in which only the word of a0 is new gives back the other registers.
answered :
    (regs frame : ℕ → ℕ) (mepc v : ℕ)
    → SameOn kept_by_call
        (load frame_loaded 0 (update (enter_frame regs frame mepc) a0 v) regs)
        regs
unfolding load enter_frame save
answered regs frame mepc v = omega arith

answered_frame :
    {u : Device} {m m' : Machine u} → Answers m m' → m'.frame ≡ update m.frame a0 (m'.frame a0)
answered_frame {m = m} {m'} a = fun_ext (λ i. ground (arith, a.frame i))

update_twice : (f : ℕ → ℕ) (i v w : ℕ) → update (update f i v) i w ≡ update f i w
update_twice f i v w = fun_ext (λ j. ground arith)

module _ {u : Device} (m : Machine u) (fuel : Fuel) (os_kernel mepc : ℕ) (regs : ℕ → ℕ) where
  -- A timer interrupt goes on in `os_kernel` with the registers 1 to 30 of the interrupted code, but
  -- not t6. It counts itself, prints the count, sets the comparator of its hart `interval` cycles after
  -- now, leaves the timer interrupt enabled and the devices alone, and leaves no trace of where the
  -- code was but in word 31 of the frame: struck at another pc, it gives the same registers, the same
  -- pc and, but for that word, the same machine.
  pub timer_trap :
      (elsewhere : ℕ)
      → (regs' : ℕ → ℕ) × (m' : Machine u) × (take_trap fuel os_kernel mepc 0x80000007 regs m
          ≡ ok (regs', os_kernel, m'))
        × SameOn frame_saved regs' regs
        × (take_trap fuel os_kernel elsewhere 0x80000007 regs m
            ≡ ok (regs', os_kernel, record m' { frame = update m'.frame 31 elsewhere }))
        × (m'.timer_count ≡ (m.timer_count + 1) % 2 ^ 32)
        × (m'.mtimecmp m.mhartid ≡ (m.mtime + interval) % 2 ^ 32)
        × (m'.console ≡ m.console ++ printf "timer_handler: %d\n" (int m'.timer_count ∷ []) ∷ [])
        × (bit m'.mie 7 ≡ 1)
        × (m'.uart ≡ m.uart)
        × (m'.driver ≡ m.driver)
  unfolding take_trap trap_handler handle_interrupt timer_handler enter_frame save load
  timer_trap elsewhere = (
    _,
    _,
    refl,
    omega arith,
    ap
        (λ (f : ℕ → ℕ). ok (
          load frame_loaded 0 f regs,
          os_kernel,
          record (set_mie mie_mtie (timer_handler (clear_mie (2 ^ 7) m))) { frame = f },
        ))
        (sym (update_twice (save frame_saved 0 regs m.frame) 31 mepc elsewhere)),
    refl,
    update_self m.mtimecmp m.mhartid _,
    refl,
    set_digit (bit_and m.mie (not32 (2 ^ 7))) 7 7 (omega arith) (omega arith),
    refl,
    refl,
  )

  -- The external interrupt of the block device goes on where it struck, with the registers that the
  -- frame holds, when the handler of the driver has ended; it prints its line and completes the
  -- source.
  pub disk_trap :
      (d : Driver)
      → plic_claim m ≡ virtio_irq
      → virtio_disk_isr m.virtio_regs fuel.blocks m.driver ≡ ok d
      → (regs' : ℕ → ℕ) × (take_trap fuel os_kernel mepc 0x8000000b regs m
          ≡ ok (
            regs',
            mepc,
            plic_complete virtio_irq (record (say (puts "Virtio IRQ\n") m) {
              driver = d;
              frame = enter_frame regs m.frame mepc;
            }),
          ))
        × SameOn frame_saved regs' regs
  unfolding take_trap trap_handler handle_interrupt external_handler plic_complete plic_claim
      enter_frame save load
  disk_trap d claimed run =
      (load frame_loaded 0 (enter_frame regs m.frame mepc) regs, rw (claimed, run), omega arith)

  -- An environment call goes on behind the call with all registers of the frame but a0. Number 1 in
  -- a7 writes the hart's number through the pointer in a0, if that is not NULL, and gives 0 in a0;
  -- it gives -1 for NULL, as any other number does; no other word of memory is written.
  pub call_trap :
      (mcause : ℕ)
      → (mcause ≡ 8) ⊎ (mcause ≡ 11)
      → (regs' : ℕ → ℕ) × (m' : Machine u) × (take_trap fuel os_kernel mepc mcause regs m
          ≡ ok (regs', (mepc + 4) % 2 ^ 32, m'))
        × SameOn kept_by_call regs' regs
        × (regs' 10 ≡ (if regs 17 == 1 then if regs 10 == 0 then minus_one else 0 else minus_one))
        × ((p : ℕ)
            → m'.words p ≡ (
                if regs 17 == 1
                then if regs 10 == 0
                  then m.words p
                  else if regs 10 == p
                  then m.mhartid
                  else m.words p
                else m.words p))
  unfolding take_trap enter_frame save load
  call_trap mcause mode =
      let entered : Machine u = record m { frame = enter_frame regs m.frame mepc } in
      let (m', run, a) = environment_call entered fuel os_kernel mepc mcause mode in
      (
        load frame_loaded 0 m'.frame regs,
        m',
        rw run,
        subst (λ (f : ℕ → ℕ). SameOn kept_by_call (load frame_loaded 0 f regs) regs)
            (sym (answered_frame a)) (answered regs m.frame mepc (m'.frame a0)),
        a.result,
        a.words,
      )
