-- ===== src/Chapters/TrapFrame.antt =====
-- The trap frame of the chapters 6 to 9, 09-MemoryAllocator/src/sys.s: trap_vector with a reg_save
-- that stores t6 and a reg_load that leaves tp alone.
use mini_riscv_os.Common.{ℕ, ◌≡◌, refl, List, [], ◌∷◌, update, arith}
use mini_riscv_os.Task.{save, load, frame_loaded, t6}
use mini_riscv_os.Task.Switch.{SameOn}

-- `reg_load`: the words 0 to 2, and those from 4 on.
unfoldable pub early_reg_load : (ℕ → ℕ) → (ℕ → ℕ) → ℕ → ℕ
unfolding load
early_reg_load frame regs =
    load
      (5 ∷ 6 ∷ 7 ∷ 8 ∷ 9 ∷ 10 ∷ 11 ∷ 12 ∷ 13 ∷ 14 ∷ 15 ∷ 16 ∷ 17 ∷ 18 ∷ 19 ∷ 20 ∷ 21 ∷ 22 ∷ 23 ∷ 24
        ∷ 25 ∷ 26 ∷ 27 ∷ 28 ∷ 29 ∷ 30 ∷ 31 ∷ [])
      4 frame (load (1 ∷ 2 ∷ 3 ∷ []) 0 frame regs)

-- `handler` is given mepc and answers the pc; `clobber` is what its code makes of the registers.
-- `mscratch` is the address of the frame.
unfoldable pub early_trap_vector :
    (ℕ → ℕ) → ((ℕ → ℕ) → ℕ → ℕ) → ℕ → (ℕ → ℕ) → (ℕ → ℕ) → ℕ → (ℕ → ℕ) × ℕ
unfolding save early_reg_load
early_trap_vector handler clobber mscratch regs frame mepc =
    let entered : ℕ → ℕ = update regs t6 mscratch in
    let frame' : ℕ → ℕ = save frame_loaded 0 entered frame in
    (early_reg_load frame' (update (clobber entered) t6 mscratch), handler mepc)

-- The registers 1 to 30 but tp.
abbrev pub early_kept : List ℕ
early_kept =
    1 ∷ 2 ∷ 3 ∷ 5 ∷ 6 ∷ 7 ∷ 8 ∷ 9 ∷ 10 ∷ 11 ∷ 12 ∷ 13 ∷ 14 ∷ 15 ∷ 16 ∷ 17 ∷ 18 ∷ 19 ∷ 20 ∷ 21 ∷ 22
    ∷ 23 ∷ 24 ∷ 25 ∷ 26 ∷ 27 ∷ 28 ∷ 29 ∷ 30 ∷ []

-- Whatever the handler does to the registers, the interrupted code finds those from 1 to 30 but tp
-- as they were; tp is what the handler left there, and t6 the address of the frame, whatever it was.
pub early_trap_vector_lem :
    (handler : ℕ → ℕ) (clobber : (ℕ → ℕ) → ℕ → ℕ) (mscratch mepc : ℕ) (regs frame : ℕ → ℕ)
    → SameOn early_kept (early_trap_vector handler clobber mscratch regs frame mepc).0 regs
      × ((early_trap_vector handler clobber mscratch regs frame mepc).0 4
          ≡ clobber (update regs t6 mscratch) 4)
      × ((early_trap_vector handler clobber mscratch regs frame mepc).0 t6 ≡ mscratch)
      × ((early_trap_vector handler clobber mscratch regs frame mepc).1 ≡ handler mepc)
unfolding early_trap_vector early_reg_load save load
early_trap_vector_lem handler clobber mscratch mepc regs frame = (omega arith, refl, refl, refl)
