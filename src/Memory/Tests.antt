-- ===== src/Memory/Tests.antt =====
-- Filling and moving at addresses that overlap.
use mini_riscv_os.Common.{ℕ, ◌+◌, ◌-◌, ◌≡◌, ◌&&◌, ltb, leb, if◌then◌else◌, arith}
use mini_riscv_os.Memory.{memmove, memmove_lem}

abbrev memory : ℕ → ℕ
memory a = a

memmove_lem_example :
    memmove 102 100 5 memory 106
    ≡ (if leb 102 106 && ltb 106 (102 + 5) then 100 + (106 - 102) else 106)
memmove_lem_example = memmove_lem 102 100 5 memory 106 (omega arith) (omega arith)
