-- ===== src/Virtio/Descriptors.antt =====
-- The descriptor table: what allocation takes and what freeing gives back.
use mini_riscv_os.Common.{
  ℕ, zero, suc, ◌+◌, ◌≤◌, ◌<◌, ◌≡◌, refl, ◌≢◌, inl, inr, Option, none, some, ◌==◌, update, arith,
  Bool-cases,
}
use mini_riscv_os.Virtio.{num, Disk, alloc_desc_loop, alloc_desc}

-- `i` is the first free index from `lo` on.
pub record IsFirstFree (d : Disk) (lo i : ℕ) : Type 0 where
  pub from : lo ≤ i
  pub free : d.free i ≢ 0
  pub least : (j : ℕ) → lo ≤ j → j < i → d.free j ≡ 0

-- `alloc_desc` gives up on a full table and changes nothing, or takes the first free descriptor.
pub data Takes (d : Disk) (lo hi : ℕ) : Option ℕ × Disk → Type 0 where
  full : ((j : ℕ) → lo ≤ j → j < hi → d.free j ≡ 0) → Takes d lo hi (none, d)
  takes :
      (i : ℕ)
      → i < hi
      → IsFirstFree d lo i
      → Takes d lo hi (some i, record d { free = update d.free i 0 })

busy_first :
    {d : Disk} {lo hi : ℕ} {out : Option ℕ × Disk}
    → d.free lo ≡ 0
    → Takes d (lo + 1) hi out
    → Takes d lo hi out
busy_first {d} {lo} busy (full all) =
    full (λ j h k. elim (Bool-cases (lo == j)) [
      | inl e ↦ ground arith
      | inr e ↦ all j (ground arith) k
    ])
busy_first {d} {lo} busy (takes i lt first) = takes i lt record {
  from = omega (arith, first.from);
  free = first.free;
  least = λ j h k. elim (Bool-cases (lo == j)) [
    | inl e ↦ ground arith
    | inr e ↦ first.least j (ground arith) k
  ];
}

alloc_desc_loop-Takes :
    (rounds lo hi : ℕ) (d : Disk) → lo + rounds ≡ hi → Takes d lo hi (alloc_desc_loop rounds lo d)
unfolding alloc_desc_loop
alloc_desc_loop-Takes zero lo hi d e = full (λ j h k. absurd (omega arith))
alloc_desc_loop-Takes (suc rounds) lo hi d e = elim (Bool-cases (d.free lo == 0)) [
  | inl busy ↦
      rw busy (busy_first (ground arith) (alloc_desc_loop-Takes rounds (lo + 1) hi d (omega arith)))
  | inr open_slot ↦ rw open_slot (
      takes lo (omega arith)
        record { from = omega arith; free = ground arith; least = λ j h k. absurd (omega arith) })
]

-- `alloc_desc` takes the first free descriptor of the table, and nothing else changes; if none is
-- free it returns -1 and changes nothing.
pub alloc_desc-Takes : (d : Disk) → Takes d 0 num (alloc_desc d)
unfolding alloc_desc
alloc_desc-Takes d = alloc_desc_loop-Takes num 0 num d refl
