-- ===== src/Alloc/View/Order.antt =====
-- Blocks that are given back in one order or the other: free of 10-SystemCall/src/alloc.c.
use mini_riscv_os.Common.{ℕ, ◌+◌, ◌*◌, ◌≤◌, ◌≡◌, ◌∙◌, subst, some, [], ◌∷◌, arith}
use mathlib.Core.Quot
use mathlib.Core.Quot.{Quot, Quot-set}
use mini_riscv_os.Alloc.{Heap, page_size, free}
use mini_riscv_os.Alloc.Blocks.{Block}
use mini_riscv_os.Alloc.Free.{alloc_start-free}
use mini_riscv_os.Alloc.Check.{free_each}
use mini_riscv_os.Alloc.PageTest.{free_each_step}
use mini_riscv_os.Alloc.View.{Pool, count, Shows, put, free-Shows}

put_comm : (b c : Block) (q : Pool) → put b (put c q) ≡ put c (put b q)
unfolding put count
put_comm b c = Quot.ind (λ q. Quot-set _ _) (λ bs. Quot.sound (λ d. omega arith))

module _ (fuel : ℕ) where
  -- Two blocks, one after the other.
  frees_two :
      {h : Heap} {q : Pool} (i m k n : ℕ)
      → m ≤ fuel
      → n ≤ fuel
      → Shows h (put (i, m) (put (k, n) q))
      → (h' : Heap) × (free_each fuel
            ((h.alloc_start + page_size * i) ∷ (h.alloc_start + page_size * k) ∷ [])
            h
          ≡ some h')
        × Shows h' q
  unfolding free_each
  frees_two {h} i m k n le le' s =
      let (h1, run1, s1) = free-Shows i m fuel le s in
      let (h2, run2, s2) = free-Shows k n fuel le' s1 in
      let start : h1.alloc_start ≡ h.alloc_start = alloc_start-free fuel _ h run1 in
      let again : free fuel (h.alloc_start + page_size * k) h1 ≡ some h2 =
        subst (λ (a : ℕ). free fuel (a + page_size * k) h1 ≡ some h2) start run2 in
      (
        h2,
        free_each_step fuel _ ((h.alloc_start + page_size * k) ∷ []) h run1
            ∙ free_each_step fuel (h.alloc_start + page_size * k) [] h1 again,
        s2,
      )

  -- Whatever list the descriptors are read as: `free` takes back two of the blocks in either order,
  -- with fuel for each, and the pool of the other blocks is what both orders leave.
  pub free_either_order :
      {h : Heap} {q : Pool} (i m k n : ℕ)
      → m ≤ fuel
      → n ≤ fuel
      → Shows h (put (i, m) (put (k, n) q))
      → (h1 : Heap) × (h2 : Heap) × (free_each fuel
            ((h.alloc_start + page_size * i) ∷ (h.alloc_start + page_size * k) ∷ [])
            h
          ≡ some h1)
        × (free_each fuel ((h.alloc_start + page_size * k) ∷ (h.alloc_start + page_size * i) ∷ []) h
            ≡ some h2)
        × Shows h1 q
        × Shows h2 q
  free_either_order {h} {q} i m k n le le' s =
      let (h1, run1, s1) = frees_two i m k n le le' s in
      let (h2, run2, s2) =
        frees_two k n i m le' le (subst (Shows h) (put_comm (i, m) (k, n) q) s) in
      (h1, h2, run1, run2, s1, s2)
