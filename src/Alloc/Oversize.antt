-- ===== src/Alloc/Oversize.antt =====
-- A request for more pages than there are.
use mini_riscv_os.Common.{ℕ, suc, ◌+◌, ◌-◌, ◌*◌, ◌^◌, ◌<◌, ◌≡◌, true, ap, ◌∙◌, arith, sub32}
use mini_riscv_os.Alloc.{Heap, page_num, page_size, is_free, run_is_free, malloc_loop, malloc}
use mini_riscv_os.Alloc.Descriptors.{run_is_free-intro}

first_run :
    (n r : ℕ) (h : Heap)
    → is_free h.page 0 ≡ true
    → run_is_free n 0 h.page ≡ true
    → h.alloc_start < 2 ^ 32
    → (malloc_loop n (suc r) 0 h).0 ≡ h.alloc_start
unfolding malloc_loop
first_run n r h open_page run small = rw (open_page, run) (omega arith)

-- A request for more pages than the pool has, and fewer than 2 ^ 31, is granted, from the first page
-- of a pool that starts below 2 ^ 32 on, if the bytes that the search reads, descriptors and what follows them in memory, are those of free pages: the bound
-- of the search wraps at 2 ^ 32. The grant then reaches past the end of the pool.
pub malloc_oversize :
    (size : ℕ) (h : Heap)
    → h.num_pages < page_num size
    → page_num size < 2 ^ 31
    → h.alloc_start < 2 ^ 32
    → ((j : ℕ) → j < page_num size → is_free h.page j ≡ true)
    → ((malloc size h).0 ≡ h.alloc_start)
      × (h.alloc_start + page_size * h.num_pages < (malloc size h).0 + page_size * page_num size)
unfolding malloc
malloc_oversize size h more small start_small all =
    let n : ℕ = page_num size in
    let rounds : sub32 h.num_pages n ≡ suc (sub32 h.num_pages n - 1) = omega arith in
    let run : run_is_free n 0 h.page ≡ true =
      run_is_free-intro n 0 h.page (λ j lo hi. all j (omega arith)) in
    let granted : (malloc_loop n (sub32 h.num_pages n) 0 h).0 ≡ h.alloc_start =
      ap (λ (k : ℕ). (malloc_loop n k 0 h).0) rounds
      ∙ first_run n (sub32 h.num_pages n - 1) h (all 0 (omega arith)) run start_small in
    (granted, omega (arith, granted))
