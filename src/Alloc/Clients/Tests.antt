-- ===== src/Alloc/Clients/Tests.antt =====
-- Two callers of an allocator with eight pages.
use mini_riscv_os.Common.{ℕ, true, ◌+◌, ◌*◌, ◌<◌, ◌≡◌, refl, some, [], ◌∷◌, arith}
use mini_riscv_os.Alloc.{
  Heap, page_num, page_size, clear, is_free, is_last, run_is_free, claim, take_pages, set_flag,
  malloc_loop, malloc, free, free_loop,
}
use mini_riscv_os.Alloc.Oversize.{malloc_oversize}
use mini_riscv_os.Alloc.Clients.{Shop, keep, asked, gave_back, Reach, here, later, IsOpen}
use mini_riscv_os.Alloc.Clients.Separate.{nothing_leaks}

abbrev eight_pages : Heap
eight_pages = record { alloc_start = 4096; alloc_end = 6144; num_pages = 8; page = λ j. 0 }

abbrev at_start : Shop
at_start = record { heap = eight_pages; live = [] }

at_start-IsOpen : IsOpen at_start
at_start-IsOpen = record {
  empty = record {
    pool = omega arith;
    end = refl;
    fits = omega arith;
    layout = tt;
    flags = λ j lt. refl;
  };
  no_grant = refl;
}

abbrev one_grant : Shop
one_grant = keep 300 (malloc 300 eight_pages) []

abbrev two_grants : Shop
two_grants = keep 100 (malloc 100 one_grant.heap) one_grant.live

one_live : one_grant.live ≡ (4096, 300) ∷ []
unfolding keep malloc malloc_loop run_is_free is_free
one_live = refl

to_one : Reach 8 at_start one_grant
to_one = later here (asked at_start 300 (omega arith))

all_free : (j : ℕ) → j < page_num 3000 → is_free eight_pages.page j ≡ true
unfolding is_free
all_free j lt = refl

abbrev given_back : Shop
given_back = record {
  heap = record one_grant.heap { page = clear (clear one_grant.heap.page 0) 1 };
  live = [];
}

freed_lem : free 8 4096 one_grant.heap ≡ some given_back.heap
unfolding keep malloc malloc_loop run_is_free is_free claim take_pages set_flag free free_loop
    is_last clear
freed_lem = refl

to_given_back : Reach 8 at_start given_back
to_given_back = later to_one (gave_back one_grant [] [] 4096 300 given_back.heap one_live freed_lem)

nothing_leaks_example : given_back.heap.page 1 ≡ 0
nothing_leaks_example =
    nothing_leaks at_start-IsOpen (omega arith) to_given_back refl 1 (omega arith)

-- 3000 bytes are twelve pages.
malloc_oversize_example :
    ((malloc 3000 eight_pages).0 ≡ 4096)
    × (4096 + page_size * 8 < (malloc 3000 eight_pages).0 + page_size * page_num 3000)
malloc_oversize_example =
    malloc_oversize 3000 eight_pages (omega arith) (omega arith) (omega arith) all_free
