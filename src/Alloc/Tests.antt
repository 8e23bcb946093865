-- ===== src/Alloc/Tests.antt =====
-- The allocator at a heap of eight pages that holds two blocks.
use mini_riscv_os.Common.{
  ◌+◌, ◌*◌, ◌/◌, ◌%◌, ◌<◌, ◌≤◌, ◌≡◌, refl, ◌↔◌, inl, inr, some, List, [], ◌∷◌, arith,
}
use mini_riscv_os.Alloc.{
  Heap, page_size, page_num, malloc, free, null, malloc_loop, run_is_free, is_free,
}
use mini_riscv_os.Alloc.Blocks.{Block, Represents, flag_of}
use mini_riscv_os.Alloc.Malloc.{Allocates, malloc-Allocates}
use mini_riscv_os.Alloc.Free.{free-Represents, free_outside}
use mini_riscv_os.Alloc.Check.{free_each}
use mathlib.Core.Quot
use mini_riscv_os.Alloc.View.{Pool, of_list, count, Shows, put}
use mini_riscv_os.Alloc.View.Order.{free_either_order}
use mini_riscv_os.Alloc.Size.{page_num_short}

abbrev two_blocks : List Block
two_blocks = (1, 2) ∷ (4, 1) ∷ []

abbrev heap : Heap
heap = record { alloc_start = 4096; alloc_end = 6144; num_pages = 8; page = flag_of two_blocks }

heap-Represents : Represents heap two_blocks
heap-Represents = record {
  pool = omega arith;
  end = refl;
  fits = omega arith;
  layout = (omega arith, omega arith, (inl (omega arith), tt), (omega arith, omega arith, tt, tt));
  flags = λ j lt. refl;
}

-- The free run of two pages before the last page is the one from page 5 on.
malloc_address : (malloc 300 heap).0 ≡ 4096 + 5 * 256
unfolding malloc malloc_loop run_is_free is_free
malloc_address = refl

malloc_refused : (malloc 900 heap).0 ≡ null
unfolding malloc malloc_loop run_is_free is_free
malloc_refused = refl

malloc-Allocates_example : Allocates heap two_blocks 2 (malloc 300 heap)
malloc-Allocates_example = malloc-Allocates 300 heap-Represents (omega arith)

free-Represents_example :
    (h' : Heap) × (free 2 (4096 + page_size * 1) heap ≡ some h') × Represents h' ((4, 1) ∷ [])
free-Represents_example =
    free-Represents {h = heap} [] ((4, 1) ∷ []) 1 2 2 heap-Represents (omega arith)

free_outside_example : free 0 9000 heap ≡ some heap
free_outside_example = free_outside heap 9000 0 (inr (omega arith))

page_num_short_example :
    ((page_num 512 * page_size < 512) ↔ (256 < 512 / 257 + 512 % 257))
    × (page_num 513 * page_size < 513)
    × (512 < 513 → 512 ≤ page_num 512 * page_size)
page_num_short_example = page_num_short 512

-- The same blocks in no order.
abbrev pool : Pool
pool = put (4, 1) (put (1, 2) (of_list []))

heap-Shows : Shows heap pool
unfolding put count
heap-Shows = ∣ (two_blocks, heap-Represents, Quot.sound (λ b. omega arith)) ∣₁

free_either_order_example :
    (h1 : Heap) × (h2 : Heap) × (free_each 2 (5120 ∷ 4352 ∷ []) heap ≡ some h1)
    × (free_each 2 (4352 ∷ 5120 ∷ []) heap ≡ some h2)
    × Shows h1 (of_list [])
    × Shows h2 (of_list [])
free_either_order_example =
    free_either_order 2 {h = heap} 4 1 1 2 (omega arith) (omega arith) heap-Shows
