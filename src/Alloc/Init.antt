-- ===== src/Alloc/Init.antt =====
-- `page_init`: an empty, sound heap, and where its pool and its descriptors lie.
use mini_riscv_os.Common.{ℕ, ◌+◌, ◌-◌, ◌*◌, ◌/◌, ◌^◌, ◌≤◌, ◌<◌, ◌≡◌, arith, bit_and, add32, ap, []}
use mini_riscv_os.Common.Bits.{bit_and_step, bit_and_mask}
use mini_riscv_os.Alloc.{page_size, Symbols, Heap, align_page, page_init}
use mini_riscv_os.Alloc.Descriptors.{clear_pages_lem}
use mini_riscv_os.Alloc.Blocks.{Represents}

-- A zero digit at the low end of a mask.
mask_even : (m x : ℕ) → bit_and x (m * 2) ≡ bit_and (x / 2) m * 2
mask_even m x =
    let half : m * 2 / 2 ≡ m = omega arith in
    omega (arith, bit_and_step x (m * 2), ap (λ (t : ℕ). bit_and (x / 2) t) half)

-- Four, and eight, such digits.
mask_sixteen : (m x : ℕ) → bit_and x (m * 2 * 2 * 2 * 2) ≡ bit_and (x / 2 / 2 / 2 / 2) m * 16
mask_sixteen m x = omega (
  arith,
  mask_even (m * 2 * 2 * 2) x,
  mask_even (m * 2 * 2) (x / 2),
  mask_even (m * 2) (x / 2 / 2),
  mask_even m (x / 2 / 2 / 2),
)

low_byte_cleared : (m x : ℕ) → bit_and x (m * 256) ≡ bit_and (x / 256) m * 256
low_byte_cleared m x =
    let mask : m * 256 ≡ m * 2 * 2 * 2 * 2 * 2 * 2 * 2 * 2 = omega arith in
    let whole : x / 2 / 2 / 2 / 2 / 2 / 2 / 2 / 2 ≡ x / 256 = omega arith in
    rw (mask, ← whole)
      (omega (arith, mask_sixteen (m * 2 * 2 * 2 * 2) x, mask_sixteen m (x / 2 / 2 / 2 / 2)))

-- `_align_page` rounds up to a multiple of the page size, where it does not wrap.
align_page_lem : (a : ℕ) → a + 255 < 2 ^ 32 → align_page a ≡ (a + 255) / page_size * page_size
unfolding align_page
align_page_lem a h =
    let sum : add32 a 255 ≡ a + 255 = omega arith in
    rw sum
      (omega (arith, low_byte_cleared (2 ^ 24 - 1) (a + 255), bit_and_mask 24 ((a + 255) / 256)))

-- A heap as the linker script lays it out: in 32-bit memory, with room for the descriptors.
pub record IsHeap (s : Symbols) : Type 0 where
  pub start : 0 < s.heap_start
  pub room : 2049 * page_size ≤ s.heap_size
  pub fits : s.heap_start + s.heap_size + page_size < 2 ^ 32

module _ (s : Symbols) (h : Heap) (ok : IsHeap s) where
  abbrev pub after : Heap
  after = (page_init s h).1

  pub num_pages-page_init : after.num_pages + 2048 ≡ s.heap_size / page_size
  unfolding page_init
  num_pages-page_init = omega (arith, ok.room, ok.fits)

  clear_all : (j : ℕ) → j < after.num_pages → after.page j ≡ 0
  unfolding page_init
  clear_all j lt = ground (arith, clear_pages_lem after.num_pages 0 h.page j)

  alloc_start-page_init :
      after.alloc_start ≡ (s.heap_start + 2048 * page_size + 255) / page_size * page_size
  unfolding page_init
  alloc_start-page_init =
      let sum : add32 s.heap_start (2048 * page_size) ≡ s.heap_start + 2048 * page_size =
        omega (arith, ok.room, ok.fits) in
      rw sum (align_page_lem (s.heap_start + 2048 * page_size) (omega (arith, ok.room, ok.fits)))

  alloc_end-page_init : after.alloc_end ≡ after.alloc_start + page_size * after.num_pages
  unfolding page_init
  alloc_end-page_init = omega (arith, ok.room, ok.fits, alloc_start-page_init, num_pages-page_init)

  -- After `page_init` the heap is sound and holds no block.
  pub page_init-Represents : Represents after []
  page_init-Represents = record {
    pool = omega (arith, alloc_start-page_init);
    end = alloc_end-page_init;
    fits =
        omega (
          arith, ok.room, ok.fits, alloc_start-page_init, num_pages-page_init, alloc_end-page_init,
        );
    layout = tt;
    flags = clear_all;
  }

  -- Every run of pages that `malloc` may grant, as it never grants the last page, lies in memory
  -- behind the descriptors and before the end of the heap.
  pub page_init_inside :
      (k n : ℕ)
      → k + n < after.num_pages
      → s.heap_size ≤ 2 ^ 27
      → (s.heap_start + after.num_pages ≤ after.alloc_start + page_size * k)
        × (after.alloc_start + page_size * k + page_size * n ≤ s.heap_start + s.heap_size)
  page_init_inside k n lt small =
      omega (arith, ok.room, ok.fits, alloc_start-page_init, num_pages-page_init)
