-- ===== src/Alloc.antt =====
-- The page allocator, 10-SystemCall/src/alloc.c.
-- The page descriptors are the bytes of memory from HEAP_START on, so `page i` is defined at every
-- index, as a read through `struct Page *` is; an address is a 32-bit word.
pub mod Descriptors
pub mod Size
pub mod Blocks
pub mod Malloc
pub mod Free
pub mod Init
pub mod Check
pub mod PageTest
pub mod Clients
pub mod Output
pub mod Report
pub mod Oversize
pub mod Unique
pub mod View
mod Tests
use mini_riscv_os.Common.{
  ℕ, zero, suc, ◌+◌, ◌-◌, ◌*◌, ◌/◌, ◌^◌, ◌%◌, bit_and, bit_or, Bool, true, false, ◌||◌, Option,
  none, some, ltb, leb, ◌==◌, if◌then◌else◌, update, add32, sub32, mul32, not32, List, [], ◌∷◌,
}
use mini_riscv_os.Console.{Call, puts, printf, Arg, int}

abbrev pub page_size : ℕ
page_size = 256

abbrev pub page_order : ℕ
page_order = 8

abbrev pub page_taken : ℕ
page_taken = 1

abbrev pub page_last : ℕ
page_last = 2

-- `pageNum(x)`, as `malloc` uses it.
abbrev pub page_num : ℕ → ℕ
page_num x = x / (page_size + 1) + 1

-- The words that mem.s exports from the linker script.
pub record Symbols : Type 0 where
  pub text_start : ℕ
  pub text_end : ℕ
  pub data_start : ℕ
  pub data_end : ℕ
  pub rodata_start : ℕ
  pub rodata_end : ℕ
  pub bss_start : ℕ
  pub bss_end : ℕ
  pub heap_start : ℕ
  pub heap_size : ℕ

-- The static variables of the allocator, and the descriptors.
pub record Heap : Type 0 where
  pub alloc_start : ℕ
  pub alloc_end : ℕ
  pub num_pages : ℕ
  pub page : ℕ → ℕ

abbrev pub null : ℕ
null = 0

unfoldable pub clear : (ℕ → ℕ) → ℕ → ℕ → ℕ
clear page i = update page i 0

unfoldable pub is_free : (ℕ → ℕ) → ℕ → Bool
is_free page i = if bit_and (page i) page_taken == 0 then true else false

unfoldable pub set_flag : (ℕ → ℕ) → ℕ → ℕ → ℕ → ℕ
set_flag page i flags = update page i (bit_or (page i) flags)

unfoldable pub is_last : (ℕ → ℕ) → ℕ → Bool
is_last page i = if bit_and (page i) page_last == 0 then false else true

unfoldable pub align_page : ℕ → ℕ
align_page address = bit_and (add32 address (2 ^ page_order - 1)) (not32 (2 ^ page_order - 1))

-- The loop of `page_init` over `count` descriptors from `i`.
unfoldable pub clear_pages : ℕ → ℕ → (ℕ → ℕ) → ℕ → ℕ
clear_pages zero i page = page
clear_pages (suc count) i page = clear_pages count (i + 1) (clear page i)

unfoldable pub page_init : Symbols → Heap → List Call × Heap
page_init s h =
    let num_pages : ℕ = sub32 (s.heap_size / page_size) 2048 in
    let alloc_start : ℕ = align_page (add32 s.heap_start (2048 * page_size)) in
    let alloc_end : ℕ = add32 alloc_start (mul32 page_size num_pages) in
    (
      printf "HEAP_START = %x, HEAP_SIZE = %x, num of pages = %d\n"
            (int s.heap_start ∷ int s.heap_size ∷ int num_pages ∷ [])
          ∷ printf "TEXT:   0x%x -> 0x%x\n" (int s.text_start ∷ int s.text_end ∷ [])
          ∷ printf "RODATA: 0x%x -> 0x%x\n" (int s.rodata_start ∷ int s.rodata_end ∷ [])
          ∷ printf "DATA:   0x%x -> 0x%x\n" (int s.data_start ∷ int s.data_end ∷ [])
          ∷ printf "BSS:    0x%x -> 0x%x\n" (int s.bss_start ∷ int s.bss_end ∷ [])
          ∷ printf "HEAP:   0x%x -> 0x%x\n" (int alloc_start ∷ int alloc_end ∷ [])
          ∷ [],
      record {
        alloc_start = alloc_start;
        alloc_end = alloc_end;
        num_pages = num_pages;
        page = clear_pages num_pages 0 h.page;
      },
    )

-- The inner loop of `malloc`: are the `n` pages from `j` on free?
unfoldable pub run_is_free : ℕ → ℕ → (ℕ → ℕ) → Bool
run_is_free zero j page = true
run_is_free (suc n) j page =
    let rest = run_is_free n (j + 1) page in if is_free page j then rest else false

-- The loop of `malloc` that takes the `n` pages from `k` on.
unfoldable pub take_pages : ℕ → ℕ → (ℕ → ℕ) → ℕ → ℕ
take_pages zero k page = page
take_pages (suc n) k page = take_pages n (k + 1) (set_flag page k page_taken)

-- The housekeeping of `malloc` once the run of `n` pages from `i` on is found.
unfoldable pub claim : ℕ → ℕ → (ℕ → ℕ) → ℕ → ℕ
claim n i page = set_flag (take_pages n i page) (i + n - 1) page_last

-- The outer loop of `malloc`, from page `i` on with `rounds` left.
unfoldable pub malloc_loop : ℕ → ℕ → ℕ → Heap → ℕ × Heap
malloc_loop npages zero i h = (null, h)
malloc_loop npages (suc rounds) i h =
    let rest = malloc_loop npages rounds (i + 1) h in
    if is_free h.page i
    then if run_is_free npages i h.page
      then (add32 h.alloc_start (mul32 i page_size), record h { page = claim npages i h.page })
      else rest
    else rest

unfoldable pub malloc : ℕ → Heap → ℕ × Heap
malloc size h = let npages : ℕ = page_num size in malloc_loop npages (sub32 h.num_pages npages) 0 h

-- The loop of `free`, with fuel; `none` means that the fuel ran out.
unfoldable pub free_loop : ℕ → ℕ → (ℕ → ℕ) → Option (ℕ → ℕ)
free_loop zero i page = none
free_loop (suc fuel) i page =
    let rest = free_loop fuel (i + 1) (clear page i) in
    if is_free page i then some page else if is_last page i then some (clear page i) else rest

set_page : Heap → Option (ℕ → ℕ) → Option Heap
set_page h none = none
set_page h (some page) = some (record h { page = page })

unfoldable pub free : ℕ → ℕ → Heap → Option Heap
unfolding set_page
free fuel p h =
    if p == null || leb h.alloc_end p
    then some h
    else set_page h (free_loop fuel (sub32 p h.alloc_start / page_size) h.page)
