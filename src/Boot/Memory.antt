-- ===== src/Boot/Memory.antt =====
-- The heap of the linker script 10-SystemCall/os.ld is one that `page_init` and `malloc` can serve.
use mini_riscv_os.Common.{ℕ, ◌+◌, ◌-◌, ◌*◌, ◌^◌, ◌<◌, ◌≤◌, ◌≡◌, refl, List, [], ◌∷◌, arith}
use native.Mathlib.Nat.{div-add-mod', mod-lt}
use mini_riscv_os.Alloc.{Heap, page_size, page_init}
use mini_riscv_os.Alloc.Init.{IsHeap, page_init-Represents, page_init_inside, num_pages-page_init}
use mini_riscv_os.Alloc.Clients.{Grant, Shop, Reach, IsOpen}
use mini_riscv_os.Alloc.Clients.Separate.{Separate, grants_apart}
use mini_riscv_os.Boot.{Sections, align_up, ram_origin, memory_end, link}

-- The alignments are numbers from 1 on, and behind the sections there is room for the descriptors
-- and a page.
pub record IsLinked (s : Sections) : Type 0 where
  pub text : 0 < s.text.align
  pub rodata : 0 < s.rodata.align
  pub data_part : 0 < s.data_part.align
  pub bss : 0 < s.bss.align
  pub room : (link s).bss_end + 2049 * page_size ≤ memory_end

le-align_up : (a x : ℕ) → 0 < a → x ≤ align_up a x
le-align_up a x pos = omega (arith, div-add-mod' (x + (a - 1)) a, mod-lt (x + (a - 1)) {m = a} pos)

module _ (s : Sections) (ok : IsLinked s) where
  text_placed : ram_origin ≤ (link s).text_start
  unfolding link
  text_placed = le-align_up s.text.align ram_origin ok.text

  rodata_placed : (link s).text_end ≤ (link s).rodata_start
  unfolding link
  rodata_placed = le-align_up s.rodata.align (link s).text_end ok.rodata

  data_placed : (link s).rodata_end ≤ (link s).data_start
  unfolding link
  data_placed =
      let own = align_up s.data_part.align (link s).rodata_end in
      omega (
        arith,
        le-align_up s.data_part.align (link s).rodata_end ok.data_part,
        le-align_up 4096 own (omega arith),
      )

  bss_placed : (link s).data_end ≤ (link s).bss_start
  unfolding link
  bss_placed = le-align_up s.bss.align (link s).data_end ok.bss

  sizes :
      ((link s).text_end ≡ (link s).text_start + s.text.size)
      × ((link s).rodata_end ≡ (link s).rodata_start + s.rodata.size)
      × ((link s).data_end ≡ (link s).data_start + s.data_part.size)
      × ((link s).bss_end ≡ (link s).bss_start + s.bss.size)
      × ((link s).heap_start ≡ (link s).bss_end)
      × ((link s).heap_size ≡ memory_end - (link s).bss_end)
  unfolding link
  sizes = (refl, refl, refl, refl, refl, refl)

  -- The sections lie one behind the other, from the start of memory on.
  image_above : ram_origin ≤ (link s).bss_end
  image_above = omega (arith, text_placed, rodata_placed, data_placed, bss_placed, sizes)

  pub link-IsHeap : IsHeap (link s)
  link-IsHeap = record {
    start = omega (arith, image_above, sizes);
    room = omega (arith, ok.room, sizes);
    fits = omega (arith, ok.room, sizes);
  }

Separate-widen :
    (lo hi lo' hi' : ℕ) (gs : List Grant)
    → lo' ≤ lo
    → hi ≤ hi'
    → Separate lo hi gs
    → Separate lo' hi' gs
Separate-widen lo hi lo' hi' [] below above p = tt
Separate-widen lo hi lo' hi' (g ∷ gs) below above p =
    (omega (arith, p.0), omega (arith, p.1), p.2, Separate-widen lo hi lo' hi' gs below above p.3)

-- Callers that ask for no more pages than the pool has, and give back only what they hold, or NULL,
-- start from the heap that `page_init` makes of linked sections: after any such calls of `malloc` and
-- `free`, the pages that they hold lie behind the sections and the descriptors and before the end of
-- memory, and no page is granted twice. `free` has fuel for all pages. What is counted is the pages
-- that a request gets, which can be too few bytes for it.
pub grants_in_memory :
    (s : Sections) (h : Heap) (fuel : ℕ) (shop : Shop)
    → IsLinked s
    → (page_init (link s) h).1.num_pages ≤ fuel
    → Reach fuel (record { heap = (page_init (link s) h).1; live = [] }) shop
    → Separate ((link s).bss_end + (page_init (link s) h).1.num_pages) memory_end shop.live
grants_in_memory s h fuel shop ok enough r =
    let made : Heap = (page_init (link s) h).1 in
    let good = link-IsHeap s ok in
    let op : IsOpen (record { heap = made; live = [] }) = record {
      empty = page_init-Represents (link s) h good;
      no_grant = refl;
    } in
    let pages = num_pages-page_init (link s) h good in
    let small : (link s).heap_size ≤ 2 ^ 27 = omega (arith, image_above s ok, sizes s ok) in
    let low = page_init_inside (link s) h good 0 0 (omega (arith, good.room)) small in
    let high =
      page_init_inside (link s) h good (made.num_pages - 1) 0 (omega (arith, good.room)) small in
    Separate-widen _ _ _ _ shop.live (omega (arith, low, sizes s ok))
      (omega (arith, high, sizes s ok, ok.room)) (grants_apart op enough r)
