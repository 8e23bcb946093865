-- ===== src/Alloc/Check.antt =====
-- Blocks that are handed out and given back: `malloc` and `free` in a row, and page_test of
-- 10-SystemCall/src/alloc.c.
use mini_riscv_os.Common.{
  ℕ, zero, suc, ◌+◌, ◌*◌, ◌≤◌, ◌≡◌, ◌≢◌, refl, sym, ap, ◌∙◌, subst, inl, inr, Bool-cases, Option,
  none, some, List, [], ◌∷◌, arith,
}
use mini_riscv_os.Console.{Call, printf, int}
use mini_riscv_os.Alloc.{
  Heap, page_size, page_num, null, is_free, run_is_free, malloc_loop, malloc, free,
}
use mini_riscv_os.Alloc.Blocks.{Block, Represents}
use mini_riscv_os.Alloc.Malloc.{refused, allocated, malloc-Allocates}
use mini_riscv_os.Alloc.Free.{free-Represents}

-- `free` of one address after the other.
unfoldable pub free_each : ℕ → List ℕ → Heap → Option Heap
free_each fuel [] h = some h
free_each fuel (p ∷ ps) h = elim (free fuel p h) [ none ↦ none | some h' ↦ free_each fuel ps h' ]

unfoldable pub page_test : ℕ → Heap → List Call × Option Heap
unfolding free_each
page_test fuel h =
    let (p, h1) = malloc 1024 h in
    let (p2, h2) = malloc 512 h1 in
    let (p3, h3) = malloc 4 h2 in
    (
      printf "p = 0x%x\n" (int p ∷ [])
          ∷ printf "p2 = 0x%x\n" (int p2 ∷ [])
          ∷ printf "p3 = 0x%x\n" (int p3 ∷ [])
          ∷ [],
      free_each fuel (p ∷ p2 ∷ p3 ∷ []) h3,
    )

-- What does not depend on the descriptors, `malloc` keeps.
module _ {A : Type 0} (view : Heap → A)
    (same : (h : Heap) (page : ℕ → ℕ) → view (record h { page = page }) ≡ view h) where
  view-malloc_loop : (n rounds i : ℕ) (h : Heap) → view (malloc_loop n rounds i h).1 ≡ view h
  unfolding malloc_loop
  view-malloc_loop n zero i h = refl
  view-malloc_loop n (suc rounds) i h = elim (Bool-cases (is_free h.page i)) [
    | inr taken ↦ rw taken (view-malloc_loop n rounds (i + 1) h)
    | inl start ↦ elim (Bool-cases (run_is_free n i h.page)) [
      | inr short ↦ rw (start, short) (view-malloc_loop n rounds (i + 1) h)
      | inl run ↦ rw (start, run) (same h _)
    ]
  ]

  pub view-malloc : (size : ℕ) (h : Heap) → view (malloc size h).1 ≡ view h
  unfolding malloc
  view-malloc size h = view-malloc_loop _ _ 0 h

pub alloc_start-malloc : (size : ℕ) (h : Heap) → (malloc size h).1.alloc_start ≡ h.alloc_start
alloc_start-malloc = view-malloc (λ h. h.alloc_start) (λ h page. refl)

pub num_pages-malloc : (size : ℕ) (h : Heap) → (malloc size h).1.num_pages ≡ h.num_pages
num_pages-malloc = view-malloc (λ h. h.num_pages) (λ h page. refl)

-- What `malloc` hands out, if it is not NULL, `free` takes back: given fuel for its pages it ends,
-- and the heap represents the blocks that it represented before, if the request asks for no more
-- pages than there are.
pub malloc-free :
    {h : Heap} {bs : List Block} (size : ℕ)
    → Represents h bs
    → page_num size ≤ h.num_pages
    → (malloc size h).0 ≢ null
    → (h' : Heap) × (free (page_num size) (malloc size h).0 (malloc size h).1 ≡ some h')
      × Represents h' bs
malloc-free {h} {bs} size r room got = elim (malloc-Allocates size r room) [
  | refused out none_left ↦ absurd (got (ap (λ (o : ℕ × Heap). o.0) out))
  | allocated k low run least address rep ↦
      let n : ℕ = page_num size in
      let (h', ends, rest) = free-Represents [] bs k n n rep (omega arith) in
      let start : (malloc size h).1.alloc_start + page_size * k ≡ (malloc size h).0 =
        ap (λ (a : ℕ). a + page_size * k) (alloc_start-malloc size h) ∙ sym address in
      (h', subst (λ (p : ℕ). free n p (malloc size h).1 ≡ some h') start ends, rest)
]
