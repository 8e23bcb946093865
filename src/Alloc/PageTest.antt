-- ===== src/Alloc/PageTest.antt =====
-- What page_test of 10-SystemCall/src/alloc.c prints, and what it leaves behind.
use mini_riscv_os.Common.{
  ℕ, ◌+◌, ◌*◌, ◌≤◌, ◌<◌, ◌≡◌, inl, inr, refl, sym, ap, ◌∙◌, subst, Option, none, some, List, [],
  ◌∷◌, arith, Bool-cases, ltb,
}
use mini_riscv_os.Console.{Call, printf, int}
use mini_riscv_os.Alloc.{Heap, page_size, page_num, malloc, free}
use mini_riscv_os.Alloc.Blocks.{Block, Represents}
use mini_riscv_os.Alloc.Malloc.{FreeRun, refused, allocated, malloc-Allocates}
use mini_riscv_os.Alloc.Free.{free-Represents, alloc_start-free}
use mini_riscv_os.Alloc.Check.{free_each, page_test, alloc_start-malloc, num_pages-malloc}

first_unique :
    {P : ℕ → Type 0} {k k' : ℕ}
    → ((j : ℕ) → j < k → ¬ P j)
    → P k
    → ((j : ℕ) → j < k' → ¬ P j)
    → P k'
    → k' ≡ k
first_unique {k = k} {k'} least here least' here' = elim (Bool-cases (ltb k' k)) [
  | inl below ↦ absurd (least k' (ground arith) here')
  | inr not_below ↦ elim (Bool-cases (ltb k k')) [
    | inl above ↦ absurd (least' k (ground arith) here)
    | inr not_above ↦ ground arith
  ]
]

-- `malloc` gives the run of pages from `k` on, if it is the first free one.
malloc_first :
    {h : Heap} {bs : List Block} (size k : ℕ)
    → Represents h bs
    → k + page_num size < h.num_pages
    → FreeRun bs (page_num size) k
    → ((j : ℕ) → j < k → ¬ FreeRun bs (page_num size) j)
    → ((malloc size h).0 ≡ h.alloc_start + page_size * k)
      × Represents (malloc size h).1 ((k, page_num size) ∷ bs)
malloc_first {h} {bs} size k r low run least = elim (malloc-Allocates size r (omega arith)) [
  | refused out none_left ↦ absurd (none_left k low run)
  | allocated k' low' run' least' address rep ↦
      let same : k' ≡ k = first_unique least run least' run' in
      (
        address ∙ ap (λ (x : ℕ). h.alloc_start + page_size * x) same,
        subst (λ (x : ℕ). Represents (malloc size h).1 ((x, page_num size) ∷ bs)) same rep,
      )
]

pub free_each_step :
    (fuel p : ℕ) (ps : List ℕ) (h : Heap) {h' : Heap}
    → free fuel p h ≡ some h'
    → free_each fuel (p ∷ ps) h ≡ free_each fuel ps h'
unfolding free_each
free_each_step fuel p ps h e = ap (λ o. elim o [ none ↦ none | some h' ↦ free_each fuel ps h' ]) e

-- Three blocks in a row are given back in the order of their addresses.
three_given_back :
    {h : Heap} (fuel : ℕ)
    → Represents h ((6, 1) ∷ (4, 2) ∷ (0, 4) ∷ [])
    → 4 ≤ fuel
    → (h' : Heap) × (free_each fuel
          (h.alloc_start ∷ (h.alloc_start + 1024) ∷ (h.alloc_start + 1536) ∷ [])
          h
        ≡ some h')
      × Represents h' []
unfolding free_each
three_given_back {h} fuel r enough =
    let p2 : ℕ = h.alloc_start + 1024 in
    let p3 : ℕ = h.alloc_start + 1536 in
    let (h1, run1, r1) = free-Represents ((6, 1) ∷ (4, 2) ∷ []) [] 0 4 fuel r enough in
    let start1 : h1.alloc_start ≡ h.alloc_start = alloc_start-free fuel _ h run1 in
    let (h2, run2, r2) = free-Represents ((6, 1) ∷ []) [] 4 2 fuel r1 (omega arith) in
    let start2 : h2.alloc_start ≡ h.alloc_start = alloc_start-free fuel _ h1 run2 ∙ start1 in
    let (h3, run3, r3) = free-Represents [] [] 6 1 fuel r2 (omega arith) in
    let f1 : free fuel h.alloc_start h ≡ some h1 =
      ap (λ (x : ℕ). free fuel x h) (omega arith) ∙ run1 in
    let f2 : free fuel p2 h1 ≡ some h2 =
      ap (λ (x : ℕ). free fuel x h1) (omega (arith, start1)) ∙ run2 in
    let f3 : free fuel p3 h2 ≡ some h3 =
      ap (λ (x : ℕ). free fuel x h2) (omega (arith, start2)) ∙ run3 in
    (
      h3,
      free_each_step fuel h.alloc_start (p2 ∷ p3 ∷ []) h f1
          ∙ free_each_step fuel p2 (p3 ∷ []) h1 f2
          ∙ free_each_step fuel p3 [] h2 f3,
      r3,
    )

abbrev pub page_lines : ℕ → List Call
page_lines start =
    printf "p = 0x%x\n" (int start ∷ [])
    ∷ printf "p2 = 0x%x\n" (int (start + 1024) ∷ [])
    ∷ printf "p3 = 0x%x\n" (int (start + 1536) ∷ [])
    ∷ []

-- On a heap of at least eight pages, none of them in use, page_test prints the first page, the fifth
-- and the seventh, gives all back, and leaves a heap with no page in use.
pub page_test_lem :
    {h : Heap} (fuel : ℕ)
    → Represents h []
    → 8 ≤ h.num_pages
    → 4 ≤ fuel
    → (h' : Heap) × (page_test fuel h ≡ (page_lines h.alloc_start, some h')) × Represents h' []
unfolding page_test
page_test_lem {h} fuel r room enough =
    let h1 : Heap = (malloc 1024 h).1 in
    let h2 : Heap = (malloc 512 h1).1 in
    let h3 : Heap = (malloc 4 h2).1 in
    let pages1 : h1.num_pages ≡ h.num_pages = num_pages-malloc 1024 h in
    let pages2 : h2.num_pages ≡ h.num_pages = num_pages-malloc 512 h1 ∙ pages1 in
    let start1 : h1.alloc_start ≡ h.alloc_start = alloc_start-malloc 1024 h in
    let start2 : h2.alloc_start ≡ h.alloc_start = alloc_start-malloc 512 h1 ∙ start1 in
    let start3 : h3.alloc_start ≡ h.alloc_start = alloc_start-malloc 4 h2 ∙ start2 in
    let (p1, r1) =
      malloc_first 1024 0 r (omega arith) (λ j lo hi. refl) (λ j lt. absurd (omega arith)) in
    let (p2, r2) =
      malloc_first 512 4 r1 (omega (arith, pages1)) (λ j lo hi. ground arith)
        (λ j lt f. absurd (ground (arith, f j (omega arith) (omega arith)))) in
    let (p3, r3) =
      malloc_first 4 6 r2 (omega (arith, pages2)) (λ j lo hi. ground arith)
        (λ j lt f. absurd (ground (arith, f j (omega arith) (omega arith)))) in
    let a1 : (malloc 1024 h).0 ≡ h.alloc_start = omega (arith, p1) in
    let a2 : (malloc 512 h1).0 ≡ h.alloc_start + 1024 = omega (arith, p2, start1) in
    let a3 : (malloc 4 h2).0 ≡ h.alloc_start + 1536 = omega (arith, p3, start2) in
    let (h', back, rest) = three_given_back fuel r3 enough in
    (
      h',
      rw (a1, a2, a3)
          (ap (λ (o : Option Heap). (page_lines h.alloc_start, o))
            (ap (λ (x : ℕ). free_each fuel (x ∷ (x + 1024) ∷ (x + 1536) ∷ []) h3) (sym start3)
              ∙ back)),
      rest,
    )
