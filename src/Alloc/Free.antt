-- ===== src/Alloc/Free.antt =====
-- `free` clears the descriptors of one block, and so takes it out of the layout.
use mini_riscv_os.Common.{
  refl, inl, inr, sym, ap, ◌∙◌, Bool-cases, Option, none, ℕ, zero, suc, ◌+◌, ◌*◌, ◌/◌, ◌≤◌, ◌<◌,
  ◌≡◌, ◌⊎◌, false, some, List, ◌∷◌, ◌++◌, if◌then◌else◌, arith, sub32, ◌==◌, update, leb, ◌||◌,
}
use mini_riscv_os.Alloc.{set_page, Heap, page_size, null, clear, is_free, is_last, free_loop, free}
use mini_riscv_os.Alloc.Descriptors.{inside}
use mini_riscv_os.Alloc.Blocks.{
  Block, flag_of, Represents, flag_of-Apart, IsLayout-front, flag_of-front,
}

-- From a page of a block that ends `n` pages on, the loop clears those `n` pages, and stops.
free_loop_lem :
    (n fuel i : ℕ) (page : ℕ → ℕ)
    → n < fuel
    → ((j : ℕ) → i ≤ j → j < i + n → page j ≡ 1)
    → page (i + n) ≡ 3
    → (page' : ℕ → ℕ) × (free_loop fuel i page ≡ some page')
      × ((j : ℕ) → page' j ≡ (if inside i (suc n) j then 0 else page j))
unfolding free_loop clear is_free is_last
free_loop_lem n zero i page lt body last = absurd (omega arith)
free_loop_lem zero (suc fuel) i page lt body last =
    let e : page i ≡ 3 = ground arith in (update page i 0, rw e, λ j. ground arith)
free_loop_lem (suc n) (suc fuel) i page lt body last =
    let e : page i ≡ 1 = body i (omega arith) (omega arith) in
    let (page', run, all) =
      free_loop_lem n fuel (i + 1) (update page i 0) (omega arith)
        (λ j lo hi. ground (arith, body j (omega arith) (omega arith))) (ground arith) in
    (page', rw e run, λ j. ground (arith, all j))

front_body :
    (k n : ℕ) (bs : List Block) (j : ℕ) → k ≤ j → j < k + n → flag_of ((k, suc n) ∷ bs) j ≡ 1
front_body k n bs j lo hi = ground arith

front_end : (k n : ℕ) (bs : List Block) → flag_of ((k, suc n) ∷ bs) (k + n) ≡ 3
front_end k n bs = ground arith

guard_lem : (a b : ℕ) → 0 < a → a < b → (a == null || leb b a) ≡ false
guard_lem a b pos lt = ground arith

module _ {h : Heap} {k n : ℕ} {bs : List Block} (r : Represents h ((k, suc n) ∷ bs)) where
  pub block_body : (j : ℕ) → k ≤ j → j < k + n → h.page j ≡ 1
  block_body j lo hi = r.flags j (omega (arith, r.layout.1)) ∙ front_body k n bs j lo hi

  pub block_end : h.page (k + n) ≡ 3
  block_end = r.flags (k + n) (omega (arith, r.layout.1)) ∙ front_end k n bs

  index_lem : sub32 (h.alloc_start + page_size * k) h.alloc_start / page_size ≡ k
  index_lem = omega (arith, r.fits, r.end, r.layout.1)

  guarded :
      (h.alloc_start + page_size * k == null || leb h.alloc_end (h.alloc_start + page_size * k))
      ≡ false
  guarded =
      guard_lem (h.alloc_start + page_size * k) h.alloc_end (omega (arith, r.pool))
        (omega (arith, r.end, r.layout.1))

  cleared_flag :
      (j : ℕ) → j < h.num_pages → (if inside k (suc n) j then 0 else h.page j) ≡ flag_of bs j
  cleared_flag j lt = ground (arith, r.flags j lt, flag_of-Apart k (suc n) bs j r.layout.2)

  -- Freeing the first block.
  free_front :
      (fuel : ℕ)
      → n < fuel
      → (h' : Heap) × (free fuel (h.alloc_start + page_size * k) h ≡ some h') × Represents h' bs
  unfolding free
  free_front fuel lt =
      let (page', run, all) = free_loop_lem n fuel k h.page lt block_body block_end in
      (
        record h { page = page' },
        rw (guarded, index_lem, run),
        record {
          pool = r.pool;
          end = r.end;
          fits = r.fits;
          layout = r.layout.3;
          flags = λ j below. all j ∙ cleared_flag j below;
        },
      )

pub Represents-front :
    {h : Heap} (xs ys : List Block) {k n : ℕ}
    → Represents h (xs ++ (k, n) ∷ ys)
    → Represents h ((k, n) ∷ (xs ++ ys))
Represents-front {h} xs ys {k} {n} r = record {
  pool = r.pool;
  end = r.end;
  fits = r.fits;
  layout = IsLayout-front k n h.num_pages xs ys r.layout;
  flags = λ j lt. r.flags j lt ∙ flag_of-front k n h.num_pages xs ys j r.layout;
}

-- On a heap that represents blocks, `free` at the address of a block's first page ends, given fuel
-- for its pages, and the heap it leaves represents the other blocks.
pub free-Represents :
    {h : Heap} (xs ys : List Block) (k n fuel : ℕ)
    → Represents h (xs ++ (k, n) ∷ ys)
    → n ≤ fuel
    → (h' : Heap) × (free fuel (h.alloc_start + page_size * k) h ≡ some h')
      × Represents h' (xs ++ ys)
free-Represents xs ys k zero fuel r le = absurd (omega (arith, (Represents-front xs ys r).layout.0))
free-Represents xs ys k (suc n) fuel r le = free_front (Represents-front xs ys r) fuel (omega arith)

-- `free` of NULL, and of an address from the end of the pool on, changes nothing.
pub free_outside : (h : Heap) (p fuel : ℕ) → (p ≡ null) ⊎ (h.alloc_end ≤ p) → free fuel p h ≡ some h
unfolding free
free_outside h p fuel out = ground arith

-- What does not depend on the descriptors, `free` keeps.
module _ {A : Type 0} (view : Heap → A)
    (same : (h : Heap) (page : ℕ → ℕ) → view (record h { page = page }) ≡ view h) where
  -- The view of the heap that `free` gives, and `before` if it gives none.
  abbrev view_after : A → Option Heap → A
  view_after before none = before
  view_after before (some h) = view h

  view_after-set_page :
      (h : Heap) (page : Option (ℕ → ℕ)) → view_after (view h) (set_page h page) ≡ view h
  unfolding set_page
  view_after-set_page h none = refl
  view_after-set_page h (some page) = same h page

  pub view-free : (fuel p : ℕ) (h : Heap) {h' : Heap} → free fuel p h ≡ some h' → view h' ≡ view h
  unfolding free
  view-free fuel p h e = sym (ap (view_after (view h)) e) ∙ view_after-free
    where
      view_after-free : view_after (view h) (free fuel p h) ≡ view h
      view_after-free = elim (Bool-cases (p == null || leb h.alloc_end p)) [
        | inl outside ↦ rw (free, outside) refl
        | inr inside ↦ rw (free, inside) (view_after-set_page h _)
      ]

pub alloc_start-free :
    (fuel p : ℕ) (h : Heap) {h' : Heap} → free fuel p h ≡ some h' → h'.alloc_start ≡ h.alloc_start
alloc_start-free = view-free (λ h. h.alloc_start) (λ h page. refl)

pub num_pages-free :
    (fuel p : ℕ) (h : Heap) {h' : Heap} → free fuel p h ≡ some h' → h'.num_pages ≡ h.num_pages
num_pages-free = view-free (λ h. h.num_pages) (λ h page. refl)
