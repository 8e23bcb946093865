-- ===== src/Alloc/Blocks.antt =====
-- The abstract view of the allocator: a list of blocks, each a first page and a number of pages,
-- and what it means for the descriptors to represent such a list.
use mini_riscv_os.Common.{
  ℕ, ◌+◌, ◌*◌, ◌^◌, ◌≤◌, ◌<◌, ◌≡◌, refl, ◌⊎◌, inl, true, List, [], ◌∷◌, ◌++◌, ◌==◌, if◌then◌else◌,
  arith, max,
}
use mini_riscv_os.Alloc.{Heap, page_size}
use mini_riscv_os.Alloc.Descriptors.{inside}

abbrev pub Block : Type 0
Block = ℕ × ℕ

-- The flags of a page: 0 if it is in no block, 3 on the last page of a block, 1 on the others.
abbrev pub flag_of : List Block → ℕ → ℕ
flag_of [] j = 0
flag_of ((i, n) ∷ bs) j = if inside i n j then if j + 1 == i + n then 3 else 1 else flag_of bs j

abbrev pub Apart : Block → List Block → Type 0
Apart (i, n) [] = Unit {0}
Apart (i, n) ((k, m) ∷ bs) = ((i + n ≤ k) ⊎ (k + m ≤ i)) × Apart (i, n) bs

-- Blocks are not empty, lie below `total` and do not meet.
abbrev pub IsLayout : ℕ → List Block → Type 0
IsLayout total [] = Unit {0}
IsLayout total ((i, n) ∷ bs) = (0 < n) × (i + n ≤ total) × Apart (i, n) bs × IsLayout total bs

-- The heap is sound, and its descriptors are those of the blocks.
pub record Represents (h : Heap) (bs : List Block) : Type 0 where
  pub pool : 0 < h.alloc_start
  pub end : h.alloc_end ≡ h.alloc_start + page_size * h.num_pages
  pub fits : h.alloc_end < 2 ^ 32
  pub layout : IsLayout h.num_pages bs
  pub flags : (j : ℕ) → j < h.num_pages → h.page j ≡ flag_of bs j

-- Every flag is 0, 1 or 3.
pub flag_of-cases :
    (bs : List Block) (j : ℕ) → (flag_of bs j ≡ 0) ⊎ ((flag_of bs j ≡ 1) ⊎ (flag_of bs j ≡ 3))
flag_of-cases [] j = inl refl
flag_of-cases ((i, n) ∷ bs) j = ground (arith, flag_of-cases bs j)

-- A page of a block that is apart from the others is in none of them.
pub flag_of-Apart :
    (i n : ℕ) (bs : List Block) (j : ℕ) → Apart (i, n) bs → inside i n j ≡ true → flag_of bs j ≡ 0
flag_of-Apart i n [] j a e = refl
flag_of-Apart i n ((k, m) ∷ bs) j a e = ground (arith, flag_of-Apart i n bs j a.1 e)

-- A run whose pages are in no block is apart from every block.
pub Apart-intro :
    (i n total : ℕ) (bs : List Block)
    → 0 < n
    → IsLayout total bs
    → ((j : ℕ) → i ≤ j → j < i + n → flag_of bs j ≡ 0)
    → Apart (i, n) bs
Apart-intro i n total [] pos l free = tt
Apart-intro i n total ((k, m) ∷ bs) pos l free = (
  ground (arith, free (max i k)),
  Apart-intro i n total bs pos l.3 (λ j lo hi. ground (arith, free j lo hi)),
)

-- The order of the blocks does not matter: any of them may stand first.
module _ (k m : ℕ) where
  abbrev Clear : Block → Type 0
  Clear (i, n) = (i + n ≤ k) ⊎ (k + m ≤ i)

  Apart-drop :
      (i n : ℕ) (xs ys : List Block)
      → Apart (i, n) (xs ++ (k, m) ∷ ys)
      → Clear (i, n) × Apart (i, n) (xs ++ ys)
  Apart-drop i n [] ys a = a
  Apart-drop i n (c ∷ xs) ys a =
      let rest : Clear (i, n) × Apart (i, n) (xs ++ ys) = Apart-drop i n xs ys a.1 in
      (rest.0, (a.0, rest.1))

  pub IsLayout-front :
      (total : ℕ) (xs ys : List Block)
      → IsLayout total (xs ++ (k, m) ∷ ys)
      → IsLayout total ((k, m) ∷ (xs ++ ys))
  IsLayout-front total [] ys l = l
  IsLayout-front total ((i, n) ∷ xs) ys l =
      let rest : IsLayout total ((k, m) ∷ (xs ++ ys)) = IsLayout-front total xs ys l.3 in
      let a : Clear (i, n) × Apart (i, n) (xs ++ ys) = Apart-drop i n xs ys l.2 in
      (rest.0, rest.1, (ground arith, rest.2), (l.0, l.1, a.1, rest.3))

  pub flag_of-front :
      (total : ℕ) (xs ys : List Block) (j : ℕ)
      → IsLayout total (xs ++ (k, m) ∷ ys)
      → flag_of (xs ++ (k, m) ∷ ys) j ≡ flag_of ((k, m) ∷ (xs ++ ys)) j
  flag_of-front total [] ys j l = refl
  flag_of-front total ((i, n) ∷ xs) ys j l =
      ground (arith, flag_of-front total xs ys j l.3, Apart-drop i n xs ys l.2)
