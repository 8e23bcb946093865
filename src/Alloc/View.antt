-- ===== src/Alloc/View.antt =====
-- The allocator of 10-SystemCall/src/alloc.c as its callers see it: blocks without an order.
pub mod Order
use mini_riscv_os.Common.{
  ℕ, zero, suc, ◌+◌, ◌-◌, ◌*◌, ◌/◌, ◌≤◌, ◌<◌, ◌≡◌, ◌≢◌, refl, sym, ap, ◌∙◌, subst, Bool, true,
  false, Option, none, some, List, [], ◌∷◌, ◌++◌, ◌==◌, if◌then◌else◌, arith, Bool-cases, inl, inr,
  ne→==,
}
use mathlib.Core.Logic.{∥∥₁_elim}
use mathlib.Core.Quot
use mathlib.Core.Quot.{Quot, Quot-set}
use native.Mathlib.Nat.{ℕ_set}
use mini_riscv_os.Alloc.{Heap, page_size, page_num, null, malloc, free}
use mini_riscv_os.Alloc.Blocks.{Block, Represents}
use mini_riscv_os.Alloc.Malloc.{refused, allocated, malloc-Allocates}
use mini_riscv_os.Alloc.Free.{Represents-front, free-Represents}
use mini_riscv_os.Alloc.Unique.{blocks_determined}

abbrev pub is_block : Block → Block → Bool
is_block (i, n) (k, m) = if i == k then n == m else false

-- How often a block is in a list.
unfoldable pub count : Block → List Block → ℕ
count b [] = 0
count b (c ∷ cs) = (if is_block c b then 1 else 0) + count b cs

abbrev pub SameBlocks : List Block → List Block → Type 0
SameBlocks bs cs = (b : Block) → count b bs ≡ count b cs

-- The blocks in use, in no order.
abbrev pub Pool : Type 0
Pool = Quot SameBlocks

abbrev pub of_list : List Block → Pool
of_list = Quot.mk

-- The pool that the descriptors of a heap show: that of any list that they represent.
abbrev pub Shows : Heap → Pool → Type 0
Shows h q = ∥ ((bs : List Block) × Represents h bs × (of_list bs ≡ q)) ∥₁

unfoldable pub times : Block → Pool → ℕ
times b = Quot.lift ℕ_set (count b) (λ bs cs h. h b)

pub SameBlocks-cons :
    (b : Block) (bs cs : List Block) → SameBlocks bs cs → SameBlocks (b ∷ bs) (b ∷ cs)
unfolding count
SameBlocks-cons b bs cs h c = omega (arith, h c)

unfoldable pub put : Block → Pool → Pool
put b =
    Quot.lift Quot-set (λ bs. of_list (b ∷ bs)) (λ bs cs h. Quot.sound (SameBlocks-cons b bs cs h))

exact : {bs cs : List Block} → of_list bs ≡ of_list cs → SameBlocks bs cs
unfolding times
exact e b = ap (times b) e

-- A block that stands somewhere in a list might stand in front.
count-middle :
    (b c : Block) (xs ys : List Block) → count c (xs ++ b ∷ ys) ≡ count c (b ∷ (xs ++ ys))
unfolding count
count-middle b c [] ys = refl
count-middle b c (x ∷ xs) ys = omega (arith, count-middle b c xs ys)

not_empty : (b : Block) (xs ys : List Block) → [] ≢ xs ++ b ∷ ys
not_empty b [] ys e = cc
not_empty b (x ∷ xs) ys e = cc

module _ {h : Heap} (k n : ℕ) (xs ys xs' ys' : List Block) (r : Represents h (xs ++ (k, n) ∷ ys))
    (r' : Represents h (xs' ++ (k, n) ∷ ys')) where
  -- Without a block that both have, two lists are those of one heap again.
  both_without : (h' : Heap) × Represents h' (xs ++ ys) × Represents h' (xs' ++ ys')
  both_without =
      let (h1, e1, r1) = free-Represents xs ys k n n r (omega arith) in
      let (h2, e2, r2) = free-Represents xs' ys' k n n r' (omega arith) in
      let one : h1 ≡ h2 = cc in
      (h1, r1, subst (λ (x : Heap). Represents x (xs' ++ ys')) (sym one) r2)

-- Any two lists that the descriptors represent have the same blocks.
Represents-SameBlocks :
    (bs cs : List Block) {h : Heap} → Represents h bs → Represents h cs → SameBlocks bs cs
unfolding count
Represents-SameBlocks [] [] r r' b = refl
Represents-SameBlocks [] ((k, n) ∷ cs) r r' b =
    let (xs', ys', e) = blocks_determined [] cs [] k n r' r in absurd (not_empty (k, n) xs' ys' e)
Represents-SameBlocks ((k, n) ∷ bs) cs {h} r r' b =
    let (xs', ys', e) = blocks_determined [] bs cs k n r r' in
    let (h', r1, r2) = both_without k n [] bs xs' ys' r (subst (Represents h) e r') in
    let rest = Represents-SameBlocks bs (xs' ++ ys') r1 r2 b in
    omega (arith, rest, ap (count b) e, count-middle (k, n) b xs' ys')

-- Two pools that the descriptors of one heap show are equal: the descriptors determine the blocks in
-- use, up to their order.
pub pool_unique : {h : Heap} {q q' : Pool} → Shows h q → Shows h q' → q ≡ q'
pool_unique {h} {q} {q'} s s' = ∥∥₁_elim s (Quot-set q q') (λ p.
    ∥∥₁_elim s' (Quot-set q q')
      (λ p'. sym p.2 ∙ Quot.sound (Represents-SameBlocks p.0 p'.0 p.1 p'.1) ∙ p'.2))

-- The first page of the block at an address.
abbrev pub page_of : Heap → ℕ → ℕ
page_of h p = (p - h.alloc_start) / page_size

-- What `malloc` does to the pool: nothing when it gives NULL, and otherwise one more block, the one
-- at the address that it gives, of as many pages as the request needs. The request needs no more
-- pages than there are.
pub malloc-Shows :
    {h : Heap} {q : Pool} (size : ℕ)
    → Shows h q
    → page_num size ≤ h.num_pages
    → Shows (malloc size h).1 (
        if (malloc size h).0 == null then q else put (page_of h (malloc size h).0, page_num size) q)
unfolding put
malloc-Shows {h} {q} size s room = ∥∥₁_elim s (hlevel) (λ p. elim (malloc-Allocates size p.1 room) [
  | refused out none_left ↦ rw out s
  | allocated k low run least address rep ↦
      let got : ((malloc size h).0 == null) ≡ false =
        ne→== (malloc size h).0 null (omega (arith, address, Represents.pool p.1)) in
      let page : page_of h (malloc size h).0 ≡ k = omega (arith, address) in
      rw (got, page) (∣ ((k, page_num size) ∷ p.0, rep, ap (put (k, page_num size)) p.2) ∣₁)
])

same_block : (b c : Block) → is_block b c ≡ true → b ≡ c
same_block (i, n) (k, m) e =
    let first : i ≡ k = ground arith in let size : n ≡ m = ground arith in λ t. (first t, size t)

-- A block that is counted stands somewhere.
count_find :
    (b : Block) (bs : List Block)
    → 0 < count b bs
    → (xs : List Block) × (ys : List Block) × (bs ≡ xs ++ b ∷ ys)
unfolding count
count_find b [] lt = absurd (omega arith)
count_find b (c ∷ cs) lt = elim (Bool-cases (is_block c b)) [
  | inl here ↦ ([], cs, ap (λ (x : Block). x ∷ cs) (same_block c b here))
  | inr other ↦
      let (xs, ys, e) = count_find b cs (ground arith) in
      (c ∷ xs, ys, ap (λ (l : List Block). c ∷ l) e)
]

module _ (k n fuel : ℕ) (enough : n ≤ fuel) where
  abbrev GivesBack : Heap → Pool → Type 0
  GivesBack h q = (h' : Heap) × (free fuel (h.alloc_start + page_size * k) h ≡ some h') × Shows h' q

  ends_somewhere : {h : Heap} (q : Pool) → Shows h (put (k, n) q) → ∥ GivesBack h q ∥₁
  unfolding put count
  ends_somewhere {h} =
      Quot.ind (λ q. hlevel)
        (λ cs s. ∥∥₁_elim s (hlevel) (λ p.
          let (bs, r, e) = p in
          let same : SameBlocks bs ((k, n) ∷ cs) = exact e in
          let (xs, ys, found) = count_find (k, n) bs (ground (arith, same (k, n))) in
          let (h', run, rest) =
            free-Represents xs ys k n fuel (subst (Represents h) found r) enough in
          ∣ (
            h',
            run,
            ∣ (
              xs ++ ys,
              rest,
              Quot.sound
                  (λ b. omega (arith, same b, ap (count b) found, count-middle (k, n) b xs ys)),
            ) ∣₁,
          ) ∣₁))

  -- What `free` does to the pool: at the address of a block's first page it ends, given fuel for the
  -- block's pages, and takes the block out, wherever it stands.
  pub free-Shows :
      {h : Heap} {q : Pool}
      → Shows h (put (k, n) q)
      → (h' : Heap) × (free fuel (h.alloc_start + page_size * k) h ≡ some h') × Shows h' q
  free-Shows {h} {q} s = go (free fuel (h.alloc_start + page_size * k) h) refl
    where
      go : (o : Option Heap) → free fuel (h.alloc_start + page_size * k) h ≡ o → GivesBack h q
      go none e = absurd (∥∥₁_elim (ends_somewhere q s) (hlevel) (λ p. cc))
      go (some h') e = (
        h',
        e,
        ∥∥₁_elim (ends_somewhere q s) (hlevel)
            (λ p. let one : p.0 ≡ h' = cc in subst (λ (x : Heap). Shows x q) one p.2),
      )
