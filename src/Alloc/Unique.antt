-- ===== src/Alloc/Unique.antt =====
-- The descriptors of 10-SystemCall/src/alloc.c say which blocks there are.
use mini_riscv_os.Common.{
  ℕ, zero, suc, ◌+◌, ◌-◌, ◌≤◌, ◌<◌, ◌≡◌, ◌≢◌, ◌⊎◌, refl, sym, ap, ◌∙◌, subst, inl, inr, List, [],
  ◌∷◌, ◌++◌, arith, Bool-cases, ltb, ltb→lt, true,
}
use mini_riscv_os.Alloc.{Heap}
use mini_riscv_os.Alloc.Descriptors.{inside}
use mini_riscv_os.Alloc.Blocks.{Block, flag_of, Represents, flag_of-Apart}
use mini_riscv_os.Alloc.Free.{Represents-front, block_body, block_end}

-- The block that a page in use belongs to.
record Belongs (bs : List Block) (j : ℕ) : Type 0 where
  i : ℕ
  m : ℕ
  xs : List Block
  ys : List Block
  split : bs ≡ xs ++ (i, m) ∷ ys
  from : i ≤ j
  before : j < i + m

find_owner : (bs : List Block) (j : ℕ) → flag_of bs j ≢ 0 → Belongs bs j
find_owner [] j ne = absurd (ne refl)
find_owner ((i, m) ∷ bs) j ne = elim (Bool-cases (inside i m j)) [
  | inl e ↦ record {
    i = i;
    m = m;
    xs = [];
    ys = bs;
    split = refl;
    from = ground arith;
    before = ground arith;
  }
  | inr e ↦
      let o = find_owner bs j (λ z. ne (ground arith)) in
      record {
        i = o.i;
        m = o.m;
        xs = (i, m) ∷ o.xs;
        ys = o.ys;
        split = ap (λ (l : List Block). (i, m) ∷ l) o.split;
        from = o.from;
        before = o.before;
      }
]

-- Behind a page of a block that is not its last there is another.
flag_next : (bs : List Block) (j : ℕ) → flag_of bs j ≡ 1 → flag_of bs (j + 1) ≢ 0
flag_next [] j e z = cc
flag_next ((i, m) ∷ bs) j e z = ground (arith, flag_next bs j)

inside_start : (k n : ℕ) → inside k (suc n) k ≡ true
inside_start k n = ground arith

order_cases : (a b : ℕ) → (a < b) ⊎ (b ≤ a)
order_cases a b = elim (Bool-cases (ltb a b)) [
  | inl e ↦ inl (ltb→lt a b e)
  | inr e ↦ inr (ground arith)
]

flag_below :
    (k n : ℕ) (bs : List Block) (j : ℕ) → j < k → flag_of ((k, suc n) ∷ bs) j ≡ flag_of bs j
flag_below k n bs j lt = ground arith

module _ {h : Heap} {k n : ℕ} {bs : List Block} (r : Represents h ((k, suc n) ∷ bs)) where
  -- The page in front of a block is no page of a block that goes on.
  front_lem : 0 < k → h.page (k - 1) ≢ 1
  front_lem pos e =
      let flag : flag_of bs (k - 1) ≡ 1 =
        sym (flag_below k n bs (k - 1) (omega arith))
        ∙ sym (r.flags (k - 1) (omega (arith, r.layout.1)))
        ∙ e in
      let next : k - 1 + 1 ≡ k = omega arith in
      flag_next bs (k - 1) flag
        (ap (flag_of bs) next ∙ flag_of-Apart k (suc n) bs k r.layout.2 (inside_start k n))

  -- Its first page is in use.
  used_lem : h.page k ≢ 0
  used_lem z = elim (order_cases 0 n) [
    | inl lt ↦ absurd (omega (arith, block_body r k (omega arith) (omega arith)))
    | inr le ↦
        let last : k + n ≡ k = omega arith in absurd (omega (arith, ap h.page last, block_end r))
  ]

  module _ {i m : ℕ} {cs : List Block} (r' : Represents h ((i, suc m) ∷ cs)) where
    same_start : i ≤ k → k < i + suc m → i ≡ k
    same_start from before = elim (order_cases i k) [
      | inl lt ↦
          absurd (front_lem (omega arith) (block_body r' (k - 1) (omega arith) (omega arith)))
      | inr le ↦ omega arith
    ]

    same_end : i ≡ k → m ≡ n
    same_end e =
        let last : i + m ≡ k + m = omega arith in
        elim (order_cases m n) [
          | inl lt ↦
              let ends : h.page (k + m) ≡ 3 = ap h.page (sym last) ∙ block_end r' in
              absurd (omega (arith, ends, block_body r (k + m) (omega arith) (omega arith)))
          | inr le ↦ elim (order_cases n m) [
            | inl lt ↦
                absurd
                  (omega (arith, block_end r, block_body r' (k + n) (omega arith) (omega arith)))
            | inr ge ↦ omega arith
          ]
        ]

-- A block of a list that the descriptors of a heap represent is one of every other such list: the
-- descriptors determine the blocks, up to their order.
pub blocks_determined :
    {h : Heap} (xs ys cs : List Block) (k n : ℕ)
    → Represents h (xs ++ (k, n) ∷ ys)
    → Represents h cs
    → (xs' ys' : List Block) × (cs ≡ xs' ++ (k, n) ∷ ys')
blocks_determined xs ys cs k zero r r' = absurd (omega (arith, (Represents-front xs ys r).layout.0))
blocks_determined {h} xs ys cs k (suc n) r r' =
    let front = Represents-front xs ys r in
    let used : flag_of cs k ≢ 0 =
      λ z. used_lem front (r'.flags k (omega (arith, front.layout.1)) ∙ z) in
    let o = find_owner cs k used in go o.i o.m o.xs o.ys o.split o.from o.before
  where
    go :
        (i m : ℕ) (xs' ys' : List Block)
        → cs ≡ xs' ++ (i, m) ∷ ys'
        → i ≤ k
        → k < i + m
        → (xs' ys' : List Block) × (cs ≡ xs' ++ (k, suc n) ∷ ys')
    go i zero xs' ys' e from before = absurd (omega arith)
    go i (suc m) xs' ys' e from before =
        let one = Represents-front xs ys r in
        let other = Represents-front xs' ys' (subst (Represents h) e r') in
        let start : i ≡ k = same_start one other from before in
        let end : m ≡ n = same_end one other start in
        (xs', ys', e ∙ ap (λ (b : Block). xs' ++ b ∷ ys') (λ t. (start t, suc (end t))))
