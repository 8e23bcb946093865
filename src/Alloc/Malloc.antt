-- ===== src/Alloc/Malloc.antt =====
-- `malloc` finds the first free run of pages, claims it, and so adds a block to the layout.
use mini_riscv_os.Common.{
  ℕ, zero, suc, ◌+◌, ◌-◌, ◌/◌, ◌*◌, ◌≤◌, ◌<◌, ◌≡◌, refl, ◌≢◌, ◌⊎◌, inl, inr, true, false, List, ◌∷◌,
  arith, Bool-cases, add32, mul32, sub32, eq_or_ne,
}
use mini_riscv_os.Alloc.{
  Heap, page_size, page_num, null, is_free, run_is_free, claim, malloc_loop, malloc,
}
use mini_riscv_os.Alloc.Descriptors.{
  inside, is_free-mod, claim_lem, run_is_free-all, run_is_free-intro, run_is_free-first,
}
use mini_riscv_os.Alloc.Blocks.{Block, flag_of, Represents, flag_of-cases, Apart-intro}

-- `k` is the first index from `i` on whose `n` pages are free.
pub record IsFirst (n i : ℕ) (page : ℕ → ℕ) (k : ℕ) : Type 0 where
  pub from : i ≤ k
  pub free : run_is_free n k page ≡ true
  pub least : (j : ℕ) → i ≤ j → j < k → run_is_free n j page ≡ false

-- The loop gives up, and then no run of the rounds is free; or it claims the first free run.
pub Search : ℕ → ℕ → ℕ → Heap → ℕ × Heap → Type 0
Search n rounds i h out =
    ((out ≡ (null, h)) × ((j : ℕ) → i ≤ j → j < i + rounds → run_is_free n j h.page ≡ false))
    ⊎ ((k : ℕ) × (k < i + rounds)
        × IsFirst n i h.page k
        × (out ≡ (add32 h.alloc_start (mul32 k page_size), record h { page = claim n k h.page })))

skip :
    (n rounds i : ℕ) (h : Heap) (out : ℕ × Heap)
    → run_is_free n i h.page ≡ false
    → Search n rounds (i + 1) h out
    → Search n (suc rounds) i h out
unfolding Search
skip n rounds i h out busy (inl (e, all)) = inl (
  e,
  λ j lo hi. elim (eq_or_ne i j) [
    | inl same ↦ ground arith
    | inr other ↦ all j (omega arith) (omega arith)
  ],
)
skip n rounds i h out busy (inr (k, lt, first, e)) = inr (
  k,
  omega arith,
  record {
    from = omega (arith, first.from);
    free = first.free;
    least = λ j lo hi. elim (eq_or_ne i j) [
      | inl same ↦ ground arith
      | inr other ↦ first.least j (omega arith) (omega arith)
    ];
  },
  e,
)

malloc_loop-Search :
    (n rounds i : ℕ) (h : Heap) → Search (suc n) rounds i h (malloc_loop (suc n) rounds i h)
unfolding malloc_loop
malloc_loop-Search n zero i h = unfold Search in inl (refl, λ j lo hi. absurd (omega arith))
malloc_loop-Search n (suc rounds) i h = elim (Bool-cases (is_free h.page i)) [
  | inr busy ↦ rw busy (
      skip (suc n) rounds i h _ (run_is_free-first n i h.page busy)
        (malloc_loop-Search n rounds (i + 1) h))
  | inl open_page ↦ rw open_page (elim (Bool-cases (run_is_free (suc n) i h.page)) [
    | inr short ↦ rw short (skip (suc n) rounds i h _ short (malloc_loop-Search n rounds (i + 1) h))
    | inl long ↦ rw long (
        unfold Search in
        inr (
          i,
          omega arith,
          record { from = omega arith; free = long; least = λ j lo hi. absurd (omega arith) },
          refl,
        ))
  ])
]

-- In a represented heap the free pages are those of no block.
module _ {h : Heap} {bs : List Block} (r : Represents h bs) (j : ℕ) (lt : j < h.num_pages) where
  pub flag_of-is_free : is_free h.page j ≡ true → flag_of bs j ≡ 0
  flag_of-is_free e = ground (arith, is_free-mod h.page j, r.flags j lt, flag_of-cases bs j)

  pub is_free_of_flag : flag_of bs j ≡ 0 → is_free h.page j ≡ true
  is_free_of_flag e = ground (arith, is_free-mod h.page j, r.flags j lt)

  -- A page in use is the last of its block, or not.
  pub is_free-false : flag_of bs j ≢ 0 → is_free h.page j ≡ false
  is_free-false e = ground (arith, is_free-mod h.page j, r.flags j lt, flag_of-cases bs j)

module _ {h : Heap} {bs : List Block} (r : Represents h bs) (n k : ℕ) where
  run_flags :
      k + n ≤ h.num_pages
      → run_is_free n k h.page ≡ true
      → (j : ℕ) → k ≤ j
      → j < k + n
      → flag_of bs j ≡ 0
  run_flags room free j lo hi =
      flag_of-is_free r j (omega arith) (run_is_free-all n k h.page free j lo hi)

  claim_flags :
      k + suc n ≤ h.num_pages
      → (j : ℕ) → j < h.num_pages
      → (inside k (suc n) j ≡ true → flag_of bs j ≡ 0)
      → claim (suc n) k h.page j ≡ flag_of ((k, suc n) ∷ bs) j
  claim_flags room j lt zero_flag = elim (Bool-cases (inside k (suc n) j)) [
    | inl in_run ↦ rw (claim_lem n k h.page j, r.flags j lt, zero_flag in_run) (ground arith)
    | inr out ↦ rw (claim_lem n k h.page j, r.flags j lt) (ground arith)
  ]

-- Claiming a free run adds a block.
claim-Represents :
    {h : Heap} {bs : List Block} (n k : ℕ)
    → Represents h bs
    → k + suc n ≤ h.num_pages
    → run_is_free (suc n) k h.page ≡ true
    → Represents (record h { page = claim (suc n) k h.page }) ((k, suc n) ∷ bs)
claim-Represents {h} {bs} n k r room free = record {
  pool = r.pool;
  end = r.end;
  fits = r.fits;
  layout = (
    omega arith,
    room,
    Apart-intro k (suc n) h.num_pages bs (omega arith) r.layout (run_flags r (suc n) k room free),
    r.layout,
  );
  flags = λ j lt.
      claim_flags r n k room j lt
        (λ e. run_flags r (suc n) k room free j (ground arith) (ground arith));
}

-- In a represented heap whose pages are as many as `malloc` looks for, the bound of its loop does
-- not wrap.
bound_lem :
    {h : Heap} {bs : List Block} (n : ℕ)
    → Represents h bs
    → n ≤ h.num_pages
    → sub32 h.num_pages n ≡ h.num_pages - n
bound_lem n r le = omega (arith, r.end, r.fits)

address_lem :
    {h : Heap} {bs : List Block} (k : ℕ)
    → Represents h bs
    → k < h.num_pages
    → add32 h.alloc_start (mul32 k page_size) ≡ h.alloc_start + page_size * k
address_lem k r lt = omega (arith, r.end, r.fits)

-- The `n` pages from `k` on are in no block.
abbrev pub FreeRun : List Block → ℕ → ℕ → Type 0
FreeRun bs n k = (j : ℕ) → k ≤ j → j < k + n → flag_of bs j ≡ 0

-- What `malloc` promises for `n` pages. Either it returns NULL, leaves the heap alone, and no free
-- run of `n` pages starts before page `num_pages - n`; or it returns the address of the first free
-- run, which lies below the last page, and the new heap represents the blocks with that run.
pub data Allocates (h : Heap) (bs : List Block) (n : ℕ) (out : ℕ × Heap) : Type 0 where
  refused :
      out ≡ (null, h) → ((j : ℕ) → j + n < h.num_pages → ¬ FreeRun bs n j) → Allocates h bs n out
  allocated :
      (k : ℕ)
      → k + n < h.num_pages
      → FreeRun bs n k
      → ((j : ℕ) → j < k → ¬ FreeRun bs n j)
      → out.0 ≡ h.alloc_start + page_size * k
      → Represents out.1 ((k, n) ∷ bs)
      → Allocates h bs n out

module _ {h : Heap} {bs : List Block} (r : Represents h bs) (n : ℕ) where
  not_free : (j : ℕ) → j + n ≤ h.num_pages → run_is_free n j h.page ≡ false → ¬ FreeRun bs n j
  not_free j room busy all =
      let long : run_is_free n j h.page ≡ true =
        run_is_free-intro n j h.page (λ m lo hi. is_free_of_flag r m (omega arith) (all m lo hi)) in
      cc

Search-Allocates :
    {h : Heap} {bs : List Block} (n : ℕ) {out : ℕ × Heap}
    → Represents h bs
    → suc n ≤ h.num_pages
    → Search (suc n) (h.num_pages - suc n) 0 h out
    → Allocates h bs (suc n) out
unfolding Search
Search-Allocates n r le (inl (e, all)) =
    refused e (λ j lt. not_free r (suc n) j (omega arith) (all j (omega arith) (omega arith)))
Search-Allocates {h} {bs} n r le (inr (k, lt, first, e)) =
    allocated k (omega arith) (run_flags r (suc n) k (omega arith) first.free)
      (λ j before. not_free r (suc n) j (omega arith) (first.least j (omega arith) before))
      (rw e (address_lem k r (omega arith)))
      (rw e (claim-Represents n k r (omega arith) first.free))

-- On a heap that represents the blocks `bs`, a request that asks for at most `num_pages` pages is
-- refused only when no free run starts before page `num_pages` less that many pages, and then the
-- heap is unchanged; otherwise the first free run becomes a block of the new heap, and the address
-- of its first page is returned.
pub malloc-Allocates :
    {h : Heap} {bs : List Block} (size : ℕ)
    → Represents h bs
    → page_num size ≤ h.num_pages
    → Allocates h bs (page_num size) (malloc size h)
unfolding malloc
malloc-Allocates {h} {bs} size r le =
    let e : page_num size ≡ suc (size / 257) = omega arith in
    rw (bound_lem (page_num size) r le, e)
      (Search-Allocates (size / 257) r (omega arith)
        (malloc_loop-Search (size / 257) (h.num_pages - suc (size / 257)) 0 h))
