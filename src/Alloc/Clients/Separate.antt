-- ===== src/Alloc/Clients/Separate.antt =====
-- The memory that callers of 10-SystemCall/src/alloc.c hold at one time: disjoint, inside the pool,
-- and given back whole.
use mini_riscv_os.Common.{
  ℕ, ◌+◌, ◌-◌, ◌*◌, ◌≤◌, ◌<◌, ◌≡◌, ◌⊎◌, ap, ◌∙◌, subst, List, [], ◌∷◌, arith, map,
}
use mini_riscv_os.Alloc.{page_size, page_num}
use mini_riscv_os.Alloc.Blocks.{Apart, IsLayout, flag_of}
use mini_riscv_os.Alloc.Clients.{Grant, Shop, Reach, IsOpen, block_of, OnPage, OnPages, Reach-Inv}

-- The bytes of a grant: all those of its pages.
abbrev pub end_of : Grant → ℕ
end_of (p, size) = p + page_size * page_num size

-- A grant does not share a byte with another.
abbrev pub Clear : Grant → List Grant → Type 0
Clear g [] = Unit {0}
Clear (p, m) ((q, n) ∷ gs) = ((end_of (p, m) ≤ q) ⊎ (end_of (q, n) ≤ p)) × Clear (p, m) gs

-- The grants lie between two addresses, and no two of them share a byte.
abbrev pub Separate : ℕ → ℕ → List Grant → Type 0
Separate lo hi [] = Unit {0}
Separate lo hi (g ∷ gs) = (lo ≤ g.0) × (end_of g ≤ hi) × Clear g gs × Separate lo hi gs

Apart-Clear :
    (start total p m : ℕ) (gs : List Grant)
    → OnPage start total (p, m)
    → OnPages start total gs
    → Apart (block_of start (p, m)) (map (block_of start) gs)
    → Clear (p, m) gs
Apart-Clear start total p m [] at on a = tt
Apart-Clear start total p m ((q, n) ∷ gs) at on a =
    (ground (arith, a.0, at.0, on.0.0), Apart-Clear start total p m gs at on.1 a.1)

IsLayout-Separate :
    (start total : ℕ) (gs : List Grant)
    → OnPages start total gs
    → IsLayout total (map (block_of start) gs)
    → Separate start (start + page_size * (total - 1)) gs
IsLayout-Separate start total [] on l = tt
IsLayout-Separate start total ((p, m) ∷ gs) on l = (
  omega (arith, on.0.0),
  omega (arith, on.0),
  Apart-Clear start total p m gs on.0 on.1 l.2,
  IsLayout-Separate start total gs on.1 l.3,
)

module _ {fuel : ℕ} {s s' : Shop} (op : IsOpen s) (enough : s.heap.num_pages ≤ fuel)
    (r : Reach fuel s s') where
  -- Whatever calls of `malloc` and `free` led here from an empty heap, the pages of the live grants
  -- lie in the pool that the empty heap had, before its last page, and no two grants share a byte
  -- of them.
  pub grants_apart :
      Separate s.heap.alloc_start (s.heap.alloc_start + page_size * (s.heap.num_pages - 1)) s'.live
  grants_apart =
      let inv = Reach-Inv op enough r in
      IsLayout-Separate _ s.heap.num_pages s'.live inv.on_pages (
        subst (λ (n : ℕ). IsLayout n (map (block_of s.heap.alloc_start) s'.live)) inv.total_at
          inv.represents.layout)

  -- Whatever calls led here from an empty heap, of `malloc` for no more pages than the pool has, and of
  -- `free` for live grants and NULL, with fuel for all pages: if every grant is given back, every descriptor of the pool is clear, and so no page is lost.
  pub nothing_leaks : s'.live ≡ [] → (j : ℕ) → j < s.heap.num_pages → s'.heap.page j ≡ 0
  nothing_leaks e j lt =
      let inv = Reach-Inv op enough r in
      inv.represents.flags j (omega (arith, inv.total_at))
      ∙ ap (λ (l : List Grant). flag_of (map (block_of s.heap.alloc_start) l) j) e
