-- ===== src/Alloc/Clients.antt =====
-- Callers of the allocator of 10-SystemCall/src/alloc.c: calls of `malloc` and `free` in any order,
-- with the grants that are live, each the address that `malloc` returned and the size asked for.
pub mod Separate
mod Tests
use mini_riscv_os.Common.{
  ℕ, zero, suc, ◌+◌, ◌-◌, ◌*◌, ◌/◌, ◌≤◌, ◌<◌, ◌≡◌, ◌≢◌, ◌⊎◌, refl, sym, ap, ◌∙◌, subst, inl, inr,
  map-append, Bool-cases, Option, none, some, List, [], ◌∷◌, ◌++◌, arith, map, ◌==◌, if◌then◌else◌,
  true, false,
}
use mini_riscv_os.Alloc.{Heap, page_size, page_num, null, malloc, free}
use mini_riscv_os.Alloc.Blocks.{Block, Represents, Apart, IsLayout, flag_of}
use mini_riscv_os.Alloc.Malloc.{refused, allocated, malloc-Allocates}
use mini_riscv_os.Alloc.Free.{
  Represents-front, free-Represents, free_outside, alloc_start-free, num_pages-free,
}
use mini_riscv_os.Alloc.Check.{alloc_start-malloc, num_pages-malloc}

-- An address and the size asked for.
abbrev pub Grant : Type 0
Grant = ℕ × ℕ

pub record Shop : Type 0 where
  pub heap : Heap
  pub live : List Grant

-- A caller keeps what is not NULL.
unfoldable pub keep : ℕ → ℕ × Heap → List Grant → Shop
keep size (p, h) live = record { heap = h; live = if p == null then live else (p, size) ∷ live }

-- A caller asks for memory, gives a live grant back, or frees NULL. Callers keep to the contract that
-- `malloc` needs: a request for more pages than the pool has is no step, as it may be granted memory
-- behind the pool.
pub data Step (fuel : ℕ) : Shop → Shop → Type 0 where
  asked :
      (s : Shop) (size : ℕ)
      → page_num size ≤ s.heap.num_pages
      → Step fuel s (keep size (malloc size s.heap) s.live)
  gave_back :
      (s : Shop) (xs ys : List Grant) (p size : ℕ) (h' : Heap)
      → s.live ≡ xs ++ (p, size) ∷ ys
      → free fuel p s.heap ≡ some h'
      → Step fuel s (record { heap = h'; live = xs ++ ys })
  freed_null :
      (s : Shop) (h' : Heap)
      → free fuel null s.heap ≡ some h'
      → Step fuel s (record s { heap = h' })

pub data Reach (fuel : ℕ) : Shop → Shop → Type 0 where
  here : {s : Shop} → Reach fuel s s
  later : {s s' s'' : Shop} → Reach fuel s s' → Step fuel s' s'' → Reach fuel s s''

-- An empty heap, as `page_init` leaves it, and no grant.
pub record IsOpen (s : Shop) : Type 0 where
  pub empty : Represents s.heap []
  pub no_grant : s.live ≡ []

abbrev pub block_of : ℕ → Grant → Block
block_of start (p, size) = ((p - start) / page_size, page_num size)

-- The address is that of a page, and the grant ends before the last of `total` pages.
abbrev pub OnPage : ℕ → ℕ → Grant → Type 0
OnPage start total (p, size) =
    (p ≡ start + page_size * ((p - start) / page_size))
    × ((p - start) / page_size + page_num size < total)

abbrev pub OnPages : ℕ → ℕ → List Grant → Type 0
OnPages start total [] = Unit {0}
OnPages start total (g ∷ gs) = OnPage start total g × OnPages start total gs

OnPages-drop :
    (start total : ℕ) (xs ys : List Grant) (g : Grant)
    → OnPages start total (xs ++ g ∷ ys)
    → OnPage start total g × OnPages start total (xs ++ ys)
OnPages-drop start total [] ys g on = on
OnPages-drop start total (x ∷ xs) ys g on =
    let rest = OnPages-drop start total xs ys g on.1 in (rest.0, (on.0, rest.1))

-- The descriptors are those of the live grants.
pub record Inv (start total : ℕ) (s : Shop) : Type 0 where
  pub start_at : s.heap.alloc_start ≡ start
  pub total_at : s.heap.num_pages ≡ total
  pub on_pages : OnPages start total s.live
  pub represents : Represents s.heap (map (block_of start) s.live)

module _ {start total : ℕ} {s : Shop} (inv : Inv start total s) where
  -- A request that `malloc` grants adds a block.
  granted :
      (size : ℕ) (out : ℕ × Heap) (k : ℕ)
      → out.1.alloc_start ≡ s.heap.alloc_start
      → out.1.num_pages ≡ s.heap.num_pages
      → k + page_num size < s.heap.num_pages
      → out.0 ≡ s.heap.alloc_start + page_size * k
      → Represents out.1 ((k, page_num size) ∷ map (block_of start) s.live)
      → Inv start total (keep size out s.live)
  unfolding keep
  granted size out k same same_pages low address rep =
      let at : out.0 ≡ start + page_size * k =
        address ∙ ap (λ (a : ℕ). a + page_size * k) inv.start_at in
      let index : k ≡ (out.0 - start) / page_size = omega arith in
      let got : (out.0 == null) ≡ false = ground (arith, rep.pool, same, inv.start_at) in
      rw got (record {
        start_at = same ∙ inv.start_at;
        total_at = same_pages ∙ inv.total_at;
        on_pages = ((omega arith, omega (arith, inv.total_at)), inv.on_pages);
        represents =
            subst (λ (i : ℕ). Represents out.1 ((i, page_num size) ∷ map (block_of start) s.live))
              index rep;
      })

  asked-Inv :
      (size : ℕ)
      → page_num size ≤ s.heap.num_pages
      → Inv start total (keep size (malloc size s.heap) s.live)
  asked-Inv size room = elim (malloc-Allocates size inv.represents room) [
    | refused out none_left ↦ rw out (unfold keep in inv)
    | allocated k low run least address rep ↦
        granted size (malloc size s.heap) k (alloc_start-malloc size s.heap)
          (num_pages-malloc size s.heap) low address rep
  ]

  -- `free` of a live grant ends, and takes its block away.
  pub give_back :
      (fuel : ℕ) (xs ys : List Grant) (p size : ℕ)
      → s.live ≡ xs ++ (p, size) ∷ ys
      → page_num size ≤ fuel
      → (h' : Heap) × (free fuel p s.heap ≡ some h')
        × Inv start total (record { heap = h'; live = xs ++ ys })
  give_back fuel xs ys p size e enough =
      let f : Grant → Block = block_of start in
      let on : OnPage start total (p, size) × OnPages start total (xs ++ ys) =
        OnPages-drop start total xs ys (p, size) (subst (OnPages start total) e inv.on_pages) in
      let blocks : map f s.live ≡ map f xs ++ f (p, size) ∷ map f ys =
        ap (map f) e ∙ map-append f xs ((p, size) ∷ ys) in
      let address : s.heap.alloc_start + page_size * ((p - start) / page_size) ≡ p =
        omega (arith, on.0.0, inv.start_at) in
      let (h', ends, rest) =
        free-Represents (map f xs) (map f ys) ((p - start) / page_size) (page_num size) fuel
          (subst (Represents s.heap) blocks inv.represents) enough in
      let run : free fuel p s.heap ≡ some h' =
        subst (λ (a : ℕ). free fuel a s.heap ≡ some h') address ends in
      (
        h',
        run,
        record {
          start_at = alloc_start-free fuel p s.heap run ∙ inv.start_at;
          total_at = num_pages-free fuel p s.heap run ∙ inv.total_at;
          on_pages = on.1;
          represents = subst (Represents h') (sym (map-append f xs ys)) rest;
        },
      )

  -- A live grant has fewer pages than the pool.
  pub grant_small :
      (xs ys : List Grant) (p size : ℕ) → s.live ≡ xs ++ (p, size) ∷ ys → page_num size ≤ total
  grant_small xs ys p size e =
      let on =
        OnPages-drop start total xs ys (p, size) (subst (OnPages start total) e inv.on_pages) in
      omega (arith, on.0.1)

same_heap : {o : Option Heap} {h h' : Heap} → o ≡ some h → o ≡ some h' → h ≡ h'
same_heap p q = cc

module _ (start total fuel : ℕ) (enough : total ≤ fuel) where
  Step-Inv : {s s' : Shop} → Step fuel s s' → Inv start total s → Inv start total s'
  Step-Inv (asked s size room) inv = asked-Inv inv size room
  Step-Inv (gave_back s xs ys p size h' e run) inv =
      let (h1, ends, next) =
        give_back inv fuel xs ys p size e (omega (arith, grant_small inv xs ys p size e)) in
      subst (λ (h : Heap). Inv start total (record { heap = h; live = xs ++ ys }))
        (same_heap ends run) next
  Step-Inv (freed_null s h' run) inv =
      subst (λ (h : Heap). Inv start total (record s { heap = h }))
        (same_heap (free_outside s.heap null fuel (inl refl)) run) inv

open_Inv : {s : Shop} → IsOpen s → Inv s.heap.alloc_start s.heap.num_pages s
open_Inv {s} op = record {
  start_at = refl;
  total_at = refl;
  on_pages = subst (OnPages s.heap.alloc_start s.heap.num_pages) (sym op.no_grant) tt;
  represents =
      subst (λ (l : List Grant). Represents s.heap (map (block_of s.heap.alloc_start) l))
        (sym op.no_grant) op.empty;
}

pub Reach-Inv :
    {fuel : ℕ} {s s' : Shop}
    → IsOpen s
    → s.heap.num_pages ≤ fuel
    → Reach fuel s s'
    → Inv s.heap.alloc_start s.heap.num_pages s'
Reach-Inv op enough here = open_Inv op
Reach-Inv op enough (later r st) = Step-Inv _ _ _ enough st (Reach-Inv op enough r)
