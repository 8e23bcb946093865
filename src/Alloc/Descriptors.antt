-- ===== src/Alloc/Descriptors.antt =====
-- The loops over page descriptors, index by index.
use mini_riscv_os.Common.{
  ℕ, zero, suc, ◌+◌, ◌-◌, ◌≤◌, ◌<◌, ◌≡◌, refl, inl, inr, Bool, true, false, ◌&&◌, bit_or, ltb, leb,
  if◌then◌else◌, arith, eq_or_ne,
}
use mini_riscv_os.Common.{◌%◌, ◌==◌}
use mini_riscv_os.Common.Bits.{bit_and-one}
use mini_riscv_os.Alloc.{
  clear, is_free, set_flag, page_taken, page_last, clear_pages, run_is_free, take_pages, claim,
}

-- `j` is one of the `n` indices from `i` on.
abbrev pub inside : ℕ → ℕ → ℕ → Bool
inside i n j = leb i j && ltb j (i + n)

pub clear_pages_lem :
    (n i : ℕ) (page : ℕ → ℕ) (j : ℕ) → clear_pages n i page j ≡ (if inside i n j then 0 else page j)
unfolding clear_pages clear
clear_pages_lem zero i page j = ground arith
clear_pages_lem (suc n) i page j = ground (arith, clear_pages_lem n (i + 1) (clear page i) j)

pub take_pages_lem :
    (n i : ℕ) (page : ℕ → ℕ) (j : ℕ)
    → take_pages n i page j ≡ (if inside i n j then bit_or (page j) page_taken else page j)
unfolding take_pages set_flag
take_pages_lem zero i page j = ground arith
take_pages_lem (suc n) i page j =
    ground (arith, take_pages_lem n (i + 1) (set_flag page i page_taken) j)

-- What `malloc` writes: TAKEN on each page of the run, LAST on its last page, nothing elsewhere.
pub claim_lem :
    (n i : ℕ) (page : ℕ → ℕ) (j : ℕ)
    → claim (suc n) i page j ≡ (
        if inside i (suc n) j
        then if inside i n j
          then bit_or (page j) page_taken
          else bit_or (bit_or (page j) page_taken) page_last
        else page j)
unfolding claim set_flag
claim_lem n i page j =
    ground (arith, take_pages_lem (suc n) i page (i + suc n - 1), take_pages_lem (suc n) i page j)

-- A run is free exactly when each of its pages is.
pub run_is_free-all :
    (n i : ℕ) (page : ℕ → ℕ)
    → run_is_free n i page ≡ true
    → (j : ℕ) → i ≤ j
    → j < i + n
    → is_free page j ≡ true
unfolding run_is_free
run_is_free-all zero i page e j lo hi = absurd (omega arith)
run_is_free-all (suc n) i page e j lo hi = elim (eq_or_ne i j) [
  | inl same ↦ ground arith
  | inr other ↦ ground (arith, run_is_free-all n (i + 1) page (ground arith) j)
]

pub run_is_free-intro :
    (n i : ℕ) (page : ℕ → ℕ)
    → ((j : ℕ) → i ≤ j → j < i + n → is_free page j ≡ true)
    → run_is_free n i page ≡ true
unfolding run_is_free
run_is_free-intro zero i page all = refl
run_is_free-intro (suc n) i page all =
    ground (
      arith,
      all i,
      run_is_free-intro n (i + 1) page (λ j lo hi. all j (omega arith) (omega arith)),
    )

-- A run that begins with a page in use is not free.
pub run_is_free-first :
    (n i : ℕ) (page : ℕ → ℕ) → is_free page i ≡ false → run_is_free (suc n) i page ≡ false
unfolding run_is_free
run_is_free-first n i page e = rw e

pub is_free-mod : (page : ℕ → ℕ) (j : ℕ) → is_free page j ≡ (page j % 2 == 0)
unfolding is_free
is_free-mod page j = ground (arith, bit_and-one (page j))
