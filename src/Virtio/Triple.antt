-- ===== src/Virtio/Triple.antt =====
-- `alloc3_desc`: three descriptors or none.
use mini_riscv_os.Common.{
  ℕ, ◌<◌, ◌≡◌, refl, ◌≢◌, ◌⊎◌, Option, none, some, List, [], ◌∷◌, ◌==◌, update, Run, ok, ◌>>=◌,
  arith,
}
use mini_riscv_os.Virtio.{
  num, Disk, empty_desc, free_desc, free_all, alloc3_next, alloc3_loop, alloc3_desc,
}
use mini_riscv_os.Virtio.Descriptors.{Takes, full, takes, alloc_desc-Takes}

-- The table is as it was: the same descriptors are free, and those in use hold what they held.
pub record SameTable (d d' : Disk) : Type 0 where
  pub free : (j : ℕ) → (d'.free j == 0) ≡ (d.free j == 0)
  pub desc : (j : ℕ) → d.free j ≡ 0 → d'.desc j ≡ d.desc j
  pub avail : d'.avail ≡ d.avail
  pub used : d'.used ≡ d.used
  pub info : (j : ℕ) → d'.info j ≡ d.info j
  pub used_idx : d'.used_idx ≡ d.used_idx
  pub vdisk_lock : d'.vdisk_lock ≡ d.vdisk_lock

abbrev pub take3 : ℕ → ℕ → ℕ → Disk → Disk
take3 i0 i1 i2 d = record d { free = update (update (update d.free i0 0) i1 0) i2 0 }

pub data Allocates3 (d : Disk) : Run (Option (List ℕ) × Disk) → Type 0 where
  got :
      (i0 i1 i2 : ℕ)
      → i0 < i1
      → i1 < i2
      → i2 < num
      → d.free i0 ≢ 0
      → d.free i1 ≢ 0
      → d.free i2 ≢ 0
      → Allocates3 d (ok (some (i0 ∷ i1 ∷ i2 ∷ []), take3 i0 i1 i2 d))
  failed :
      (d' : Disk)
      → SameTable d d'
      → (i0 i1 : ℕ) → ((j : ℕ) → j < num → d.free j ≢ 0 → (j ≡ i0) ⊎ (j ≡ i1))
      → Allocates3 d (ok (none, d'))

pub free_desc-ok :
    (i : ℕ) (d : Disk)
    → i < num
    → d.free i ≡ 0
    → free_desc i d ≡ ok (record d { desc = update d.desc i empty_desc; free = update d.free i 1 })
unfolding free_desc
free_desc-ok i d lt e = ground arith

give_back1 :
    (d : Disk) (i0 : ℕ)
    → i0 < num
    → d.free i0 ≢ 0
    → ((j : ℕ) → j < num → update d.free i0 0 j ≡ 0)
    → Allocates3 d
        (free_all (i0 ∷ []) (record d { free = update d.free i0 0 }) >>= λ d'. ok (none, d'))
unfolding free_all
give_back1 d i0 lt free none_left =
    rw (free_desc-ok i0 (record d { free = update d.free i0 0 }) lt (ground arith)) (
      failed _
        record {
          free = λ j. ground arith;
          desc = λ j busy. ground arith;
          avail = refl;
          used = refl;
          info = λ j. refl;
          used_idx = refl;
          vdisk_lock = refl;
        }
        i0 i0 (λ j below open_slot. ground (arith, none_left j below)))

give_back2 :
    (d : Disk) (i0 i1 : ℕ)
    → i0 < i1
    → i1 < num
    → d.free i0 ≢ 0
    → d.free i1 ≢ 0
    → ((j : ℕ) → j < num → update (update d.free i0 0) i1 0 j ≡ 0)
    → Allocates3 d (
        free_all (i0 ∷ i1 ∷ []) (record d { free = update (update d.free i0 0) i1 0 }) >>= λ d'.
        ok (none, d'))
unfolding free_all
give_back2 d i0 i1 lt below free0 free1 none_left =
    rw
      (free_desc-ok i0 (record d { free = update (update d.free i0 0) i1 0 }) (omega arith)
        (ground arith))
      (rw
        (free_desc-ok i1
          (record d {
            desc = update d.desc i0 empty_desc;
            free = update (update (update d.free i0 0) i1 0) i0 1;
          })
          below (ground arith))
        (failed _
          record {
            free = λ j. ground arith;
            desc = λ j busy. ground arith;
            avail = refl;
            used = refl;
            info = λ j. refl;
            used_idx = refl;
            vdisk_lock = refl;
          }
          i0 i1 (λ j small open_slot. ground (arith, none_left j small))))

third :
    (d : Disk) (i0 i1 : ℕ)
    → i0 < i1
    → i1 < num
    → d.free i0 ≢ 0
    → d.free i1 ≢ 0
    → ((j : ℕ) → j < i1 → update d.free i0 0 j ≡ 0)
    → {out : Option ℕ × Disk}
    → Takes (record d { free = update (update d.free i0 0) i1 0 }) 0 num out
    → Allocates3 d (alloc3_next out (i0 ∷ i1 ∷ []) (alloc3_loop 0))
unfolding alloc3_loop
third d i0 i1 lt below free0 free1 before (full all) =
    give_back2 d i0 i1 lt below free0 free1 (λ j small. all j (omega arith) small)
third d i0 i1 lt below free0 free1 before (takes i2 small first) =
    got i0 i1 i2 lt (ground (arith, before i2, first.free)) small free0 free1
      (ground (arith, first.free))

second :
    (d : Disk) (i0 : ℕ)
    → i0 < num
    → d.free i0 ≢ 0
    → ((j : ℕ) → j < i0 → d.free j ≡ 0)
    → {out : Option ℕ × Disk} → Takes (record d { free = update d.free i0 0 }) 0 num out
    → Allocates3 d (alloc3_next out (i0 ∷ []) (alloc3_loop 1))
unfolding alloc3_loop
second d i0 below free0 before (full all) =
    give_back1 d i0 below free0 (λ j small. all j (omega arith) small)
second d i0 below free0 before (takes i1 small first) =
    third d i0 i1 (ground (arith, before i1, first.free)) small free0 (ground (arith, first.free))
      (λ j lt. first.least j (omega arith) lt)
      (alloc_desc-Takes (record d { free = update (update d.free i0 0) i1 0 }))

first_of_three :
    (d : Disk) {out : Option ℕ × Disk}
    → Takes d 0 num out
    → Allocates3 d (alloc3_next out [] (alloc3_loop 2))
unfolding alloc3_loop free_all
first_of_three d (full all) =
    failed d
      record {
        free = λ j. refl;
        desc = λ j busy. refl;
        avail = refl;
        used = refl;
        info = λ j. refl;
        used_idx = refl;
        vdisk_lock = refl;
      }
      0 0 (λ j small open_slot. absurd (open_slot (all j (omega arith) small)))
first_of_three d (takes i0 small first) =
    second d i0 small first.free (λ j lt. first.least j (omega arith) lt)
      (alloc_desc-Takes (record d { free = update d.free i0 0 }))

-- `alloc3_desc` always returns. Either it has taken three free descriptors, in rising order, and
-- changed nothing else; or at most two were free, and the table is as it was.
pub alloc3_desc-Allocates3 : (d : Disk) → Allocates3 d (alloc3_desc d)
unfolding alloc3_desc
alloc3_desc-Allocates3 d = first_of_three d (alloc_desc-Takes d)
