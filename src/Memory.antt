-- ===== src/Memory.antt =====
-- The memory functions of 10-SystemCall/src/string.c, over bytes addressed by 32-bit pointers.
mod Tests
use mini_riscv_os.Common.{
  ℕ, zero, suc, ◌+◌, ◌-◌, ◌*◌, ◌%◌, ◌^◌, ◌≤◌, ◌<◌, ◌≡◌, refl, ◌≢◌, ◌⊎◌, inl, inr, Bool, true, false,
  ◌&&◌, ltb, leb, ◌==◌, if◌then◌else◌, update, u8, u32, sub32, arith, Bool-cases, eq_or_ne, ap, ◌∙◌,
}

-- `for (i = 0; i < n; i++) cdst[i] = c;` with `rounds` left.
unfoldable pub memset_loop : ℕ → ℕ → ℕ → ℕ → (ℕ → ℕ) → ℕ → ℕ
memset_loop dst c zero i mem = mem
memset_loop dst c (suc rounds) i mem =
    memset_loop dst c rounds (i + 1) (update mem (u32 (dst + i)) (u8 c))

unfoldable pub memset : ℕ → ℕ → ℕ → (ℕ → ℕ) → ℕ → ℕ
unfolding memset_loop
memset dst c n mem = memset_loop dst c n 0 mem

-- `while (n-- > 0) *--d = *--s;`
unfoldable pub copy_down : ℕ → ℕ → ℕ → (ℕ → ℕ) → ℕ → ℕ
copy_down zero d s mem = mem
copy_down (suc n) d s mem =
    copy_down n (sub32 d 1) (sub32 s 1) (update mem (sub32 d 1) (mem (sub32 s 1)))

-- `while (n-- > 0) *d++ = *s++;`
unfoldable pub copy_up : ℕ → ℕ → ℕ → (ℕ → ℕ) → ℕ → ℕ
copy_up zero d s mem = mem
copy_up (suc n) d s mem = copy_up n (u32 (d + 1)) (u32 (s + 1)) (update mem d (mem s))

unfoldable pub memmove : ℕ → ℕ → ℕ → (ℕ → ℕ) → ℕ → ℕ
unfolding copy_up copy_down
memmove dst src n mem =
    if ltb src dst && ltb dst (u32 (src + n))
    then copy_down n (u32 (dst + n)) (u32 (src + n)) mem
    else copy_up n dst src mem

unfoldable pub memcpy : ℕ → ℕ → ℕ → (ℕ → ℕ) → ℕ → ℕ
unfolding memmove
memcpy dst src n mem = memmove dst src n mem

memset_loop_lem :
    (dst c rounds i : ℕ) (mem : ℕ → ℕ)
    → dst + i + rounds < 2 ^ 32
    → (j : ℕ)
    → memset_loop dst c rounds i mem j
      ≡ (if leb (dst + i) j && ltb j (dst + i + rounds) then u8 c else mem j)
unfolding memset_loop
memset_loop_lem dst c zero i mem h j = ground arith
memset_loop_lem dst c (suc rounds) i mem h j =
    let e : u32 (dst + i) ≡ dst + i = omega arith in
    rw e (
      ground
        (arith, memset_loop_lem dst c rounds (i + 1) (update mem (dst + i) (u8 c)) (omega arith) j))

-- `memset` fills the `n` bytes from `dst` on with the low byte of `c`, and writes nowhere else.
pub memset_lem :
    (dst c n : ℕ) (mem : ℕ → ℕ) (j : ℕ)
    → dst + n < 2 ^ 32
    → memset dst c n mem j ≡ (if leb dst j && ltb j (dst + n) then u8 c else mem j)
unfolding memset
memset_lem dst c n mem j h =
    let e : dst + 0 ≡ dst = omega arith in memset_loop_lem dst c n 0 mem (omega arith) j ∙ rw e

-- The bytes that a copy of `n` bytes from `s` to `d` is to leave.
abbrev pub copied : ℕ → ℕ → ℕ → (ℕ → ℕ) → ℕ → ℕ
copied d s n mem j = if leb d j && ltb j (d + n) then mem (s + (j - d)) else mem j

-- The first byte of a copy upwards, and the last of one downwards, does not disturb the others.
first_byte :
    (n d s : ℕ) (mem : ℕ → ℕ) (j : ℕ)
    → (d ≤ s) ⊎ (s + suc n ≤ d)
    → copied (d + 1) (s + 1) n (update mem d (mem s)) j ≡ copied d s (suc n) mem j
first_byte n d s mem j apart = elim (eq_or_ne d j) [
  | inl here ↦ ground (arith, ap mem (at_start here))
  | inr other ↦ elim (Bool-cases (ltb d j)) [
    | inl later ↦ ground (arith, ap mem (shift (ground arith)))
    | inr sooner ↦ ground arith
  ]
]
  where
    at_start : d ≡ j → s + (j - d) ≡ s
    at_start e = omega arith

    shift : d < j → s + 1 + (j - (d + 1)) ≡ s + (j - d)
    shift lt = omega arith

last_byte :
    (n d s : ℕ) (mem : ℕ → ℕ) (j : ℕ)
    → s < d
    → copied d s n (update mem (d + n) (mem (s + n))) j ≡ copied d s (suc n) mem j
last_byte n d s mem j below = elim (eq_or_ne (d + n) j) [
  | inl here ↦ ground (arith, ap mem (at_end here))
  | inr other ↦ ground arith
]
  where
    at_end : d + n ≡ j → s + (j - d) ≡ s + n
    at_end e = omega arith

-- Upwards is right unless the target begins inside the source.
copy_up_lem :
    (n d s : ℕ) (mem : ℕ → ℕ)
    → d + n < 2 ^ 32
    → s + n < 2 ^ 32
    → (d ≤ s) ⊎ (s + n ≤ d)
    → (j : ℕ) → copy_up n d s mem j ≡ copied d s n mem j
unfolding copy_up
copy_up_lem zero d s mem hd hs apart j = ground arith
copy_up_lem (suc n) d s mem hd hs apart j =
    let ed : u32 (d + 1) ≡ d + 1 = omega arith in
    let es : u32 (s + 1) ≡ s + 1 = omega arith in
    rw (ed, es)
      (copy_up_lem n (d + 1) (s + 1) (update mem d (mem s)) (omega arith) (omega arith)
          (omega arith) j
        ∙ first_byte n d s mem j apart)

-- Downwards is right if the target begins inside the source.
copy_down_lem :
    (n d s : ℕ) (mem : ℕ → ℕ)
    → d + n < 2 ^ 32
    → s + n < 2 ^ 32
    → s < d
    → (j : ℕ) → copy_down n (d + n) (s + n) mem j ≡ copied d s n mem j
unfolding copy_down
copy_down_lem zero d s mem hd hs below j = ground arith
copy_down_lem (suc n) d s mem hd hs below j =
    let ed : sub32 (d + suc n) 1 ≡ d + n = omega arith in
    let es : sub32 (s + suc n) 1 ≡ s + n = omega arith in
    rw (ed, es)
      (copy_down_lem n d s (update mem (d + n) (mem (s + n))) (omega arith) (omega arith) below j
        ∙ last_byte n d s mem j below)

-- `memmove` leaves in the target what the source held before the call, however the two overlap, and
-- changes no other byte.
pub memmove_lem :
    (dst src n : ℕ) (mem : ℕ → ℕ) (j : ℕ)
    → dst + n < 2 ^ 32
    → src + n < 2 ^ 32
    → memmove dst src n mem j
      ≡ (if leb dst j && ltb j (dst + n) then mem (src + (j - dst)) else mem j)
unfolding memmove
memmove_lem dst src n mem j hd hs =
    let ed : u32 (dst + n) ≡ dst + n = omega arith in
    let es : u32 (src + n) ≡ src + n = omega arith in
    rw (ed, es)
      (elim (Bool-cases (ltb src dst && ltb dst (src + n))) [
        | inl overlap ↦ rw overlap (copy_down_lem n dst src mem hd hs (ground arith) j)
        | inr apart ↦ rw apart (copy_up_lem n dst src mem hd hs (ground arith) j)
      ])
