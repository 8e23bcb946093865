-- ===== src/Virtio.antt =====
-- The virtio block device driver, 10-SystemCall/src/virtio.c and include/virtio.h: its data, and
-- the descriptors. Arrays are functions of the index, and a `struct blk *` is a number, 0 for NULL.
pub mod Descriptors
pub mod Request
pub mod Triple
pub mod Chain
pub mod Finish
pub mod Isr
pub mod Complete
pub mod Reg
pub mod Init
pub mod Features
pub mod Ready
pub mod Sample
pub mod World
pub mod Tester
pub mod Storage
mod Tests
use mini_riscv_os.Common.{
  ℕ, zero, suc, ◌+◌, ◌*◌, ◌^◌, bit_and, Bool, true, false, Option, none, some, List, [], ◌∷◌, ◌++◌,
  ltb, leb, ◌==◌, if◌then◌else◌, update, Run, ok, panic, hang, ◌>>=◌,
}

-- NUM
abbrev pub num : ℕ
num = 8

abbrev pub block_size : ℕ
block_size = 512

abbrev pub desc_f_next : ℕ
desc_f_next = 1

abbrev pub desc_f_write : ℕ
desc_f_write = 2

-- `virtq_desc_t`
pub record VirtqDesc : Type 0 where
  pub addr : ℕ
  pub len : ℕ
  pub flags : ℕ
  pub next : ℕ

-- `virtq_avail_t`
pub record VirtqAvail : Type 0 where
  pub flags : ℕ
  pub idx : ℕ
  pub ring : ℕ → ℕ

-- `virtq_used_elem_t`
pub record VirtqUsedElem : Type 0 where
  pub id : ℕ
  pub len : ℕ

-- `virtq_used_t`
pub record VirtqUsed : Type 0 where
  pub flags : ℕ
  pub idx : ℕ
  pub ring : ℕ → VirtqUsedElem

-- `virtio_blk_req_t`
pub record VirtioBlkReq : Type 0 where
  pub kind : ℕ
  pub reserved : ℕ
  pub sector : ℕ

-- `struct blk`
pub record Blk : Type 0 where
  pub dev : ℕ
  pub blockno : ℕ
  pub lock : ℕ
  pub disk : ℕ
  pub bytes : ℕ → ℕ

-- The `info` of a chain: the buffer that waits for it, and the status that the device writes.
pub record Info : Type 0 where
  pub b : ℕ
  pub status : ℕ

-- `struct disk`, with what the two pages hold in place of the pages.
pub record Disk : Type 0 where
  pub desc : ℕ → VirtqDesc
  pub avail : VirtqAvail
  pub used : VirtqUsed
  pub free : ℕ → ℕ
  pub info : ℕ → Info
  pub used_idx : ℕ
  pub ops : ℕ → VirtioBlkReq
  pub vdisk_lock : ℕ

abbrev pub empty_desc : VirtqDesc
empty_desc = record { addr = 0; len = 0; flags = 0; next = 0 }

-- The loop of `alloc_desc` from index `i` on; `none` is the result -1.
unfoldable pub alloc_desc_loop : ℕ → ℕ → Disk → Option ℕ × Disk
alloc_desc_loop zero i d = (none, d)
alloc_desc_loop (suc rounds) i d =
    let rest = alloc_desc_loop rounds (i + 1) d in
    if d.free i == 0 then rest else (some i, record d { free = update d.free i 0 })

unfoldable pub alloc_desc : Disk → Option ℕ × Disk
alloc_desc d = alloc_desc_loop num 0 d

unfoldable pub free_desc : ℕ → Disk → Run Disk
free_desc i d =
    if leb num i
    then panic "free_desc 1"
    else if d.free i == 0
    then ok (record d { desc = update d.desc i empty_desc; free = update d.free i 1 })
    else panic "free_desc 2"

-- The `while (1)` of `free_chain`, on fuel.
unfoldable pub free_chain : ℕ → ℕ → Disk → Run Disk
free_chain zero i d = hang
free_chain (suc fuel) i d =
    let flag : ℕ = (d.desc i).flags in
    let nxt : ℕ = (d.desc i).next in
    free_desc i d >>= λ d'. if bit_and flag desc_f_next == 0 then ok d' else free_chain fuel nxt d'

-- `for (int j = 0; j < i; j++) free_desc(idx[j]);`
unfoldable pub free_all : List ℕ → Disk → Run Disk
free_all [] d = ok d
free_all (i ∷ idx) d = free_desc i d >>= free_all idx

-- What one round of `alloc3_desc` does with the result of `alloc_desc`.
unfoldable pub alloc3_next :
    Option ℕ × Disk
    → List ℕ
    → (List ℕ → Disk → Run (Option (List ℕ) × Disk))
    → Run (Option (List ℕ) × Disk)
alloc3_next (none, d) idx go = free_all idx d >>= λ d'. ok (none, d')
alloc3_next (some i, d) idx go = go (idx ++ i ∷ []) d

-- The loop of `alloc3_desc` with `rounds` left and the indices `idx` taken; `none` is -1.
unfoldable pub alloc3_loop : ℕ → List ℕ → Disk → Run (Option (List ℕ) × Disk)
unfolding alloc3_next
alloc3_loop zero idx d = ok (some idx, d)
alloc3_loop (suc rounds) idx d = alloc3_next (alloc_desc d) idx (alloc3_loop rounds)

unfoldable pub alloc3_desc : Disk → Run (Option (List ℕ) × Disk)
unfolding alloc3_loop
alloc3_desc d = alloc3_loop 3 [] d
