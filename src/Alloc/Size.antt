-- ===== src/Alloc/Size.antt =====
-- How many pages a request of so many bytes gets.
use mini_riscv_os.Common.{ℕ, ◌+◌, ◌*◌, ◌/◌, ◌%◌, ◌≤◌, ◌<◌, ◌↔◌, arith}
use mini_riscv_os.Alloc.{page_size, page_num}

-- The pages that `pageNum` grants are too few for a request exactly when the quotient and the
-- remainder of its size by 257 add up to more than 256; 513 bytes is the least such request.
pub page_num_short :
    (size : ℕ)
    → ((page_num size * page_size < size) ↔ (256 < size / 257 + size % 257))
      × (page_num 513 * page_size < 513)
      × (size < 513 → size ≤ page_num size * page_size)
page_num_short size = ((λ h. omega arith, λ h. omega arith), omega arith, λ h. omega arith)

-- For 1 to 512 bytes the grant is enough, and is the least number of pages that is.
pub page_num_enough :
    (size : ℕ)
    → 0 < size
    → size ≤ 512
    → (size ≤ page_num size * page_size) × (page_num size * page_size < size + page_size)
page_num_enough size pos h = omega arith
