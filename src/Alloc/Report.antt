-- ===== src/Alloc/Report.antt =====
-- The lines that page_init of 10-SystemCall/src/alloc.c sends to the UART.
use mini_riscv_os.Common.{
  ℕ, ◌^◌, ◌<◌, ◌≡◌, refl, some, List, [], ◌∷◌, ◌++◌, codes, length, length-append, arith, String,
  false, true,
}
use mini_riscv_os.Console.{printf, int}
use mini_riscv_os.Printf.{conversion}
use mini_riscv_os.Printf.Text.{
  render, step_text, put_before, convert_text, closed, hex_text, magnitude_text,
}
use mini_riscv_os.Printf.Send.{IsSent, AreSent, done, next}
use mini_riscv_os.Printf.Visible.{
  visible, visible-append, visible-hex_text, visible-magnitude, printf-IsSent, decimal-magnitude,
  length-magnitude,
}
use mini_riscv_os.Alloc.{Symbols, Heap, page_init}

-- Two addresses in eight hexadecimal digits each, behind a name.
abbrev pub range_line : String → ℕ → ℕ → List ℕ
range_line name low high =
    codes name ++ (hex_text 8 low ++ (codes " -> 0x" ++ (hex_text 8 high ++ codes "\n")))

abbrev pub pool_line : ℕ → ℕ → ℕ → List ℕ
pool_line start size pages =
    codes "HEAP_START = "
    ++ (hex_text 8 start
        ++ (codes ", HEAP_SIZE = "
            ++ (hex_text 8 size
                ++ (codes ", num of pages = " ++ (magnitude_text pages ++ codes "\n")))))

-- What page_init reports of the linker's symbols and of the pool that it has made.
abbrev pub report_text : Symbols → Heap → List ℕ
report_text s h =
    pool_line s.heap_start s.heap_size h.num_pages
    ++ (range_line "TEXT:   0x" s.text_start s.text_end
        ++ (range_line "RODATA: 0x" s.rodata_start s.rodata_end
            ++ (range_line "DATA:   0x" s.data_start s.data_end
                ++ (range_line "BSS:    0x" s.bss_start s.bss_end
                    ++ (range_line "HEAP:   0x" h.alloc_start h.alloc_end ++ [])))))

module _ (low high : ℕ) where
  -- The part of such a line behind the name.
  abbrev rest_of : List ℕ
  rest_of = hex_text 8 low ++ (codes " -> 0x" ++ (hex_text 8 high ++ codes "\n"))

  rest_of-visible : visible rest_of ≡ true
  unfolding visible
  rest_of-visible =
      visible-append (hex_text 8 low) _ (visible-hex_text 8 low)
        (visible-append (hex_text 8 high) (codes "\n") (visible-hex_text 8 high) refl)

  range_line-IsSent :
      (fmt name : String)
      → render false (codes fmt) (int low ∷ int high ∷ []) ≡ some (range_line name low high)
      → length (range_line name low high) < 999
      → visible (codes name) ≡ true
      → IsSent (printf fmt (int low ∷ int high ∷ [])) (range_line name low high)
  range_line-IsSent fmt name e short clean =
      printf-IsSent fmt (int low ∷ int high ∷ []) (range_line name low high) e short
        (visible-append (codes name) rest_of clean rest_of-visible)

  text_IsSent :
      IsSent
        (printf "TEXT:   0x%x -> 0x%x\n" (int low ∷ int high ∷ []))
        (range_line "TEXT:   0x" low high)
  unfolding render step_text put_before convert_text hex_text conversion visible
  text_IsSent = range_line-IsSent "TEXT:   0x%x -> 0x%x\n" "TEXT:   0x" refl (omega arith) refl

  rodata_IsSent :
      IsSent
        (printf "RODATA: 0x%x -> 0x%x\n" (int low ∷ int high ∷ []))
        (range_line "RODATA: 0x" low high)
  unfolding render step_text put_before convert_text hex_text conversion visible
  rodata_IsSent = range_line-IsSent "RODATA: 0x%x -> 0x%x\n" "RODATA: 0x" refl (omega arith) refl

  data_IsSent :
      IsSent
        (printf "DATA:   0x%x -> 0x%x\n" (int low ∷ int high ∷ []))
        (range_line "DATA:   0x" low high)
  unfolding render step_text put_before convert_text hex_text conversion visible
  data_IsSent = range_line-IsSent "DATA:   0x%x -> 0x%x\n" "DATA:   0x" refl (omega arith) refl

  bss_IsSent :
      IsSent
        (printf "BSS:    0x%x -> 0x%x\n" (int low ∷ int high ∷ []))
        (range_line "BSS:    0x" low high)
  unfolding render step_text put_before convert_text hex_text conversion visible
  bss_IsSent = range_line-IsSent "BSS:    0x%x -> 0x%x\n" "BSS:    0x" refl (omega arith) refl

  heap_IsSent :
      IsSent
        (printf "HEAP:   0x%x -> 0x%x\n" (int low ∷ int high ∷ []))
        (range_line "HEAP:   0x" low high)
  unfolding render step_text put_before convert_text hex_text conversion visible
  heap_IsSent = range_line-IsSent "HEAP:   0x%x -> 0x%x\n" "HEAP:   0x" refl (omega arith) refl

module _ (start size n : ℕ) (small : n < 2 ^ 31) where
  pool_line-visible : visible (pool_line start size n) ≡ true
  unfolding visible
  pool_line-visible = visible-append (hex_text 8 start) _ (visible-hex_text 8 start) (
      visible-append (hex_text 8 size) _ (visible-hex_text 8 size)
        (visible-append (magnitude_text n) (codes "\n") (visible-magnitude n) refl))

  pool_line-short : length (pool_line start size n) < 999
  unfolding hex_text
  pool_line-short =
      omega (arith, length-append {0} (magnitude_text n) (codes "\n"), length-magnitude n small)

  pool_line-IsSent :
      IsSent
        (printf "HEAP_START = %x, HEAP_SIZE = %x, num of pages = %d\n"
          (int start ∷ int size ∷ int n ∷ []))
        (pool_line start size n)
  unfolding render step_text put_before convert_text hex_text conversion closed
  pool_line-IsSent =
      printf-IsSent _ (int start ∷ int size ∷ int n ∷ []) (pool_line start size n)
        (rw (decimal-magnitude n small) refl) pool_line-short pool_line-visible

-- The calls of page_init send the report, if the number of pages fits in 31 bits.
pub page_init-AreSent :
    (s : Symbols) (h : Heap)
    → (page_init s h).1.num_pages < 2 ^ 31
    → AreSent (page_init s h).0 (report_text s (page_init s h).1)
unfolding page_init
page_init-AreSent s h small = next (pool_line-IsSent s.heap_start s.heap_size _ small) (
    next (text_IsSent s.text_start s.text_end) (
      next (rodata_IsSent s.rodata_start s.rodata_end) (
        next (data_IsSent s.data_start s.data_end)
          (next (bss_IsSent s.bss_start s.bss_end) (next (heap_IsSent _ _) done)))))
