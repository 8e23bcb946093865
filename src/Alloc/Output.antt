-- ===== src/Alloc/Output.antt =====
-- What page_test of 10-SystemCall/src/alloc.c sends to the UART.
use mini_riscv_os.Common.{
  ℕ, ◌+◌, ◌≤◌, ◌<◌, ◌≡◌, refl, ap, ◌∙◌, some, List, [], ◌∷◌, ◌++◌, map, codes, u8, length, arith,
  String, false, true, Option,
}
use mini_riscv_os.Console.{Call, printf, int}
use mini_riscv_os.Printf.{conversion}
use mini_riscv_os.Printf.Text.{render, step_text, put_before, convert_text, hex_text}
use mini_riscv_os.Printf.Visible.{visible, visible-append, visible-hex_text, printf-IsSent}
use mini_riscv_os.Printf.Send.{IsSent, AreSent, done, next, make_calls, returned, make_calls-sends}
use mini_riscv_os.Uart.{Device}
use mini_riscv_os.Uart.Transmit.{IsTransmitter}
use mini_riscv_os.Alloc.{Heap}
use mini_riscv_os.Alloc.Blocks.{Represents}
use mini_riscv_os.Alloc.Check.{page_test}
use mini_riscv_os.Alloc.PageTest.{page_lines, page_test_lem}

-- A name, a word in eight hexadecimal digits and the end of the line.
abbrev pub hex_line : String → ℕ → List ℕ
hex_line name w = codes name ++ (hex_text 8 w ++ codes "\n")

-- The lines of page_test for a pool that starts at `start`.
abbrev pub page_text : ℕ → List ℕ
page_text start =
    hex_line "p = 0x" start
    ++ (hex_line "p2 = 0x" (start + 1024) ++ (hex_line "p3 = 0x" (start + 1536) ++ []))

module _ (w : ℕ) where
  hex_line-IsSent :
      (fmt name : String)
      → render false (codes fmt) (int w ∷ []) ≡ some (hex_line name w)
      → length (hex_line name w) < 999
      → visible (codes name) ≡ true
      → IsSent (printf fmt (int w ∷ [])) (hex_line name w)
  unfolding visible
  hex_line-IsSent fmt name e short clean =
      printf-IsSent fmt (int w ∷ []) (hex_line name w) e short (
        visible-append (codes name) _ clean
          (visible-append (hex_text 8 w) (codes "\n") (visible-hex_text 8 w) refl))

  p_IsSent : IsSent (printf "p = 0x%x\n" (int w ∷ [])) (hex_line "p = 0x" w)
  unfolding render step_text put_before convert_text hex_text conversion visible
  p_IsSent = hex_line-IsSent "p = 0x%x\n" "p = 0x" refl (omega arith) refl

  p2_IsSent : IsSent (printf "p2 = 0x%x\n" (int w ∷ [])) (hex_line "p2 = 0x" w)
  unfolding render step_text put_before convert_text hex_text conversion visible
  p2_IsSent = hex_line-IsSent "p2 = 0x%x\n" "p2 = 0x" refl (omega arith) refl

  p3_IsSent : IsSent (printf "p3 = 0x%x\n" (int w ∷ [])) (hex_line "p3 = 0x" w)
  unfolding render step_text put_before convert_text hex_text conversion visible
  p3_IsSent = hex_line-IsSent "p3 = 0x%x\n" "p3 = 0x" refl (omega arith) refl

pub page_lines-AreSent : (start : ℕ) → AreSent (page_lines start) (page_text start)
page_lines-AreSent start =
    next (p_IsSent start) (next (p2_IsSent (start + 1024)) (next (p3_IsSent (start + 1536)) done))

-- On a heap of at least eight pages, none of them in use, the calls of page_test send the addresses
-- of the first page, the fifth and the seventh, each as a line with eight hexadecimal digits, to a
-- UART that becomes ready in time; all is given back, and no page is in use.
pub page_test-sends :
    {u : Device} {sent : u.State → List ℕ} {busy : u.State → ℕ} {limit : ℕ} {h : Heap}
    (polls fuel : ℕ) (buf : ℕ → ℕ) (s : u.State)
    → IsTransmitter u sent busy limit
    → limit < polls
    → Represents h []
    → 8 ≤ h.num_pages
    → 4 ≤ fuel
    → (buf' : ℕ → ℕ) × (s' : u.State) × (h' : Heap) × (make_calls u polls (page_test fuel h).0 buf s
        ≡ returned 0 buf' s')
      × (sent s' ≡ sent s ++ map u8 (page_text h.alloc_start))
      × ((page_test fuel h).1 ≡ some h')
      × Represents h' []
page_test-sends {u} {h = h} polls fuel buf s t ready r room enough =
    let (h', run, rest) = page_test_lem fuel r room enough in
    let (buf', s', calls, out) =
      make_calls-sends t polls ready buf s (page_lines-AreSent h.alloc_start) in
    (
      buf',
      s',
      h',
      ap (λ (o : List Call × Option Heap). make_calls u polls o.0 buf s) run ∙ calls,
      out,
      ap (λ (o : List Call × Option Heap). o.1) run,
      rest,
    )
