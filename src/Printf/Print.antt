-- ===== src/Printf/Print.antt =====
-- `lib_vprintf` sends the text.
use mini_riscv_os.Common.{
  ℕ, zero, suc, ◌+◌, ◌-◌, ◌^◌, ◌≤◌, ◌<◌, ◌≡◌, ap, ◌∙◌, sym, true, false, some, List, [], ◌∷◌, leb,
  ◌==◌, if◌then◌else◌, u32, length, get_or, arith, codes,
}
use mini_riscv_os.Console.{Arg}
use mini_riscv_os.Printf.{
  lib_vsnprintf, c_string, out_size, printed, overflow, print_buffer, lib_vprintf,
}
use mini_riscv_os.Printf.Text.{render}
use mini_riscv_os.Printf.Refine.{filled, lib_vsnprintf-filled, lib_vsnprintf-length}

-- A C string ends at its first NUL.
abbrev pub until_nul : List ℕ → List ℕ
until_nul [] = []
until_nul (c ∷ cs) = if c == 0 then [] else c ∷ until_nul cs

c_string_lem :
    (text : List ℕ) (count i : ℕ) (buf : ℕ → ℕ)
    → length text < count
    → ((k : ℕ) → k < length text → buf (i + k) ≡ get_or text k 0)
    → buf (i + length text) ≡ 0
    → c_string count i buf ≡ until_nul text
unfolding c_string
c_string_lem text zero i buf h same stop = absurd (omega arith)
c_string_lem [] (suc count) i buf h same stop =
    let e : i + 0 ≡ i = omega arith in rw (ap buf (sym e) ∙ stop)
c_string_lem (c ∷ cs) (suc count) i buf h same stop =
    let e : i + 0 ≡ i = omega arith in
    let first : buf i ≡ c = ap buf (sym e) ∙ same 0 (omega arith) in
    let rest : c_string count (i + 1) buf ≡ until_nul cs =
      c_string_lem cs count (i + 1) buf (omega arith)
        (λ k lt. ap buf (shift i k) ∙ same (suc k) (omega arith))
        (ap buf (shift i (length cs)) ∙ stop) in
    rw (first, rest)
  where
    shift : (i k : ℕ) → i + 1 + k ≡ i + suc k
    shift i k = omega arith

filled_front :
    (text : List ℕ) (buf : ℕ → ℕ) (k : ℕ)
    → k < length text
    → filled (length text + 1) text buf (0 + k) ≡ get_or text k 0
filled_front text buf k lt = let e : 0 + k ≡ k = omega arith in rw e (ground arith)

filled_stop :
    (text : List ℕ) (buf : ℕ → ℕ) → filled (length text + 1) text buf (0 + length text) ≡ 0
filled_stop text buf = let e : 0 + length text ≡ length text = omega arith in rw e (ground arith)

vprintf_fits :
    (fmt : List ℕ) (args : List Arg) (buf buf0 : ℕ → ℕ) (len : ℕ)
    → lib_vsnprintf false (2 ^ 32 - 1) fmt args buf ≡ some (len, buf0)
    → len + 1 < out_size
    → lib_vprintf fmt args buf ≡ print_buffer len (lib_vsnprintf true (len + 1) fmt args buf)
unfolding lib_vprintf
vprintf_fits fmt args buf buf0 len e h =
    let small : u32 (len + 1) ≡ len + 1 = omega arith in
    let fits : leb out_size (len + 1) ≡ false = ground arith in rw (lib_vprintf, e, small, fits)

-- A text of fewer than 999 bytes is sent up to its first NUL, and its length is returned.
pub lib_vprintf-printed :
    (fmt : List ℕ) (args : List Arg) (buf : ℕ → ℕ) {text : List ℕ}
    → render false fmt args ≡ some text
    → length text + 1 < out_size
    → (buf' : ℕ → ℕ) × (lib_vprintf fmt args buf ≡ printed (until_nul text) (length text) buf')
unfolding print_buffer
lib_vprintf-printed fmt args buf {text} e h =
    let (buf0, first) = lib_vsnprintf-length (2 ^ 32 - 1) fmt args buf e (omega arith) in
    let (buf', second, all) = lib_vsnprintf-filled (length text + 1) fmt args buf e (omega arith) in
    let sent : c_string out_size 0 buf' ≡ until_nul text =
      c_string_lem text out_size 0 buf' (omega arith)
        (λ k lt. all (0 + k) ∙ filled_front text buf k lt)
        (all (0 + length text) ∙ filled_stop text buf) in
    (
      buf',
      vprintf_fits fmt args buf buf0 (length text) first h
          ∙ ap (print_buffer (length text)) second
          ∙ ap (λ (t : List ℕ). printed t (length text) buf') sent,
    )

-- A longer text is not sent: the message of the overflow is, and the call does not return.
pub lib_vprintf-overflow :
    (fmt : List ℕ) (args : List Arg) (buf : ℕ → ℕ) {text : List ℕ}
    → render false fmt args ≡ some text
    → out_size ≤ length text + 1
    → length text + 1 < 2 ^ 32
    → lib_vprintf fmt args buf
      ≡ overflow (codes "error: lib_vprintf() output string size overflow\n")
unfolding lib_vprintf
lib_vprintf-overflow fmt args buf {text} e long h =
    let (buf0, first) = lib_vsnprintf-length (2 ^ 32 - 1) fmt args buf e (omega arith) in
    let small : u32 (length text + 1) ≡ length text + 1 = omega arith in
    let over : leb out_size (length text + 1) ≡ true = ground arith in
    rw (lib_vprintf, first, small, over)
