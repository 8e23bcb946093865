-- ===== src/Printf/Buffer.antt =====
-- Writing a text into a buffer of `n` bytes, and the loops of `lib_vsnprintf` that do it.
use mini_riscv_os.Common.{
  ℕ, zero, suc, ◌+◌, ◌-◌, ◌*◌, ◌/◌, ◌%◌, ◌^◌, ◌≤◌, ◌<◌, ◌≡◌, refl, ap, ◌∙◌, fun_ext, Bool, true,
  false, ◌&&◌, List, [], ◌∷◌, ◌++◌, ltb, leb, ◌==◌, if◌then◌else◌, u32, length, get_or, arith, sym,
  inl, inr, Bool-cases, eq_or_ne,
}
use mini_riscv_os.Printf.{
  State, hex_digit, store, emit, emit_hex, store_digits, emit_magnitude, emit_string, count_digits,
  max_digits,
}
use mini_riscv_os.Printf.Digits.{length-digits_text}
use mini_riscv_os.Printf.Text.{hex_text, digits_text, magnitude_text}

zero_get : (c : ℕ) (cs : List ℕ) (i : ℕ) → get_or (c ∷ cs) (i - i) 0 ≡ c
zero_get c cs i = let e : i - i ≡ 0 = omega arith in rw e

next_get :
    (c : ℕ) (cs : List ℕ) (i j : ℕ) → i < j → get_or (c ∷ cs) (j - i) 0 ≡ get_or cs (j - (i + 1)) 0
next_get c cs i j h = let e : j - i ≡ suc (j - (i + 1)) = omega arith in rw e

store_at :
    (out : Bool) (n i c : ℕ) (buf : ℕ → ℕ) (j : ℕ)
    → store out n i c buf j ≡ (if out && (ltb i n && i == j) then c else buf j)
unfolding store
store_at false n i c buf j = refl
store_at true n i c buf j = elim (Bool-cases (ltb i n)) [ inl e ↦ rw e | inr e ↦ rw e ]

store_swap :
    (out : Bool) (n i k d c : ℕ) (buf : ℕ → ℕ)
    → i < k
    → store out n i d (store out n k c buf) ≡ store out n k c (store out n i d buf)
store_swap out n i k d c buf h = fun_ext (λ j. ground (
  arith,
  store_at out n i d (store out n k c buf) j,
  store_at out n k c buf j,
  store_at out n k c (store out n i d buf) j,
  store_at out n i d buf j,
))

module _ (out : Bool) (n : ℕ) where
  -- The bytes of the text go to the indices from `i` on, as far as these lie below `n`.
  unfoldable pub put : List ℕ → ℕ → (ℕ → ℕ) → ℕ → ℕ
  put [] i buf = buf
  put (c ∷ cs) i buf = put cs (i + 1) (store out n i c buf)

  pub put-append :
      (cs ds : List ℕ) (i : ℕ) (buf : ℕ → ℕ)
      → put (cs ++ ds) i buf ≡ put ds (i + length cs) (put cs i buf)
  unfolding put
  put-append [] ds i buf = ap (λ (k : ℕ). put ds k buf) (omega arith)
  put-append (c ∷ cs) ds i buf =
      put-append cs ds (i + 1) (store out n i c buf)
      ∙ ap (λ (k : ℕ). put ds k (put cs (i + 1) (store out n i c buf))) (omega arith)

  -- A write after the text may be made before it.
  put-store :
      (cs : List ℕ) (i k c : ℕ) (buf : ℕ → ℕ)
      → i + length cs ≤ k
      → put cs i (store out n k c buf) ≡ store out n k c (put cs i buf)
  unfolding put
  put-store [] i k c buf h = refl
  put-store (d ∷ cs) i k c buf h =
      ap (λ (g : ℕ → ℕ). put cs (i + 1) g) (store_swap out n i k d c buf (omega arith))
      ∙ put-store cs (i + 1) k c (store out n i d buf) (omega arith)

  -- Index by index.
  pub put_lem :
      (cs : List ℕ) (i : ℕ) (buf : ℕ → ℕ) (j : ℕ)
      → put cs i buf j ≡ (
          if out && (leb i j && (ltb j (i + length cs) && ltb j n))
          then get_or cs (j - i) 0
          else buf j)
  unfolding put
  put_lem [] i buf j = ground arith
  put_lem (c ∷ cs) i buf j = elim (eq_or_ne i j) [
    | inl e ↦ rw (← e) (
        ground (
          arith,
          put_lem cs (i + 1) (store out n i c buf) i,
          store_at out n i c buf i,
          zero_get c cs i,
        ))
    | inr e ↦ ground (
      arith,
      put_lem cs (i + 1) (store out n i c buf) j,
      store_at out n i c buf j,
      next_get c cs i j,
    )
  ]

  -- `emit_string` writes its text and counts it.
  pub emit_string-put :
      (cs : List ℕ) (s : State)
      → s.pos + length cs < 2 ^ 32
      → emit_string out n cs s ≡ record s { pos = s.pos + length cs; buf = put cs s.pos s.buf }
  unfolding emit_string put
  emit_string-put [] s h = ap (λ (k : ℕ). record s { pos = k }) (omega arith)
  emit_string-put (c ∷ cs) s h =
      let e : u32 (s.pos + 1) ≡ s.pos + 1 = omega arith in
      rw e (
        emit_string-put cs (record s { pos = s.pos + 1; buf = store out n s.pos c s.buf })
          (omega arith)
        ∙ ap (λ (k : ℕ). record s { pos = k; buf = put cs (s.pos + 1) (store out n s.pos c s.buf) })
            (omega arith))

  -- The case 'x' is the text of its digits.
  pub emit_hex-emit_string :
      (i w : ℕ) (s : State) → emit_hex out n i w s ≡ emit_string out n (hex_text i w) s
  unfolding emit_hex emit_string hex_text
  emit_hex-emit_string zero w s = refl
  emit_hex-emit_string (suc i) w s =
      emit_hex-emit_string i w (emit out n (hex_digit (w / 2 ^ (4 * i) % 16)) s)

  -- The digits that the case 'd' stores from the right are those of the text.
  store_digits-put :
      (i m pos : ℕ) (buf : ℕ → ℕ)
      → pos + i < 2 ^ 32
      → store_digits out n i m pos buf ≡ put (digits_text i m) pos buf
  unfolding store_digits put digits_text
  store_digits-put zero m pos buf h = refl
  store_digits-put (suc i) m pos buf h =
      let e : u32 (pos + i) ≡ pos + i = omega arith in
      rw e (
        store_digits-put i (m / 10) pos (store out n (pos + i) (b'0' + m % 10) buf) (omega arith)
        ∙ put-store (digits_text i (m / 10)) pos (pos + i) (b'0' + m % 10) buf
            (omega (arith, length-digits_text i (m / 10)))
        ∙ sym (
            put-append (digits_text i (m / 10)) ((b'0' + m % 10) ∷ []) pos buf
            ∙ ap (λ (k : ℕ). store out n k (b'0' + m % 10) (put (digits_text i (m / 10)) pos buf))
                (ap (λ (k : ℕ). pos + k) (length-digits_text i (m / 10)))))

  pub emit_magnitude-put :
      (m : ℕ) (s : State)
      → s.pos + length (magnitude_text m) < 2 ^ 32
      → emit_magnitude out n m s ≡ record s {
        pos = s.pos + length (magnitude_text m);
        buf = put (magnitude_text m) s.pos s.buf;
      }
  unfolding emit_magnitude
  emit_magnitude-put m s h =
      let digits : ℕ = count_digits max_digits m in
      let e : length (magnitude_text m) ≡ digits = length-digits_text digits m in
      let small : u32 (s.pos + digits) ≡ s.pos + length (magnitude_text m) = omega arith in
      rw (small, store_digits-put digits m s.pos s.buf (omega arith))
