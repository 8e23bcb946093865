-- ===== src/Printf/Convert.antt =====
-- One round of the loop of `lib_vsnprintf` writes the piece that its character means.
use mini_riscv_os.Common.{
  ℕ, suc, ◌+◌, ◌-◌, ◌*◌, ◌^◌, ◌<◌, ◌≡◌, refl, ap, ◌∙◌, Bool, true, false, Option, none, some, List,
  [], ◌∷◌, ltb, ◌==◌, if◌then◌else◌, u32, length, arith, inl, inr, Bool-cases, subst,
}
use mini_riscv_os.Console.{Arg, int, str}
use mini_riscv_os.Printf.{
  State, Conversion, length_mark, pointer, hex, decimal, string, char, other, conversion, store,
  emit, emit_hex, emit_string, emit_magnitude, emit_decimal, leave, leave_with, convert, step,
}
use mini_riscv_os.Printf.Text.{
  hex_text, magnitude_text, decimal_text, Piece, closed, convert_text, step_text,
}
use mini_riscv_os.Printf.Buffer.{put, emit_string-put, emit_hex-emit_string, emit_magnitude-put}

module _ (out : Bool) (n : ℕ) where
  -- The state after a text, with a conversion open or not.
  pub record Emits (t : List ℕ) (format : Bool) (s s' : State) : Type 0 where
    pub open_after : s'.format ≡ format
    pub pos : s'.pos ≡ s.pos + length t
    pub buf : s'.buf ≡ put out n t s.pos s.buf

  emitted :
      (t : List ℕ) (format : Bool) (s : State) {s' : State}
      → s.pos + length t < 2 ^ 32
      → s'.format ≡ format
      → s'.pos ≡ (emit_string out n t s).pos
      → s'.buf ≡ (emit_string out n t s).buf
      → Emits t format s s'
  emitted t format s h f p b = record {
    open_after = f;
    pos = p ∙ ap (λ (x : State). x.pos) (emit_string-put out n t s h);
    buf = b ∙ ap (λ (x : State). x.buf) (emit_string-put out n t s h);
  }

  pub Converts : Option (State × List Arg) → State → Option Piece → Type 0
  Converts r s none = Unit {0}
  Converts r s (some (t, format, args)) =
      s.pos + length t < 2 ^ 32 → (s' : State) × (r ≡ some (s', args)) × Emits t format s s'

  hex_Emits :
      (k w : ℕ) (s : State)
      → k ≡ 8
      → s.pos + length (hex_text 8 w) < 2 ^ 32
      → Emits (hex_text 8 w) false s (leave out n (emit_hex out n k w s))
  hex_Emits k w s e h =
      let same : emit_hex out n k w s ≡ emit_string out n (hex_text 8 w) s =
        ap (λ (t : ℕ). emit_hex out n t w s) e ∙ emit_hex-emit_string out n 8 w s in
      emitted (hex_text 8 w) false s h refl (ap (λ (x : State). x.pos) same)
        (ap (λ (x : State). x.buf) same)

  magnitude_Emits :
      (m : ℕ) (s : State)
      → s.pos + length (magnitude_text m) < 2 ^ 32
      → Emits (magnitude_text m) false s (leave out n (emit_magnitude out n m s))
  magnitude_Emits m s h = record {
    open_after = refl;
    pos = ap (λ (x : State). x.pos) (emit_magnitude-put out n m s h);
    buf = ap (λ (x : State). x.buf) (emit_magnitude-put out n m s h);
  }

  pointer_Emits :
      (w : ℕ) (s : State)
      → s.pos + suc (suc (length (hex_text 8 w))) < 2 ^ 32
      → Emits (b'0' ∷ b'x' ∷ hex_text 8 w) false s (
          leave out n
            (emit_hex out n 8 w (emit out n b'x' (emit out n b'0' (record s { longarg = true })))))
  unfolding emit_string emit_hex hex_text
  pointer_Emits w s h = emitted (b'0' ∷ b'x' ∷ hex_text 8 w) false s h refl refl refl

  negative_Emits :
      (m : ℕ) (s : State)
      → s.pos + suc (length (magnitude_text m)) < 2 ^ 32
      → Emits
          (b'-' ∷ magnitude_text m)
          false
          s
          (leave out n (emit_magnitude out n m (emit out n b'-' s)))
  unfolding emit put
  negative_Emits m s h =
      let e : u32 (s.pos + 1) ≡ s.pos + 1 = omega arith in
      let after : Emits (magnitude_text m) false (emit out n b'-' s)
          (leave out n (emit_magnitude out n m (emit out n b'-' s))) =
        magnitude_Emits m (emit out n b'-' s) (omega arith) in
      record {
        open_after = refl;
        pos = omega (arith, after.pos);
        buf =
            after.buf
            ∙ ap (λ (k : ℕ). put out n (magnitude_text m) k (store out n s.pos b'-' s.buf)) e;
      }

  decimal_Converts :
      (w : ℕ) (args : List Arg) (s : State)
      → Converts (leave_with out n args (emit_decimal out n w s)) s (closed (decimal_text w) args)
  unfolding Converts closed decimal_text leave_with emit_decimal
  decimal_Converts w args s = elim (Bool-cases (ltb w (2 ^ 31))) [
    | inl pos ↦ rw pos (λ h. (_, refl, magnitude_Emits w s h))
    | inr neg ↦ rw neg (elim (Bool-cases (w == 2 ^ 31)) [
      | inl least ↦ rw least tt
      | inr others ↦ rw others (λ h. (_, refl, negative_Emits (2 ^ 32 - w) s h))
    ])
  ]

  convert-Converts :
      (c : Conversion) (args : List Arg) (s : State)
      → s.format ≡ true
      → Converts (convert out n c args s) s (convert_text c args)
  unfolding convert convert_text Converts emit_string
  convert-Converts length_mark args s e =
      λ h. (record s { longarg = true }, refl, emitted [] true s h e refl refl)
  convert-Converts pointer [] s e = tt
  convert-Converts pointer (str cs ∷ args) s e = tt
  convert-Converts pointer (int w ∷ args) s e = λ h. (_, refl, pointer_Emits w s h)
  convert-Converts hex [] s e = tt
  convert-Converts hex (str cs ∷ args) s e = tt
  convert-Converts hex (int w ∷ args) s e =
      λ h. (_, refl, hex_Emits (2 * (if s.longarg then 4 else 4)) w s (ground arith) h)
  convert-Converts decimal [] s e = tt
  convert-Converts decimal (str cs ∷ args) s e = tt
  convert-Converts decimal (int w ∷ args) s e = decimal_Converts w args s
  convert-Converts string [] s e = tt
  convert-Converts string (int w ∷ args) s e = tt
  convert-Converts string (str cs ∷ args) s e = λ h. (_, refl, emitted cs false s h refl refl refl)
  convert-Converts char args s e = tt
  convert-Converts other args s e = λ h. (s, refl, emitted [] true s h e refl refl)

  step_case :
      (c : ℕ) (args : List Arg) (s : State) (f : Bool)
      → s.format ≡ f
      → Converts
          (if f
            then convert out n (conversion c) args s
            else if c == b'%'
            then some (record s { format = true }, args)
            else some (emit out n c s, args))
          s
          (step_text f c args)
  unfolding step_text Converts emit_string
  step_case c args s true e = convert-Converts (conversion c) args s e
  step_case c args s false e = elim (Bool-cases (c == b'%')) [
    | inl mark ↦ rw mark (λ h. (_, refl, emitted [] true s h refl refl refl))
    | inr plain ↦ rw plain (λ h. (_, refl, emitted (c ∷ []) false s h e refl refl))
  ]

  pub step-Converts :
      (c : ℕ) (args : List Arg) (s : State)
      → Converts (step out n c args s) s (step_text s.format c args)
  unfolding step
  step-Converts c args s = step_case c args s s.format refl

  pub Converts-some :
      {r : Option (State × List Arg)} {s : State} {p : Option Piece} {t : List ℕ} {f : Bool}
      {args : List Arg}
      → Converts r s p
      → p ≡ some (t, f, args)
      → s.pos + length t < 2 ^ 32
      → (s' : State) × (r ≡ some (s', args)) × Emits t f s s'
  unfolding Converts
  Converts-some {r} {s} c e = subst (λ (q : Option Piece). Converts r s q) e c
