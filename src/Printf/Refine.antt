-- ===== src/Printf/Refine.antt =====
-- `lib_vsnprintf` and `lib_vprintf` produce the text that the format string means.
use mini_riscv_os.Common.{
  ℕ, ◌+◌, ◌-◌, ◌^◌, ◌<◌, ◌≡◌, refl, ap, ◌∙◌, sym, Bool, true, false, ◌&&◌, Option, some, List, [],
  ◌∷◌, ◌++◌, ltb, ◌==◌, if◌then◌else◌, length, length-append, get_or, arith, min, subst,
}
use mini_riscv_os.Console.{Arg}
use mini_riscv_os.Printf.{State, step, loop, terminate, lib_vsnprintf}
use mini_riscv_os.Printf.Text.{render, render_cons}
use mini_riscv_os.Printf.Buffer.{put, put-append, put_lem}
use mini_riscv_os.Printf.Convert.{Emits, Converts-some, step-Converts}

module _ (out : Bool) (n : ℕ) where
  -- The text is written, and counted, by the loop.
  abbrev Loops : List ℕ → State → Option State → Type 0
  Loops t s r =
      (s' : State) × (r ≡ some s')
      × (s'.pos ≡ s.pos + length t)
      × (s'.buf ≡ put out n t s.pos s.buf)

  join :
      (t rest : List ℕ) {f : Bool} {s s1 : State} {r : Option State}
      → Emits out n t f s s1
      → Loops rest s1 r
      → Loops (t ++ rest) s r
  join t rest {s} {s1} em (s', run, p, b) = (
    s',
    run,
    omega (arith, em.pos, length-append t rest),
    b
        ∙ ap (λ (k : ℕ). put out n rest k s1.buf) em.pos
        ∙ ap (λ (g : ℕ → ℕ). put out n rest (s.pos + length t) g) em.buf
        ∙ sym (put-append out n t rest s.pos s.buf),
  )

  loop_cons :
      (c : ℕ) (cs : List ℕ) (args args' : List Arg) (s s1 : State)
      → step out n c args s ≡ some (s1, args')
      → loop out n (c ∷ cs) args s ≡ loop out n cs args' s1
  unfolding loop
  loop_cons c cs args args' s s1 run = rw (loop, run)

  loop_nil : (s : State) {text : List ℕ} → [] ≡ text → Loops text s (some s)
  unfolding put
  loop_nil s e = subst (λ (l : List ℕ). Loops l s (some s)) e (s, refl, omega arith, refl)

  loop_lem :
      (fmt : List ℕ) (args : List Arg) (s : State) {text : List ℕ}
      → render s.format fmt args ≡ some text
      → s.pos + length text < 2 ^ 32
      → Loops text s (loop out n fmt args s)
  unfolding loop
  loop_lem [] args s e h = loop_nil s (unfold render in cc)
  loop_lem (c ∷ cs) args s e h =
      let sp = render_cons s.format c cs args e in
      let size = length-append {0} sp.t sp.rest in
      let total = ap (λ (l : List ℕ). length l) sp.joined in
      let (s1, run, em) =
        Converts-some out n (step-Converts out n c args s) sp.piece (omega arith) in
      subst (λ (l : List ℕ). Loops l s (loop out n (c ∷ cs) args s)) sp.joined
        (join sp.t sp.rest em (
          subst (λ (r : Option State). Loops sp.rest s1 r)
            (sym (loop_cons c cs args sp.args' s s1 run))
            (loop_lem cs sp.args' s1 (rw em.open_after sp.tail) (omega (arith, em.pos)))))

-- The buffer after `lib_vsnprintf(out, n, …)` has made the text: its first `n - 1` bytes at most, a
-- NUL behind them, and the rest as it was.
abbrev pub filled : ℕ → List ℕ → (ℕ → ℕ) → ℕ → ℕ
filled n text buf j =
    if ltb j (min (length text) (n - 1))
    then get_or text j 0
    else if ltb 0 n && j == min (length text) (n - 1)
    then 0
    else buf j

terminate_pos : (out : Bool) (n : ℕ) (s : State) → (terminate out n s).0 ≡ s.pos
unfolding terminate
terminate_pos out n s = refl

put_front :
    (n : ℕ) (text : List ℕ) (buf : ℕ → ℕ) (j : ℕ)
    → put true n text 0 buf j ≡ (if ltb j (length text) && ltb j n then get_or text j 0 else buf j)
put_front n text buf j =
    let start : j - 0 ≡ j = omega arith in
    let front : 0 + length text ≡ length text = omega arith in
    put_lem true n text 0 buf j ∙ (rw (start, front) (ground arith))

-- The NUL goes behind the text, or over the last byte of the buffer.
close_at :
    (n len j a b : ℕ)
    → (if ltb len n
        then (if len == j then 0 else (if ltb j len && ltb j n then a else b))
        else if ltb 0 n
        then (if n - 1 == j then 0 else (if ltb j len && ltb j n then a else b))
        else (if ltb j len && ltb j n then a else b))
      ≡ (if ltb j (min len (n - 1)) then a else if ltb 0 n && j == min len (n - 1) then 0 else b)
close_at n len j a b = ground arith

terminate_at :
    (n : ℕ) (s : State) (j : ℕ)
    → (terminate true n s).1 j ≡ (
        if ltb s.pos n
        then (if s.pos == j then 0 else s.buf j)
        else if ltb 0 n
        then (if n - 1 == j then 0 else s.buf j)
        else s.buf j)
unfolding terminate
terminate_at n s j = ground arith

terminate_buf :
    (n : ℕ) (text : List ℕ) (buf : ℕ → ℕ) (s : State)
    → s.pos ≡ length text
    → s.buf ≡ put true n text 0 buf
    → (j : ℕ) → (terminate true n s).1 j ≡ filled n text buf j
terminate_buf n text buf s p b j =
    terminate_at n s j
    ∙ rw (p, ap (λ (g : ℕ → ℕ). g j) b, put_front n text buf j)
        (close_at n (length text) j (get_or text j 0) (buf j))

abbrev pub start : (ℕ → ℕ) → State
start buf = record { format = false; longarg = false; pos = 0; buf = buf }

vsnprintf_some :
    (out : Bool) (n : ℕ) (fmt : List ℕ) (args : List Arg) (buf : ℕ → ℕ) (s : State)
    → loop out n fmt args (start buf) ≡ some s
    → lib_vsnprintf out n fmt args buf ≡ some (terminate out n s)
unfolding lib_vsnprintf
vsnprintf_some out n fmt args buf s e = rw (lib_vsnprintf, e)

-- When the format and its arguments mean a text of fewer than 2 ^ 32 bytes, which no format with %c
-- does, `lib_vsnprintf` into a buffer of `n` bytes returns the length of the whole text, and leaves in
-- the buffer as many of its bytes as fit before a final NUL, and the other bytes as they were.
pub lib_vsnprintf-filled :
    (n : ℕ) (fmt : List ℕ) (args : List Arg) (buf : ℕ → ℕ) {text : List ℕ}
    → render false fmt args ≡ some text
    → length text < 2 ^ 32
    → (buf' : ℕ → ℕ) × (lib_vsnprintf true n fmt args buf ≡ some (length text, buf'))
      × ((j : ℕ) → buf' j ≡ filled n text buf j)
lib_vsnprintf-filled n fmt args buf {text} e h =
    let (s, run, p, b) = loop_lem true n fmt args (start buf) e (omega arith) in
    let p' : s.pos ≡ length text = omega (arith, p) in
    (
      (terminate true n s).1,
      vsnprintf_some true n fmt args buf s run
          ∙ ap (λ (k : ℕ). some (k, (terminate true n s).1)) (terminate_pos true n s ∙ p'),
      terminate_buf n text buf s p' b,
    )

-- The first pass of `lib_vprintf`, over a NULL buffer, measures the text.
pub lib_vsnprintf-length :
    (n : ℕ) (fmt : List ℕ) (args : List Arg) (buf : ℕ → ℕ) {text : List ℕ}
    → render false fmt args ≡ some text
    → length text < 2 ^ 32
    → (buf' : ℕ → ℕ) × (lib_vsnprintf false n fmt args buf ≡ some (length text, buf'))
lib_vsnprintf-length n fmt args buf {text} e h =
    let (s, run, p, b) = loop_lem false n fmt args (start buf) e (omega arith) in
    let p' : s.pos ≡ length text = omega (arith, p) in
    (
      (terminate false n s).1,
      vsnprintf_some false n fmt args buf s run
          ∙ ap (λ (k : ℕ). some (k, (terminate false n s).1)) (terminate_pos false n s ∙ p'),
    )
