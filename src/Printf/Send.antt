-- ===== src/Printf/Send.antt =====
-- `lib_printf` of 10-SystemCall/src/lib.c on a UART, and what a list of the kernel's calls of
-- `lib_puts` and `lib_printf` sends.
mod Tests
use mini_riscv_os.Common.{
  ℕ, ◌+◌, ◌^◌, ◌≤◌, ◌<◌, ◌≡◌, refl, sym, ap, ◌∙◌, some, List, [], ◌∷◌, ◌++◌, map, map-append, Run,
  ok, panic, hang, codes, u8, length, arith, String, false, Bool-cases, inl, inr, ◌==◌,
}
use mathlib.Core.List.{append-nil, append_assoc}
use mini_riscv_os.Console.{Arg, Call, puts, printf}
use mini_riscv_os.Printf.{Printed, printed, overflow, undefined, lib_vprintf, out_size}
use mini_riscv_os.Printf.Text.{render}
use mini_riscv_os.Printf.Print.{until_nul, lib_vprintf-printed, lib_vprintf-overflow}
use mini_riscv_os.Uart.{Device, lib_puts}
use mini_riscv_os.Uart.Transmit.{IsTransmitter, lib_puts-sends}

-- How `lib_printf` ends: it returns a length, with the new `out_buf`; it loops after the message of
-- the overflow, `while (1)`; `lib_putc` waits when the fuel runs out; or it is undefined.
pub data Ended (S : Type 0) : Type 0 where
  returned : ℕ → (ℕ → ℕ) → S → Ended S
  looping : S → Ended S
  waiting : Ended S
  unspecified : Ended S

unfoldable pub after_puts : {S : Type 0} → (S → Ended S) → Run S → Ended S
after_puts k (ok s) = k s
after_puts k (panic m) = waiting
after_puts k hang = waiting

module _ (u : Device) (fuel : ℕ) where
  -- The calls of `lib_puts` in `lib_vprintf`.
  unfoldable pub put_printed : Printed → u.State → Ended u.State
  put_printed (printed cs res buf) s = after_puts (returned res buf) (lib_puts u fuel cs s)
  put_printed (overflow cs) s = after_puts looping (lib_puts u fuel cs s)
  put_printed undefined s = unspecified

  unfoldable pub lib_printf : List ℕ → List Arg → (ℕ → ℕ) → u.State → Ended u.State
  unfolding put_printed
  lib_printf fmt args buf s = put_printed (lib_vprintf fmt args buf) s

  -- One call of the kernel. `lib_puts` leaves `out_buf` alone.
  unfoldable pub make_call : Call → (ℕ → ℕ) → u.State → Ended u.State
  make_call (puts s) buf d = after_puts (returned 0 buf) (lib_puts u fuel (codes s) d)
  make_call (printf s args) buf d = lib_printf (codes s) args buf d

  -- The calls one after the other; the last result is 0.
  unfoldable pub make_calls : List Call → (ℕ → ℕ) → u.State → Ended u.State
  make_calls [] buf d = returned 0 buf d
  make_calls (c ∷ cs) buf d = elim (make_call c buf d) [
    | returned res buf' d' ↦ make_calls cs buf' d'
    | looping d' ↦ looping d'
    | waiting ↦ waiting
    | unspecified ↦ unspecified
  ]

-- The bytes that a call is to send: those of a string, or of the text of a format, to the first NUL.
pub data IsSent : Call → List ℕ → Type 0 where
  of_puts : (s : String) → IsSent (puts s) (until_nul (codes s))
  of_printf :
      (s : String) (args : List Arg) (text : List ℕ)
      → render false (codes s) args ≡ some text
      → length text + 1 < out_size
      → IsSent (printf s args) (until_nul text)

-- The bytes of the calls, in order.
pub data AreSent : List Call → List ℕ → Type 0 where
  done : AreSent [] []
  next :
      {c : Call} {cs : List Call} {bytes rest : List ℕ}
      → IsSent c bytes
      → AreSent cs rest
      → AreSent (c ∷ cs) (bytes ++ rest)

until_nul_twice : (cs : List ℕ) → until_nul (until_nul cs) ≡ until_nul cs
until_nul_twice [] = refl
until_nul_twice (c ∷ cs) = ground (arith, until_nul_twice cs)

module _ {u : Device} {sent : u.State → List ℕ} {busy : u.State → ℕ} {limit : ℕ}
    (t : IsTransmitter u sent busy limit) (fuel : ℕ) (enough : limit < fuel) where
  -- To a UART that becomes ready in time, `lib_printf` sends the text that a format without %c means,
  -- of fewer than 999 bytes, up to its first NUL, and returns its length.
  pub lib_printf-sends :
      (fmt : List ℕ) (args : List Arg) (buf : ℕ → ℕ) (s : u.State) {text : List ℕ}
      → render false fmt args ≡ some text
      → length text + 1 < out_size
      → (buf' : ℕ → ℕ) × (s' : u.State) × (lib_printf u fuel fmt args buf s
          ≡ returned (length text) buf' s')
        × (sent s' ≡ sent s ++ map u8 (until_nul text))
  unfolding lib_printf put_printed after_puts
  lib_printf-sends fmt args buf s {text} e short =
      let (buf', run) = lib_vprintf-printed fmt args buf e short in
      let (s', put, out) = lib_puts-sends t fuel (until_nul text) s enough in
      (
        buf',
        s',
        rw (run, put),
        out ∙ ap (λ (l : List ℕ). sent s ++ map u8 l) (until_nul_twice text),
      )

  -- The text of a format without %c, of 999 bytes or more, whose length and NUL fit into 32 bits, is
  -- not sent: the message of
  -- the overflow is, to a UART that becomes ready in time, and the call does not return.
  pub lib_printf-loops :
      (fmt : List ℕ) (args : List Arg) (buf : ℕ → ℕ) (s : u.State) {text : List ℕ}
      → render false fmt args ≡ some text
      → out_size ≤ length text + 1
      → length text + 1 < 2 ^ 32
      → (s' : u.State) × (lib_printf u fuel fmt args buf s ≡ looping s')
        × (sent s' ≡ sent s ++ map u8 (codes "error: lib_vprintf() output string size overflow\n"))
  unfolding lib_printf put_printed after_puts
  lib_printf-loops fmt args buf s {text} e long small =
      let (s', put, out) =
        lib_puts-sends t fuel (codes "error: lib_vprintf() output string size overflow\n") s
          enough in
      (s', rw (lib_vprintf-overflow fmt args buf e long small, put), out)

  make_call-sends :
      {c : Call} {bytes : List ℕ} (buf : ℕ → ℕ) (s : u.State)
      → IsSent c bytes
      → (res : ℕ) × (buf' : ℕ → ℕ) × (s' : u.State) × (make_call u fuel c buf s
          ≡ returned res buf' s')
        × (sent s' ≡ sent s ++ map u8 bytes)
  unfolding make_call after_puts
  make_call-sends buf s (of_puts text) =
      let (s', put, out) = lib_puts-sends t fuel (codes text) s enough in (0, buf, s', rw put, out)
  make_call-sends buf s (of_printf fmt args text e short) =
      let (buf', s', run, out) = lib_printf-sends (codes fmt) args buf s e short in
      (length text, buf', s', run, out)

  -- Calls whose formats have a text of fewer than 999 bytes all return, and send their strings and
  -- texts, each to its first NUL, in the order of the calls.
  pub make_calls-sends :
      {cs : List Call} {bytes : List ℕ} (buf : ℕ → ℕ) (s : u.State)
      → AreSent cs bytes
      → (buf' : ℕ → ℕ) × (s' : u.State) × (make_calls u fuel cs buf s ≡ returned 0 buf' s')
        × (sent s' ≡ sent s ++ map u8 bytes)
  unfolding make_calls
  make_calls-sends buf s done = (buf, s, refl, sym (append-nil (sent s)))
  make_calls-sends buf s (next {c} {cs} {bytes} {rest} one more) =
      let (res, buf1, s1, run1, out1) = make_call-sends buf s one in
      let (buf2, s2, run2, out2) = make_calls-sends buf1 s1 more in
      (
        buf2,
        s2,
        rw (make_calls, run1) run2,
        rw (out2, out1, map-append u8 bytes rest)
            (append_assoc (sent s) (map u8 bytes) (map u8 rest)),
      )
