-- ===== src/Common/Effects.antt =====
-- How a call of the kernel ends: it returns, it stops in `panic` with a message, or its loop is
-- still turning when the fuel runs out.
use Prim.Native.String.{String}
use mathlib.Core.Bool.{Bool, true, false}
use mini_riscv_os.Common.Tests.{if◌then◌else◌}

pub data Run {ℓ} (A : Type ℓ) : Type ℓ where
  ok : A → Run A
  panic : String → Run A
  hang : Run A

module _ {ℓ κ} {A : Type ℓ} {B : Type κ} where
  infixl 5 ◌>>=◌
  abbrev pub ◌>>=◌ : Run A → (A → Run B) → Run B
  ok a >>= f = f a
  panic s >>= f = panic s
  hang >>= f = hang

-- If the run returns, the result is as `P` says.
module _ {ℓ} {A : Type ℓ} (P : A → Type 0) where
  abbrev pub Ensures : Run A → Type 0
  Ensures (ok a) = P a
  Ensures (panic s) = Unit {0}
  Ensures hang = Unit {0}

  pub if_Ensures :
      (b : Bool) (r r' : Run A) → Ensures r → Ensures r' → Ensures (if b then r else r')
  if_Ensures true r r' p q = p
  if_Ensures false r r' p q = q

pub Ensures-bind {ℓ κ} :
    {A : Type ℓ} {B : Type κ} (P : A → Type 0) (Q : B → Type 0) (r : Run A) (f : A → Run B)
    → Ensures P r
    → ((a : A) → P a → Ensures Q (f a))
    → Ensures Q (r >>= f)
Ensures-bind P Q (ok a) f p next = next a p
Ensures-bind P Q (panic s) f p next = tt
Ensures-bind P Q hang f p next = tt
