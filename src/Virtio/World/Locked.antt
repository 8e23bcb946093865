-- ===== src/Virtio/World/Locked.antt =====
-- What a step at the lock leaves alone, and who is inside after it.
use mini_riscv_os.Common.{
  ℕ, ◌≡◌, refl, sym, ap, ◌∙◌, subst, ◌⊎◌, inl, inr, false, update, update_self, update_ne, arith,
  eq_or_ne,
}
use mini_riscv_os.Virtio.{Disk}
use mini_riscv_os.Virtio.Request.{
  locked, Addresses, Driver, Phase, acquiring, holding, waiting, returned,
}
use mini_riscv_os.Virtio.Chain.{IsChain-same, HasThree}
use mini_riscv_os.Virtio.World.{Request}
use mini_riscv_os.Virtio.World.Invariant.{
  inside, IsQuiet, Stage, sent, done, released, IsBusy, OnlyInside,
}

pub outside_cases : (p : Phase) → inside p ≡ false → (p ≡ acquiring) ⊎ (p ≡ returned)
outside_cases acquiring e = inl refl
outside_cases holding e = cc
outside_cases (waiting i0) e = cc
outside_cases returned e = inr refl

-- Only caller `t` is inside, also after another caller's phase has become one outside.
pub OnlyInside-update :
    (phase : ℕ → Phase) {t : ℕ} (v : ℕ) (p : Phase)
    → inside p ≡ false
    → OnlyInside phase t
    → OnlyInside (update phase v p) t
OnlyInside-update phase v p e only j ne = elim (eq_or_ne v j) [
  | inl same ↦
      subst (λ (i : ℕ). inside (update phase v p i) ≡ false) same
        (ap inside (update_self phase v p) ∙ e)
  | inr other ↦ ap inside (update_ne phase v j p other) ∙ only j ne
]

pub Stage-locked : {i0 b : ℕ} {s : Driver} → Stage i0 b s → Stage i0 b (locked s)
Stage-locked (sent p q r u) = sent p q r u
Stage-locked (done p q r u v) = done p q r u v
Stage-locked (released p q r) = released p q r

pub IsBusy-locked :
    {a : Addresses} {r : Request} {i0 i1 i2 : ℕ} {s : Driver}
    → IsBusy a r i0 i1 i2 s
    → IsBusy a r i0 i1 i2 (locked s)
IsBusy-locked b = record {
  chain = IsChain-same (λ j. refl) (λ j. refl) refl b.chain;
  others = b.others;
  stage = Stage-locked b.stage;
  seen_small = b.seen_small;
  made_small = b.made_small;
}

pub IsQuiet-locked : (s : Driver) → IsQuiet s.disk → IsQuiet (locked s).disk
IsQuiet-locked s q = record { seen = q.seen; answered = q.answered; small = q.small; free = q.free }

pub IsQuiet-HasThree : {d : Disk} → IsQuiet d → HasThree d
IsQuiet-HasThree q = record {
  j0 = 0;
  j1 = 1;
  j2 = 2;
  low = omega arith;
  middle = omega arith;
  high = omega arith;
  free0 = q.free 0 (omega arith);
  free1 = q.free 1 (omega arith);
  free2 = q.free 2 (omega arith);
}

pub OnlyInside-own :
    (phase : ℕ → Phase) (t : ℕ) (p : Phase) → OnlyInside phase t → OnlyInside (update phase t p) t
OnlyInside-own phase t p only v ne = ap inside (update_ne phase t v p (λ h. ne (sym h))) ∙ only v ne

-- Once `t` has returned, nobody is inside.
pub OnlyInside-none :
    (phase : ℕ → Phase) (t : ℕ)
    → OnlyInside phase t
    → (v : ℕ) → inside (update phase t returned v) ≡ false
OnlyInside-none phase t only v = elim (eq_or_ne v t) [
  | inl same ↦
      subst (λ (i : ℕ). inside (update phase t returned i) ≡ false) (sym same)
        (ap inside (update_self phase t returned))
  | inr other ↦ OnlyInside-own phase t returned only v other
]
