-- ===== src/Virtio/World/Transfer.antt =====
-- A submitted request makes the driver busy, and the end of the call makes it quiet.
use mini_riscv_os.Common.{
  ℕ, ◌+◌, ◌%◌, ◌^◌, ◌<◌, ◌≡◌, ◌≢◌, sym, ap, ◌∙◌, ◌⊎◌, inl, inr, arith, eq_or_ne, u16,
}
use mini_riscv_os.Virtio.{num, VirtqUsed, VirtqAvail}
use mini_riscv_os.Virtio.Request.{Addresses, Driver}
use mini_riscv_os.Virtio.Chain.{Submitted}
use mini_riscv_os.Virtio.Finish.{Finished}
use mini_riscv_os.Virtio.World.{Request}
use mini_riscv_os.Virtio.World.Invariant.{IsQuiet, sent, IsBusy}

module _ (a : Addresses) (req : ℕ → Request) where
  pub Submitted-IsBusy :
      {t i0 i1 i2 : ℕ} {s s' : Driver}
      → IsQuiet s.disk
      → Submitted a (req t).buffer (req t).write s i0 i1 i2 s'
      → IsBusy a (req t) i0 i1 i2 s'
  Submitted-IsBusy {s} {s'} q sub =
      let made : s'.disk.used.idx ≡ s.disk.used.idx = ap (λ (u : VirtqUsed). u.idx) sub.used.0 in
      let slot : s.disk.avail.idx ≡ s'.disk.used.idx = q.answered ∙ sym made in
      record {
        chain = sub.chain;
        others = λ j lt n0 n1 n2 e. q.free j lt (sym (sub.others j n0 n1 n2) ∙ e);
        stage =
            sent (sub.used.1 ∙ q.seen ∙ sym made) (sub.published ∙ ap (λ (k : ℕ). u16 (k + 1)) slot)
              (ap (λ (k : ℕ). s'.disk.avail.ring (k % num)) (sym slot) ∙ sub.entry) sub.pending;
        seen_small = omega (arith, q.small, q.seen, sub.used.1);
        made_small = omega (arith, q.small, made);
      }

  pub Finished-IsQuiet :
      {i0 i1 i2 : ℕ} {s s' : Driver}
      → ((j : ℕ) → j < num → j ≢ i0 → j ≢ i1 → j ≢ i2 → s.disk.free j ≢ 0)
      → s.disk.used_idx ≡ s.disk.used.idx
      → s.disk.avail.idx ≡ s.disk.used.idx
      → s.disk.used.idx < 2 ^ 16
      → Finished i0 i1 i2 s s'
      → IsQuiet s'.disk
  Finished-IsQuiet {i0} {i1} {i2} {s} {s'} others seen answered small f =
      let made : s'.disk.used.idx ≡ s.disk.used.idx = ap (λ (u : VirtqUsed). u.idx) f.rings.1 in
      let asked : s'.disk.avail.idx ≡ s.disk.avail.idx = ap (λ (u : VirtqAvail). u.idx) f.rings.0 in
      record {
        seen = f.seen ∙ seen ∙ sym made;
        answered = asked ∙ answered ∙ sym made;
        small = omega (arith, made, small);
        free = λ j lt. freed_or_other j lt (eq_or_ne j i0) (eq_or_ne j i1) (eq_or_ne j i2);
      }
    where
      freed_or_other :
          (j : ℕ)
          → j < num
          → (j ≡ i0) ⊎ (j ≢ i0)
          → (j ≡ i1) ⊎ (j ≢ i1)
          → (j ≡ i2) ⊎ (j ≢ i2)
          → s'.disk.free j ≢ 0
      freed_or_other j lt (inl e) c1 c2 = omega (arith, f.freed.0, ap s'.disk.free e)
      freed_or_other j lt c0 (inl e) c2 = omega (arith, f.freed.1, ap s'.disk.free e)
      freed_or_other j lt c0 c1 (inl e) = omega (arith, f.freed.2, ap s'.disk.free e)
      freed_or_other j lt (inr n0) (inr n1) (inr n2) =
          λ e. others j lt n0 n1 n2 (sym (f.others j n0 n1 n2) ∙ e)
