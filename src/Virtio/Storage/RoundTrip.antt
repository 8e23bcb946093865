-- ===== src/Virtio/Storage/RoundTrip.antt =====
-- A block that was written is read again as it was.
use mini_riscv_os.Common.{
  ℕ, ◌%◌, ◌^◌, ◌<◌, ◌≡◌, refl, ap, ◌∙◌, true, false, ◌==◌, if◌then◌else◌, ok, ◌>>=◌, eq→==,
}
use mini_riscv_os.Virtio.{block_size}
use mini_riscv_os.Virtio.Request.{Addresses, Driver}
use mini_riscv_os.Virtio.Storage.{
  Media, Server, IsStorage, IsIdle, transfer, Transferred, transfer_lem,
}

-- The sector of a buffer's block: blocks have the size of a sector.
abbrev pub sector_of : Driver → ℕ → ℕ
sector_of s b = (s.blks b).blockno % 2 ^ 32

module _ {a : Addresses} {device : Server} (st : IsStorage a device) {b : ℕ} {s s' : Driver}
    {m m' : Media} where
  wrote :
      (k i : ℕ)
      → i < block_size
      → Transferred a device b true s m s' m'
      → m' k i ≡ (if k == sector_of s b then (s.blks b).bytes i else m k i)
  wrote k i lt t =
      ap (λ (d : Media). d k i) t.media
      ∙ st.stores m k i t.sub.chain t.sub.operation lt
      ∙ rw (t.sub.sector, t.sub.bytes b) refl

  wrote_only :
      (v : ℕ)
      → Transferred a device b true s m s' m'
      → ((s'.blks v).bytes ≡ (s.blks v).bytes) × ((s'.blks v).blockno ≡ (s.blks v).blockno)
  wrote_only v t = (
    (t.content v).0 ∙ st.stores_only m v t.sub.chain t.sub.operation ∙ t.sub.bytes v,
    (t.content v).1 ∙ st.blockno t.i0 t.s1 m v ∙ t.sub.blockno v,
  )

  read_back :
      (i : ℕ)
      → i < block_size
      → Transferred a device b false s m s' m'
      → (s'.blks b).bytes i ≡ m (sector_of s b) i
  read_back i lt t =
      ap (λ (f : ℕ → ℕ). f i) (t.content b).0
      ∙ st.loads m i t.sub.chain t.sub.operation lt
      ∙ ap (λ (k : ℕ). m k i) t.sub.sector

  read_only : Transferred a device b false s m s' m' → m' ≡ m
  read_only t = t.media ∙ st.loads_only m t.sub.chain t.sub.operation

-- On an idle driver with a device that stores blocks, for two buffers with the same block number: a
-- call of `virtio_disk_rw` that writes `b` and then one that reads `c` both return, if the handler
-- has fuel for two rounds; `c` then holds the bytes that `b` held before; the disk holds them in
-- the sector of the block number, and in every other sector what it held; and the driver is idle
-- again.
pub write_then_read :
    {a : Addresses} {device : Server} (regs : ℕ → ℕ) (fuel b c : ℕ) (s : Driver) (m : Media)
    → IsStorage a device
    → 1 < fuel
    → IsIdle s.disk
    → (s.blks c).blockno ≡ (s.blks b).blockno
    → (s' : Driver) × (m' : Media) × (transfer a device regs fuel b true (s, m)
          >>= transfer a device regs fuel c false
        ≡ ok (s', m'))
      × ((i : ℕ) → i < block_size → (s'.blks c).bytes i ≡ (s.blks b).bytes i)
      × ((k i : ℕ)
          → i < block_size
          → m' k i ≡ (if k == sector_of s b then (s.blks b).bytes i else m k i))
      × IsIdle s'.disk
write_then_read {a} {device} regs fuel b c s m st enough idle same =
    let (s1, m1, run1, t1) = transfer_lem st regs fuel enough b true s m idle in
    let (s2, m2, run2, t2) = transfer_lem st regs fuel enough c false s1 m1 t1.idle in
    let place : sector_of s1 c ≡ sector_of s b =
      ap (λ (k : ℕ). k % 2 ^ 32) ((wrote_only st c t1).1 ∙ same) in
    (
      s2,
      m2,
      rw run1 run2,
      λ i lt.
          read_back st i lt t2
          ∙ ap (λ (k : ℕ). m1 k i) place
          ∙ wrote st (sector_of s b) i lt t1
          ∙ rw (eq→== (sector_of s b) (sector_of s b) refl) refl,
      λ k i lt. ap (λ (d : Media). d k i) (read_only st t2) ∙ wrote st k i lt t1,
      t2.idle,
    )
