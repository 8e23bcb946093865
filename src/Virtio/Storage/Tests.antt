-- ===== src/Virtio/Storage/Tests.antt =====
-- A disk that finds the buffer by the address in the chain, and two buffers for block 5.
use mini_riscv_os.Common.{
  ℕ, ◌+◌, ◌*◌, ◌/◌, ◌%◌, ◌<◌, ◌≡◌, refl, ap, ◌∙◌, Bool, true, false, if◌then◌else◌, ◌==◌, update,
  u16, ok, [], ◌>>=◌, arith, ltb,
}
use mini_riscv_os.Virtio.{num, block_size, Disk, Blk, VirtqDesc, empty_desc}
use mini_riscv_os.Virtio.Request.{Addresses, Driver}
use mini_riscv_os.Virtio.Chain.{IsChain}
use mini_riscv_os.Virtio.Storage.{Media, Server, IsStorage, IsIdle, transfer}
use mini_riscv_os.Virtio.Storage.RoundTrip.{write_then_read}

abbrev addresses : Addresses
addresses = record { ops = λ i. 1000 + 16 * i; status = λ i. 2000 + 8 * i; bytes = λ b. 4096 * b }

-- The buffer that the second descriptor points at.
abbrev place : ℕ → Disk → ℕ
place i0 d = (d.desc (d.desc i0).next).addr / 4096

abbrev loaded : Media → ℕ → Blk → Blk
loaded m k b = record b { bytes = λ i. if ltb i block_size then m k i else b.bytes i }

abbrev server : Server
server i0 s m =
    let d : Disk = s.disk in
    let b : ℕ = place i0 d in
    let k : ℕ = (d.ops i0).sector in
    (
      record s {
        disk = record d {
          info = update d.info i0 (record (d.info i0) { status = 0 });
          used = record {
            flags = d.used.flags;
            idx = u16 (d.used.idx + 1);
            ring = update d.used.ring (d.used.idx % num) (record { id = i0; len = 513 });
          };
        };
        blks = λ v.
            if (d.ops i0).kind == 0
            then if b == v then loaded m k (s.blks v) else s.blks v
            else s.blks v;
      },
      λ j i. if (d.ops i0).kind == 0 then m j i else if k == j then (s.blks b).bytes i else m j i,
    )

place_lem :
    {b : ℕ} {write : Bool} {i0 i1 i2 : ℕ} {s : Driver}
    → IsChain addresses b write i0 i1 i2 s
    → place i0 s.disk ≡ b
place_lem {b} {s = s} c =
    let next = ap (λ (d : VirtqDesc). d.next) c.header in
    let at = ap (λ (j : ℕ). (s.disk.desc j).addr) next ∙ ap (λ (d : VirtqDesc). d.addr) c.payload in
    omega (arith, at)

server-IsStorage : IsStorage addresses server
server-IsStorage = record {
  completes = λ i0 s m. record {
    desc = λ j. refl;
    free = λ j. refl;
    waiter = ground arith;
    status = ground arith;
    entry = ground arith;
    counted = refl;
    used_idx = refl;
  };
  blockno = λ i0 s m v. ground arith;
  stores = λ {b} {i0} {i1} {i2} {s} m k i c out lt. ground (arith, out, place_lem c);
  stores_only = λ {b} {i0} {i1} {i2} {s} m v c out. ground (arith, out);
  loads = λ {b} {i0} {i1} {i2} {s} m i c kind lt. ground (arith, kind, place_lem c);
  loads_only = λ {b} {i0} {i1} {i2} {s} m c kind. ground (arith, kind);
}

abbrev idle_disk : Disk
idle_disk = record {
  desc = λ j. empty_desc;
  avail = record { flags = 0; idx = 7; ring = λ j. 0 };
  used = record { flags = 0; idx = 7; ring = λ j. record { id = 0; len = 0 } };
  free = λ j. 1;
  info = λ j. record { b = 0; status = 0 };
  used_idx = 7;
  ops = λ j. record { kind = 0; reserved = 0; sector = 0 };
  vdisk_lock = 0;
}

abbrev idle : Driver
idle = record {
  disk = idle_disk;
  blks = λ b. record { dev = 1; blockno = 5; lock = 0; disk = 0; bytes = λ i. b + i };
  writes = [];
}

idle-IsIdle : IsIdle idle_disk
idle-IsIdle = record {
  three = record {
    j0 = 0;
    j1 = 1;
    j2 = 2;
    low = omega arith;
    middle = omega arith;
    high = omega arith;
    free0 = omega arith;
    free1 = omega arith;
    free2 = omega arith;
  };
  ring = record { seen = omega arith; made = omega arith };
  seen = refl;
  unlocked = refl;
}

abbrev blank : Media
blank k i = 0

write_then_read_example :
    (s' : Driver) × (m' : Media) × (transfer addresses server (λ r. 1) 2 3 true (idle, blank)
        >>= transfer addresses server (λ r. 1) 2 8 false
      ≡ ok (s', m'))
    × ((i : ℕ) → i < block_size → (s'.blks 8).bytes i ≡ 3 + i)
    × ((k i : ℕ) → i < block_size → m' k i ≡ (if k == 5 then 3 + i else 0))
    × IsIdle s'.disk
write_then_read_example =
    write_then_read (λ r. 1) 2 3 8 idle blank server-IsStorage (omega arith) idle-IsIdle refl
