-- ===== src/Virtio/Init.antt =====
-- `virtio_disk_init`: the checks, the negotiation of features, and the queue.
use mini_riscv_os.Common.{
  ℕ, ◌+◌, ◌*◌, ◌/◌, ◌^◌, Bool, not, ◌&&◌, List, [], ◌∷◌, ◌==◌, ltb, if◌then◌else◌, Run, ok, panic,
  bit_and, bit_or, not32,
}
use mini_riscv_os.Virtio.Reg
use mini_riscv_os.Console.{Call, puts}
use mini_riscv_os.Virtio.{num, empty_desc, Disk}

abbrev pub page_bytes : ℕ
page_bytes = 4096

abbrev pub s_acknowledge : ℕ
s_acknowledge = 1

abbrev pub s_driver : ℕ
s_driver = 2

abbrev pub s_driver_ok : ℕ
s_driver_ok = 4

abbrev pub s_features_ok : ℕ
s_features_ok = 8

-- The feature bits that the driver turns off, in the order of the code.
abbrev pub refused_features : List ℕ
refused_features = 5 ∷ 7 ∷ 11 ∷ 12 ∷ 27 ∷ 29 ∷ 28 ∷ []

-- `features &= ~(1 << k)` for each `k` in turn.
unfoldable pub clear_bits : List ℕ → ℕ → ℕ
clear_bits [] features = features
clear_bits (k ∷ ks) features = clear_bits ks (bit_and features (not32 (2 ^ k)))

-- `memset(disk.pages, 0, …)`, and the loop that marks the descriptors free.
unfoldable pub reset_queue : Disk → Disk
reset_queue d = record d {
  desc = λ i. empty_desc;
  avail = record { flags = 0; idx = 0; ring = λ i. 0 };
  used = record { flags = 0; idx = 0; ring = λ i. record { id = 0; len = 0 } };
  free = λ i. if ltb i num then 1 else d.free i;
}

-- Is this the legacy block device that the driver knows?
unfoldable pub is_disk : (ℕ → ℕ) → Bool
is_disk regs =
    regs Reg.magic_value == 0x74726976
    && (regs Reg.version == 1 && (regs Reg.device_id == 2 && regs Reg.vendor_id == 0x554d4551))

-- The writes that set the device up, in order. `pages` is the address of `disk.pages`.
unfoldable pub init_writes : (ℕ → ℕ) → ℕ → List (ℕ × ℕ)
init_writes regs pages =
    let known : ℕ = s_acknowledge in
    let driving : ℕ = bit_or known s_driver in
    let agreed : ℕ = bit_or driving s_features_ok in
    let ready : ℕ = bit_or agreed s_driver_ok in
    (Reg.status, 0)
    ∷ (Reg.status, known)
    ∷ (Reg.status, driving)
    ∷ (Reg.driver_features, clear_bits refused_features (regs Reg.device_features))
    ∷ (Reg.status, agreed)
    ∷ (Reg.status, ready)
    ∷ (Reg.guest_page_size, page_bytes)
    ∷ (Reg.queue_sel, 0)
    ∷ (Reg.queue_num, num)
    ∷ (Reg.queue_pfn, pages / page_bytes)
    ∷ (Reg.queue_align, page_bytes)
    ∷ (Reg.queue_ready, 1)
    ∷ (Reg.queue_desc_low, pages)
    ∷ (Reg.queue_avail_low, pages + num * 16)
    ∷ (Reg.queue_used_low, pages + page_bytes)
    ∷ []

unfoldable pub virtio_disk_init : (ℕ → ℕ) → ℕ → Disk → Run (Disk × List (ℕ × ℕ) × List Call)
virtio_disk_init regs pages d =
    if not (is_disk regs)
    then panic "could not find virtio disk"
    else if regs Reg.queue_num_max == 0
    then panic "virtio disk has no queue 0\n"
    else if ltb (regs Reg.queue_num_max) num
    then panic "virtio disk max queue too short\n"
    else ok (
      record (reset_queue d) { vdisk_lock = 0 },
      init_writes regs pages,
      puts "Disk init work is success!\n" ∷ [],
    )
