-- ===== src/Virtio/Reg.antt =====
-- The registers of the device by their offsets, 10-SystemCall/include/virtio.h.
use mini_riscv_os.Common.{ℕ}

abbrev pub magic_value : ℕ
magic_value = 0x000

abbrev pub version : ℕ
version = 0x004

abbrev pub device_id : ℕ
device_id = 0x008

abbrev pub vendor_id : ℕ
vendor_id = 0x00c

abbrev pub device_features : ℕ
device_features = 0x010

abbrev pub driver_features : ℕ
driver_features = 0x020

abbrev pub guest_page_size : ℕ
guest_page_size = 0x028

abbrev pub queue_sel : ℕ
queue_sel = 0x030

abbrev pub queue_num_max : ℕ
queue_num_max = 0x034

abbrev pub queue_num : ℕ
queue_num = 0x038

abbrev pub queue_align : ℕ
queue_align = 0x03c

abbrev pub queue_pfn : ℕ
queue_pfn = 0x040

abbrev pub queue_ready : ℕ
queue_ready = 0x044

abbrev pub status : ℕ
status = 0x070

abbrev pub queue_desc_low : ℕ
queue_desc_low = 0x080

abbrev pub queue_avail_low : ℕ
queue_avail_low = 0x090

abbrev pub queue_used_low : ℕ
queue_used_low = 0x0a0
