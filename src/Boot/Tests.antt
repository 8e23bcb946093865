-- ===== src/Boot/Tests.antt =====
-- A small kernel image, and a first request.
use mini_riscv_os.Common.{◌+◌, ◌≡◌, [], arith, refl}
use mini_riscv_os.Alloc.{Heap, page_init, malloc}
use mini_riscv_os.Alloc.Clients.{Shop, keep, Reach, here, later, asked}
use mini_riscv_os.Alloc.Clients.Separate.{Separate}
use mini_riscv_os.Boot.{Sections, link, memory_end}
use mini_riscv_os.Boot.Memory.{IsLinked, grants_in_memory}

abbrev image : Sections
image = record {
  text = record { align = 16; size = 0xb123 };
  rodata = record { align = 8; size = 0x400 };
  data_part = record { align = 4; size = 0x20 };
  bss = record { align = 4096; size = 0x6010 };
}

image-IsLinked : IsLinked image
unfolding link
image-IsLinked = record {
  text = omega arith;
  rodata = omega arith;
  data_part = omega arith;
  bss = omega arith;
  room = omega arith;
}

abbrev made : Heap
made =
    (page_init (link image)
      (record { alloc_start = 0; alloc_end = 0; num_pages = 0; page = λ j. 9 })).1

pages_lem : made.num_pages ≡ 521935
unfolding page_init link
pages_lem = refl

abbrev asked_once : Shop
asked_once = keep 300 (malloc 300 made) []

reached : Reach 521935 (record { heap = made; live = [] }) asked_once
reached = later here (asked (record { heap = made; live = [] }) 300 (omega (arith, pages_lem)))

grants_in_memory_example :
    Separate ((link image).bss_end + made.num_pages) memory_end asked_once.live
grants_in_memory_example =
    grants_in_memory image (record { alloc_start = 0; alloc_end = 0; num_pages = 0; page = λ j. 9 })
      521935 asked_once image-IsLinked (omega (arith, pages_lem)) reached
