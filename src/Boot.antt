-- ===== src/Boot.antt =====
-- From power-on to the heap: 10-SystemCall/src/start.s, the linker script 10-SystemCall/os.ld, and
-- the words of 10-SystemCall/src/mem.s. The sizes and alignments of the linked sections, and the
-- address of `stacks`, are parameters.
pub mod Memory
mod Tests
use mini_riscv_os.Common.{
  ℕ, ◌+◌, ◌-◌, ◌*◌, ◌/◌, ◌%◌, ◌^◌, ◌<◌, ◌≤◌, ◌≡◌, ◌↔◌, refl, Bool, true, false, ◌==◌, if◌then◌else◌,
  add32, arith, ap, suc,
}
use mini_riscv_os.Alloc.{Symbols}

abbrev pub boot_stack_size : ℕ
boot_stack_size = 8192

-- Where `_start` leads: to `os_main`, or to the loop of `wfi`.
pub data Going : Type 0 where
  os_main park : Going

-- `_start`: the stack pointer, and where the hart goes.
unfoldable pub hart_start : ℕ → ℕ → ℕ × Going
hart_start stacks mhartid =
    let t0 : ℕ = mhartid * 2 ^ 10 % 2 ^ 32 in
    let sp : ℕ = add32 (add32 stacks boot_stack_size) t0 in
    (sp, if mhartid == 0 then os_main else park)

-- What the linker collected for an output section.
pub record Section : Type 0 where
  pub align : ℕ
  pub size : ℕ

pub record Sections : Type 0 where
  pub text : Section
  pub rodata : Section
  pub data_part : Section
  pub bss : Section

-- The least multiple of `a` from `x` on.
abbrev pub align_up : ℕ → ℕ → ℕ
align_up a x = (x + (a - 1)) / a * a

-- `ram`
abbrev pub ram_origin : ℕ
ram_origin = 0x80000000

abbrev pub ram_length : ℕ
ram_length = 128 * 2 ^ 20

abbrev pub memory_end : ℕ
memory_end = ram_origin + ram_length

-- The symbols of os.ld, one section behind the other, as mem.s stores them.
unfoldable pub link : Sections → Symbols
link s =
    let text_start : ℕ = align_up s.text.align ram_origin in
    let text_end : ℕ = text_start + s.text.size in
    let rodata_start : ℕ = align_up s.rodata.align text_end in
    let rodata_end : ℕ = rodata_start + s.rodata.size in
    let data_start : ℕ = align_up 4096 (align_up s.data_part.align rodata_end) in
    let data_end : ℕ = data_start + s.data_part.size in
    let bss_start : ℕ = align_up s.bss.align data_end in
    let bss_end : ℕ = bss_start + s.bss.size in
    record {
      text_start = text_start;
      text_end = text_end;
      data_start = data_start;
      data_end = data_end;
      rodata_start = rodata_start;
      rodata_end = rodata_end;
      bss_start = bss_start;
      bss_end = bss_end;
      heap_start = bss_end;
      heap_size = memory_end - bss_end;
    }

-- Hart 0 goes to `os_main` with the end of the first 8192 bytes of `stacks` as its stack pointer,
-- and every other hart is parked. The stack pointers of two harts in a row are 1024 bytes apart, and
-- one lies behind the start of the 4 * 8192 bytes of `stacks`, at their end at the latest, exactly
-- for the harts 0 to 24; this holds where `stacks` ends below 2 ^ 32, for harts below 2 ^ 21.
pub hart_start_lem :
    (stacks hart : ℕ)
    → stacks + 4 * boot_stack_size < 2 ^ 32
    → hart < 2 ^ 21
    → (hart_start stacks 0 ≡ (stacks + boot_stack_size, os_main))
      × ((hart_start stacks (suc hart)).1 ≡ park)
      × (((hart_start stacks hart).0 + 1024) % 2 ^ 32 ≡ (hart_start stacks (suc hart)).0)
      × (((stacks < (hart_start stacks hart).0)
            × ((hart_start stacks hart).0 ≤ stacks + 4 * boot_stack_size))
          ↔ (hart ≤ 24))
unfolding hart_start
hart_start_lem stacks hart room few =
    let first : add32 (add32 stacks boot_stack_size) 0 ≡ stacks + boot_stack_size = omega arith in
    (
      ap (λ (sp : ℕ). (sp, os_main)) first,
      ground arith,
      omega arith,
      (λ h. omega (arith, h.0, h.1), λ h. (omega arith, omega arith)),
    )
