-- ===== src/Os/Prologue/Sent.antt =====
-- What `os_main` of 10-SystemCall/src/os.c sends to the UART before its loop.
use mini_riscv_os.Common.{
  ℕ, ◌^◌, ◌<◌, ◌≡◌, refl, List, [], ◌∷◌, ◌++◌, map, codes, u8, arith, subst, sym, ap, ◌∙◌,
}
use mathlib.Core.List.{append_assoc}
use mini_riscv_os.Console.{Call, printf, int}
use mini_riscv_os.Uart.{Device}
use mini_riscv_os.Uart.Transmit.{IsTransmitter}
use mini_riscv_os.Printf.{conversion}
use mini_riscv_os.Printf.Text.{render, step_text, put_before, convert_text, hex_text}
use mini_riscv_os.Printf.Send.{IsSent, AreSent, done, next, make_calls, returned, make_calls-sends}
use mini_riscv_os.Printf.Visible.{
  visible, visible-append, visible-hex_text, printf-IsSent, puts-IsSent,
}
use mini_riscv_os.Alloc.{Symbols, Heap, page_init}
use mini_riscv_os.Alloc.Init.{IsHeap, num_pages-page_init}
use mini_riscv_os.Alloc.Output.{page_text, page_lines-AreSent}
use mini_riscv_os.Alloc.Report.{report_text, page_init-AreSent}
use mini_riscv_os.Virtio.Tester.Read.{lines_of}
use mini_riscv_os.Os.{Image, System}
use mini_riscv_os.Common.{◌≤◌, ok, true}
use mini_riscv_os.Virtio.{num}
use mini_riscv_os.Virtio.Reg
use mini_riscv_os.Virtio.Init.{is_disk}
use mini_riscv_os.Virtio.Request.{Addresses, Driver, waiting}
use mini_riscv_os.Virtio.Complete.{DeviceCompletes}
use mini_riscv_os.Virtio.Tester.{over, transferring}
use mini_riscv_os.Machine.{Machine, virtio_irq}
use mini_riscv_os.Trap.{Fuel, plic_claim}
use mini_riscv_os.Trap.Entry.{take_trap}
use mini_riscv_os.Boot.{Sections, link}
use mini_riscv_os.Boot.Memory.{IsLinked, link-IsHeap}
use mini_riscv_os.Os.Prologue.{os_main_starts, os_main_goes_on}
use mini_riscv_os.Os.Prologue.Booted.{start_log, read_log, IsBooted, os_main-IsBooted}

-- A byte of the buffer in eight hexadecimal digits.
abbrev pub byte_line : ℕ → List ℕ
byte_line w = hex_text 8 w ++ codes " \n"

abbrev pub bytes_text : (ℕ → ℕ) → List ℕ
bytes_text b =
    byte_line (b 0)
    ++ (byte_line (b 1)
        ++ (byte_line (b 2)
            ++ (byte_line (b 3)
                ++ (byte_line (b 4)
                    ++ (byte_line (b 5)
                        ++ (byte_line (b 6)
                            ++ (byte_line (b 7)
                                ++ (byte_line (b 8)
                                    ++ (byte_line (b 9) ++ (codes "\n" ++ []))))))))))

-- The text of the start, from the report of the allocator to the test of the pages.
abbrev pub start_text : Symbols → Heap → (ℕ → ℕ) → List ℕ
start_text symbols made bytes =
    (report_text symbols made
      ++ (codes "OS start\n"
          ++ (codes "Disk init work is success!\n"
              ++ (codes "buffer init...\n" ++ (codes "block read...\n" ++ [])))))
    ++ (codes "Virtio IRQ\n" ++ (bytes_text bytes ++ page_text made.alloc_start))

AreSent-append :
    {cs ds : List Call} {xs ys : List ℕ}
    → AreSent cs xs
    → AreSent ds ys
    → AreSent (cs ++ ds) (xs ++ ys)
AreSent-append done q = q
AreSent-append {ds = ds} {ys = ys} (next {c} {cs} {bytes} {rest} one more) q =
    subst (AreSent (c ∷ (cs ++ ds))) (sym (append_assoc bytes rest ys))
      (next one (AreSent-append more q))

byte_line-IsSent : (w : ℕ) → IsSent (printf "%x \n" (int w ∷ [])) (byte_line w)
unfolding render step_text put_before convert_text hex_text conversion visible
byte_line-IsSent w =
    printf-IsSent "%x \n" (int w ∷ []) (byte_line w) refl (omega arith)
      (visible-append (hex_text 8 w) (codes " \n") (visible-hex_text 8 w) refl)

lines_of-AreSent : (b : ℕ → ℕ) → AreSent (lines_of b) (bytes_text b)
unfolding visible
lines_of-AreSent b = next (byte_line-IsSent (b 0)) (
    next (byte_line-IsSent (b 1)) (
      next (byte_line-IsSent (b 2)) (
        next (byte_line-IsSent (b 3)) (
          next (byte_line-IsSent (b 4)) (
            next (byte_line-IsSent (b 5)) (
              next (byte_line-IsSent (b 6)) (
                next (byte_line-IsSent (b 7)) (
                  next (byte_line-IsSent (b 8))
                    (next (byte_line-IsSent (b 9)) (next (puts-IsSent "\n" refl) done))))))))))

start_log-AreSent :
    {calls : List Call} {bytes : List ℕ}
    → AreSent calls bytes
    → AreSent (start_log calls) (
        bytes
        ++ (codes "OS start\n"
            ++ (codes "Disk init work is success!\n"
                ++ (codes "buffer init...\n" ++ (codes "block read...\n" ++ [])))))
unfolding visible
start_log-AreSent report = AreSent-append report (
    next (puts-IsSent "OS start\n" refl) (
      next (puts-IsSent "Disk init work is success!\n" refl) (
        next (puts-IsSent "buffer init...\n" refl)
          (next (puts-IsSent "block read...\n" refl) done))))

-- The number of pages fits in 31 bits.
few_pages :
    (symbols : Symbols) (h : Heap) → IsHeap symbols → (page_init symbols h).1.num_pages < 2 ^ 31
few_pages symbols h good = omega (arith, num_pages-page_init symbols h good, good.fits)

-- A kernel in front of its loop, which had printed nothing at the start, has printed this text.
booted-sends :
    {u v : Device} {sent : v.State → List ℕ} {busy : v.State → ℕ} {limit : ℕ} {image : Image}
    {bytes : ℕ → ℕ} {s e : System u} (polls : ℕ) (buf : ℕ → ℕ) (d : v.State)
    → IsBooted image bytes s e
    → s.machine.console ≡ []
    → IsHeap image.symbols
    → IsTransmitter v sent busy limit
    → limit < polls
    → (buf' : ℕ → ℕ) × (d' : v.State) × (make_calls v polls e.machine.console buf d
        ≡ returned 0 buf' d')
      × (sent d'
          ≡ sent d ++ map u8 (start_text image.symbols (page_init image.symbols s.heap).1 bytes))
unfolding visible
booted-sends {v = v} {sent} {image = image} {bytes} {s} {e} polls buf d booted silent good t ready =
    let made : Heap = (page_init image.symbols s.heap).1 in
    let told : List Call =
      start_log (page_init image.symbols s.heap).0 ++ read_log bytes made.alloc_start in
    let log : e.machine.console ≡ told =
      booted.log
      ∙ ap
          (λ (c : List Call).
            c ++ start_log (page_init image.symbols s.heap).0 ++ read_log bytes made.alloc_start)
          silent in
    let (buf', d', run, out) = make_calls-sends t polls ready buf d (
      AreSent-append
        (start_log-AreSent
          (page_init-AreSent image.symbols s.heap (few_pages image.symbols s.heap good)))
        (next (puts-IsSent "Virtio IRQ\n" refl)
          (AreSent-append (lines_of-AreSent bytes) (page_lines-AreSent made.alloc_start)))) in
    (buf', d', ap (λ (c : List Call). make_calls v polls c buf d) log ∙ run, out)

module _ {u v : Device} {sent : v.State → List ℕ} {busy : v.State → ℕ} {limit : ℕ} (a : Addresses)
    (image : Image) (s : System u) (fuel : Fuel) (pages entry pc polls : ℕ) (regs buf : ℕ → ℕ)
    (d : v.State) (device : ℕ → Driver → Driver) where
  -- When `os_main` has reached its loop, as `os_main-IsBooted` has it and on the same conditions, all
  -- that it has printed from a start without output is one fixed text, to a UART that becomes ready
  -- in time: the linker's symbols and the pool in hexadecimal, the number of pages in decimal, the
  -- messages of the start, the first ten bytes that the disk has read, and the first, the fifth and
  -- the seventh page of the pool.
  pub os_main-sends :
      (sections : Sections)
      → IsLinked sections
      → image.symbols ≡ link sections
      → 8 ≤ (page_init image.symbols s.heap).1.num_pages
      → is_disk s.machine.virtio_regs ≡ true
      → num ≤ s.machine.virtio_regs Reg.queue_num_max
      → s.machine.driver.disk.used_idx ≡ 0
      → (s.machine.driver.blks 0).dev ≡ 0
      → plic_claim s.machine ≡ virtio_irq
      → 1 < fuel.blocks
      → 4 ≤ pages
      → ((i0 : ℕ) (d : Driver) → DeviceCompletes i0 d (device i0 d))
      → s.machine.console ≡ []
      → IsTransmitter v sent busy limit
      → limit < polls
      → (i0 : ℕ) × (w : System u) × (regs' : ℕ → ℕ) × (m : Machine u) × (e : System u) × (buf' : ℕ
          → ℕ)
        × (d' : v.State) × (os_main_starts a 3 image s ≡ ok (transferring (waiting i0), w))
        × (take_trap fuel entry pc 0x8000000b regs
              (record w.machine { driver = device i0 w.machine.driver })
            ≡ ok (regs', pc, m))
        × (os_main_goes_on a 2 pages (transferring (waiting i0)) (record w { machine = m })
            ≡ ok (over, e))
        × (make_calls v polls e.machine.console buf d ≡ returned 0 buf' d')
        × (sent d'
            ≡ sent d
              ++ map u8 (
                  start_text image.symbols
                    (page_init image.symbols s.heap).1
                    ((device i0 w.machine.driver).blks 0).bytes))
  os_main-sends sections linked placed room known long fresh unset claimed blocks enough completes
        silent t ready =
      let good : IsHeap image.symbols = subst IsHeap (sym placed) (link-IsHeap sections linked) in
      let (i0, w, regs', m, e, begun, trap, same, ended, booted) =
        os_main-IsBooted a image s fuel pages entry pc regs device sections linked placed room known
          long fresh unset claimed blocks enough completes in
      let (buf', d', run, out) =
        booted-sends {sent = sent} {busy = busy} {limit = limit} polls buf d booted silent good t
          ready in
      (i0, w, regs', m, e, buf', d', begun, trap, ended, run, out)
