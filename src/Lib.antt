-- ===== src/Lib.antt =====
-- mini-riscv-os, chapter 10-SystemCall: a kernel for one RV32 hart under qemu's virt machine.
--
-- The kernel is a set of C files round one main loop. 10-SystemCall/src/os.c starts the parts and
-- gives the tasks their turns; task.c and sys.s switch contexts; a trap enters by trap_vector of
-- sys.s, and trap_handler of trap.c calls timer_handler, external_handler (plic.c, then lib_isr or
-- virtio_disk_isr) or do_syscall of syscall.c. lib.c prints to the UART, virtio.c reads and writes
-- the disk, alloc.c hands out pages, lock.c holds the spin lock that tasks of user.c share.
--
-- Common    shared names: Boolean tests, native lists, 32-bit words, bits, results.
-- Console   what a call of lib_printf or lib_puts prints, for the parts that only print.
-- Alloc     alloc.c: descriptors as a function of the index, malloc, free, page_init; Alloc/Check
--           has page_test; Alloc/Clients has callers that ask and give back in any order;
--           Alloc/View is the pool as a quotient of lists of blocks.
-- Virtio    virtio.c and include/virtio.h: the descriptor table. Virtio/Request has
--           virtio_disk_rw as the steps of a call (`rw_step`), and virtio_disk_isr; Virtio/World
--           lets callers, the device and interrupts take their steps in any order; Virtio/Storage
--           has whole calls with a device that stores blocks; Virtio/Init has virtio_disk_init;
--           Virtio/Tester has virtio_tester and disk_read of os.c.
-- Printf    lib_vsnprintf and lib_vprintf of lib.c; Printf/Text says what a format means, and
--           Printf/Send has lib_printf on a UART.
-- Memory    string.c.
-- Uart      the UART routines of lib.c over a device that is a parameter.
-- Machine   the registers of include/riscv.h and the kernel's variables, as one record.
-- Trap      trap.c, timer.c, plic.c, syscall.c, and the interrupt mask of lock.c;
--           Trap/Entry composes them with trap_vector of sys.s.
-- Lock      the spin lock of lock.c and the tasks of user.c that use it, in any order of moves.
-- Task      task.c, the switch and the trap frame of sys.s, and the round robin of os_main.
-- Boot      start.s, os.ld and mem.s.
-- User      the tasks of user.c that share nothing, and gethid of usys.s.
-- Os        os_start of os.c, which composes the parts; Os/Main has the loop of os_main and the
--           tasks that it activates as the steps of a machine; Os/Preempt follows a task that the
--           timer interrupts; Os/Prologue is os_main before its loop.
-- Chapters  code of earlier chapters that differs: os.c of 01-HelloOs and 02-ContextSwitch, os.c
--           and user.c of 03-MultiTasking, timer.c and os.c of 04-TimerInterrupt, trap.c, os.c
--           and user.c of 05-Preemptive, os.c and user.c of 06-Spinlock, trap.c, plic.c and os.c of
--           07-ExterInterrupt, trap.c, os.c and user.c of 08-BlockDeviceDriver,
--           the trap frame of 09-MemoryAllocator/src/sys.s, and A1-Input/os.c.
--
-- Numbers are native; a 32-bit word wraps by `% 2 ^ 32`, and size_t, int and long have 32 bits, as
-- on RV32. A C pointer to static data is an index or a constructor; memory by address is a function.
-- A loop that ends by itself is structural. A loop that waits, or whose end depends on data, takes
-- fuel and gives `hang` or `none` when it runs out; the theorems say how much is enough: the pages
-- of a block for `free`, more than the completions for the interrupt handler, the number of
-- descriptors for a chain, more than the polls that a busy transmitter needs for `lib_putc`.
-- `panic`, which loops for ever, is a result of its own.
--
-- Devices are parameters: a UART by its reads and writes, the interrupt controller and the disk by
-- what their registers read as, and the disk's work by the predicates `DeviceCompletes` and
-- `IsStorage`. Memory is sequentially consistent; the fences of the source have no counterpart. A
-- timer interrupt brings a task back at the address in its register ra, which Os/Preempt states.
-- In the middle of a function that address is the compiler's choice: in Lock, Virtio/World and
-- Os/Main the place where a struck caller or the loop goes on is a parameter, `Lands`, and
-- theorems name what they ask of it. What the linker puts into the sections is a parameter of
-- Boot. What the hart itself does to mstatus, mepc and mcause at a trap and at mret is not
-- modelled, nor is the C compiler: a function is what its text says, and the stack of a task is
-- only its first pointer.
--
-- Not modelled: the documentation and the build files, and, as copies, the files of the chapters 1
-- to 9 that repeat those of chapter 10 or a part of them in another layout: lib.c, virtio.c,
-- alloc.c, lock.c, task.c, timer.c and string.c.
pub mod Common
pub mod Console
pub mod Alloc
pub mod Virtio
pub mod Printf
pub mod Memory
pub mod Uart
pub mod Machine
pub mod Trap
pub mod Lock
pub mod Task
pub mod Boot
pub mod User
pub mod Os
pub mod Chapters
