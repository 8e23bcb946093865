-- ===== src/Console.antt =====
-- What the kernel prints: the calls of `lib_puts` and `lib_printf` in order, with their arguments.
-- `Printf` says which bytes such a call sends to the UART.
use mini_riscv_os.Common.{ℕ, List, String}

-- An argument of `lib_printf`: a 32-bit word (`int` and `long` alike), or a string.
pub data Arg : Type 0 where
  int : ℕ → Arg
  str : List ℕ → Arg

pub data Call : Type 0 where
  puts : String → Call
  printf : String → List Arg → Call
