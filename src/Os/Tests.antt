-- ===== src/Os/Tests.antt =====
-- The start of the kernel on a machine with the disk that the driver knows.
use mini_riscv_os.Common.{arith, ℕ, ◌≡◌, refl, ◌+◌, ◌==◌, none, some, [], ◌++◌, if◌then◌else◌, ok}
use mini_riscv_os.Uart.Line.{line}
use mini_riscv_os.Task.{Ctx, os, task, task_go, task_os, sys_switch, set_context, next_task}
use mini_riscv_os.Task.Switch.{SameOn, kept}
use mini_riscv_os.Os.Main.{
  Turns, in_kernel, in_task, activate, os_kernel, Reach, here, later, activated, ran, yielded,
}
use mini_riscv_os.Os.Resume.{IsStart, resumes, returns}
use mini_riscv_os.Trap.Sample.{machine, fuel}
use mini_riscv_os.Trap.Entry.{take_trap}
use mini_riscv_os.Machine.{Machine}
use mini_riscv_os.Os.Preempt.{Away, at_once, longer, struck, struck_regs, preempted}
use mini_riscv_os.Os.{System, os_start}
use mini_riscv_os.Os.Sample.{image, system, known_lem}
use mini_riscv_os.Os.Start.{IsStarted, os_start-IsStarted}

os_start-IsStarted_example :
    (s' : System line) × (os_start image system ≡ ok s') × IsStarted image 0 s'
os_start-IsStarted_example =
    os_start-IsStarted image system
      (record { start = omega arith; room = omega arith; fits = omega arith }) known_lem
      (omega arith) refl

-- Two tasks: task 0 has been activated, has run to register 1 equal to 0x80000444, and has given
-- the processor back; task 1 has had its turn; task 0 is next.
abbrev place : Ctx → ℕ
place os = 0x80004000
place (task i) = 0x80005000

abbrev kernel_regs : ℕ → ℕ
kernel_regs r = if r == 1 then 0x80000200 else r

abbrev task_regs : ℕ → ℕ
task_regs r = if r == 1 then 0x80000444 else r + 100

abbrev first_round : Turns
first_round = record {
  kernel = record system.kernel { task_top = 2 };
  current_task = 0;
  mode = in_kernel;
  console = [];
  turns = [];
  called = λ r. 0;
  left = λ j. none;
}

-- Where the timer strikes the loop, it leaves `current_task` as it is.
abbrev Again : ℕ → ℕ → Type 0
Again i c = c ≡ i

first_round-IsStart : IsStart first_round
first_round-IsStart = record { mode = refl; left = λ j. refl; turns = refl }

-- A turn of the task that is next, which leaves the registers `task_regs`.
abbrev active : Turns → Turns
active s = activate place kernel_regs s

abbrev ran_task : Turns → Turns
ran_task s = record (active s) {
  kernel = record (active s).kernel { regs = task_regs };
  console = (active s).console ++ [];
}

turn-Reach :
    (s : Turns)
    → s.mode ≡ in_kernel
    → Reach place Again first_round s
    → Reach place Again first_round (ran_task s)
unfolding activate
turn-Reach s m r = later (later r (activated s kernel_regs m)) (
    ran (active s) (record (active s).kernel { regs = task_regs }) [] refl
      (record { ctx_os = refl; ctx_tasks = refl; ctx_now = refl; task_top = refl }))

abbrev second_round : Turns
second_round = os_kernel place (ran_task first_round)

abbrev third_round : Turns
third_round = os_kernel place (ran_task second_round)

yields-Reach :
    (s : Turns)
    → s.mode ≡ in_kernel
    → Reach place Again first_round s
    → Reach place Again first_round (os_kernel place (ran_task s))
unfolding activate
yields-Reach s m r = later (turn-Reach s m r) (yielded (ran_task s) refl)

second-in_kernel : second_round.mode ≡ in_kernel
unfolding os_kernel
second-in_kernel = refl

third-in_kernel : third_round.mode ≡ in_kernel
unfolding os_kernel
third-in_kernel = refl

third-Reach : Reach place Again first_round third_round
third-Reach = yields-Reach second_round second-in_kernel (yields-Reach first_round refl here)

third-left : third_round.left third_round.current_task ≡ some task_regs
unfolding os_kernel activate task_go task_os sys_switch set_context next_task
third-left = refl

resumes_example :
    SameOn kept (activate place kernel_regs third_round).kernel.regs task_regs
    × ((activate place kernel_regs third_round).kernel.pc ≡ 0x80000444)
resumes_example =
    resumes place kernel_regs first_round-IsStart third-Reach third-in_kernel third-left

returns_example :
    SameOn kept (os_kernel place (ran_task third_round)).kernel.regs (ran_task third_round).called
    × ((os_kernel place (ran_task third_round)).kernel.pc ≡ (ran_task third_round).called 1)
unfolding activate
returns_example =
    returns place first_round-IsStart (turn-Reach third_round third-in_kernel third-Reach) refl

-- The timer strikes task 0 in its first turn; task 1 has a turn.
abbrev struck_first : Turns
struck_first = os_kernel place (struck (machine 0) 0x80000600 (active first_round))

abbrev after_other : Turns
after_other = os_kernel place (active struck_first)

abbrev first_running : Turns
first_running = active first_round

other-Away : Away place Again first_running.current_task struck_first after_other
unfolding os_kernel activate task_go sys_switch set_context next_task
other-Away =
    longer (longer at_once (omega arith) (activated struck_first kernel_regs refl)) (omega arith)
      (yielded (active struck_first) refl)

after_other-in_kernel : after_other.mode ≡ in_kernel
unfolding os_kernel
after_other-in_kernel = refl

after_other-turn : after_other.current_task ≡ first_running.current_task
unfolding os_kernel activate task_go task_os sys_switch set_context next_task
after_other-turn = refl

first_running-in_task : first_running.mode ≡ in_task
unfolding activate
first_running-in_task = refl

preempted_example :
    (m' : Machine line) × (take_trap fuel 0x80000300 0x80000600 0x80000007 first_running.kernel.regs
        (machine 0)
      ≡ ok (struck_regs (machine 0) 0x80000600 first_running.kernel.regs, 0x80000300, m'))
    × SameOn kept (activate place kernel_regs after_other).kernel.regs first_running.kernel.regs
    × ((activate place kernel_regs after_other).kernel.pc ≡ first_running.kernel.regs 1)
preempted_example =
    preempted (machine 0) place fuel 0x80000300 0x80000600 kernel_regs first_round-IsStart
      (later here (activated first_round kernel_regs refl)) first_running-in_task other-Away
      after_other-in_kernel after_other-turn
