-- ===== src/Virtio/World/Tests.antt =====
-- Two callers at a driver that has just been set up; the first has taken the lock.
use mini_riscv_os.Common.{ℕ, suc, ◌+◌, ◌*◌, ◌≡◌, ◌≢◌, refl, false, [], update, inr, ap, ok, arith}
use mini_riscv_os.Virtio.{Disk, empty_desc}
use mini_riscv_os.Virtio.Init.{reset_queue}
use mini_riscv_os.Virtio.Request.{Addresses, Phase, acquiring, holding, returned, rw_step}
use mini_riscv_os.Virtio.Ready.{reset_queue-IsReady}
use mini_riscv_os.Virtio.World.{
  Request, World, call, interrupt, Reach, here, later, called, begun, struck,
}
use mini_riscv_os.Virtio.World.Invariant.{inside, NeverCrosses}
use mini_riscv_os.Virtio.World.Progress.{calls_end}
use mini_riscv_os.Virtio.World.Reachable.{IsStart, never_panics, one_caller_inside}

abbrev unset : Disk
unset = record {
  desc = λ j. empty_desc;
  avail = record { flags = 0; idx = 0; ring = λ j. 0 };
  used = record { flags = 0; idx = 0; ring = λ j. record { id = 0; len = 0 } };
  free = λ j. 0;
  info = λ j. record { b = 0; status = 0 };
  used_idx = 0;
  ops = λ j. record { kind = 0; reserved = 0; sector = 0 };
  vdisk_lock = 1;
}

abbrev disk : Disk
disk = record (reset_queue unset) { vdisk_lock = 0 }

abbrev places : Addresses
places = record { ops = λ i. 1000 + 16 * i; status = λ i. 2000 + 8 * i; bytes = λ b. 4096 * b }

abbrev requests : ℕ → Request
requests t = record { buffer = t; write = false }

abbrev status_register : ℕ → ℕ
status_register r = 1

abbrev start : World
start = record {
  driver = record {
    disk = disk;
    blks = λ b. record { dev = 1; blockno = 1; lock = 0; disk = 0; bytes = λ i. 0 };
    writes = [];
  };
  phase = λ v. returned;
}

start-IsStart : IsStart start
unfolding reset_queue
start-IsStart = record { ready = reset_queue-IsReady unset refl; avail = refl; outside = λ v. refl }

-- Both callers begin, the second is struck and begins again, and the first gets the lock.
abbrev both_begun : World
both_begun = record start {
  phase = update (update (update start.phase 0 acquiring) 1 acquiring) 1 acquiring;
}

abbrev first_holds : World
first_holds = record both_begun {
  driver = record start.driver { disk = record disk { vdisk_lock = 1 } };
  phase = update both_begun.phase 0 holding;
}

-- A caller that is struck before it has the lock begins again.
abbrev Outside : Phase → Phase → Type 0
Outside p q = (inside p ≡ false) × (q ≡ acquiring)

Outside-NeverCrosses : NeverCrosses Outside
Outside-NeverCrosses p q l = inr (l.0, ap inside l.1)

first_call : call places requests 0 both_begun ≡ ok first_holds
unfolding call rw_step
first_call = refl

first_holds-Reach : Reach places requests status_register 2 Outside start first_holds
first_holds-Reach =
    later
      (later (later (later here (begun 0 start refl)) (begun 1 _ refl))
        (struck 1 _ acquiring (refl, refl)))
      (called 0 both_begun first_call)

never_panics_example :
    ((w1 : World) × (call places requests 0 first_holds ≡ ok w1))
    × ((w2 : World) × (interrupt status_register 2 first_holds ≡ ok w2))
never_panics_example =
    never_panics places requests status_register 2 (omega arith) Outside-NeverCrosses 0
      start-IsStart first_holds-Reach

different : (t : ℕ) → 0 ≢ suc t
different t e = omega (arith, e)

one_caller_inside_example : inside (first_holds.phase 1) ≡ false
one_caller_inside_example =
    one_caller_inside places requests status_register 2 (omega arith) Outside-NeverCrosses 0 1
      start-IsStart first_holds-Reach refl (different 0)

calls_end_example :
    (w' : World) × Reach places requests status_register 2 Outside first_holds w'
    × (w'.phase 1 ≡ returned)
calls_end_example =
    calls_end places requests status_register 2 (omega arith) Outside-NeverCrosses 1 start-IsStart
      first_holds-Reach
