-- ===== src/Tests/Cyclone.antt =====
-- cyclone.c where 31 interrupts have come by the second read of each sleep, and one more comes before
-- each other call.
use embd_lab.Prelude.{ℕ, ◌≡◌, [], ◌∷◌, ◌++◌, List, true, arith, pos, ◌==◌, if◌then◌else◌, length}
use mathlib.Core.List.{map}
use embd_lab.Programs.{puts}
use embd_lab.Programs.Cyclone.{Session, Timing, loops, laps, cyclone_main}
use embd_lab.Programs.Cyclone.Laps.{OnTime, line}
use embd_lab.Programs.Cyclone.Ends.{spaced, test_ends}
use embd_lab.Tests.Tasks.{addresses, boot_kernel, boot_kernel-IsQuiet, pair}

abbrev timing : Timing
timing = record {
  arrived = λ ct read. if read == 0 then 0 else 31;
  before_time = λ ct. 1;
  after_time = λ ct. 1;
}

timing-OnTime : OnTime 1 31 timing
timing-OnTime = record {
  few_asleep = λ ct read. ground arith;
  few_before = λ ct. omega arith;
  few_after = λ ct. omega arith;
  last = λ ct. 1;
  later = λ ct. omega arith;
  in_reads = λ ct. omega arith;
  wakes = λ ct small. omega arith;
}

abbrev session : Session
session = record { kernel = boot_kernel; ct = 7; errno = pos 0; console = [] }

test_ends_example :
    (times : List ℕ) × (s' : Session) × (laps 1 timing addresses 0xa0030000 0xa0001000
        (pair 1 2)
        31
        (cyclone_main 1 timing addresses 0xa0030000 0xa0001000 (pair 1 2) session)
      ≡ loops s')
    × (length times ≡ 30)
    × (spaced 0 1 times ≡ true)
    × (s'.console
        ≡ session.console ++ (puts "Test begin" ∷ (map line times ++ puts "Test ends!!" ∷ [])))
test_ends_example =
    test_ends 1 31 timing timing-OnTime addresses 0xa0030000 0xa0001000 (pair 1 2)
      (omega arith, omega arith) (omega arith, omega arith) session boot_kernel-IsQuiet
      (omega arith)
