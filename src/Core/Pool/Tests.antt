-- ===== src/Core/Pool/Tests.antt =====
-- Runs of a thread pool, and its theorems at concrete counters.
use aimeath.Common.{◌≡◌, refl, true, false, arith}
use aimeath.Core.Pool.{Pool, take_task, all_done, may_submit}
use aimeath.Core.Pool.Counts.{IsCounted, Run-IsCounted, all_done_early, starts, goes_on, passes}

abbrev idle : Pool
idle = record {
  pending = 0;
  active = 0;
  stopped = false;
  max_queue = 2;
  queued = 0;
  starting = 0;
  running = 0;
  passing = 0;
}

idle-IsCounted : IsCounted 4 idle
idle-IsCounted = record {
  pending = refl;
  active = refl;
  calling = omega arith;
  limited = λ h. omega arith;
}

idle_free : may_submit idle ≡ true
unfolding may_submit
idle_free = refl

Run-IsCounted_example : IsCounted 4 (record idle { passing = 1 })
Run-IsCounted_example =
    Run-IsCounted 4 {p = idle} idle-IsCounted (goes_on starts (passes idle (omega arith) idle_free))

abbrev one_task : Pool
one_task = record idle { pending = 1; queued = 1 }

all_done_early_example :
    (all_done (take_task one_task) ≡ true) × ((take_task one_task).starting ≡ 1)
all_done_early_example =
    all_done_early 4 one_task
      (record { pending = refl; active = refl; calling = omega arith; limited = λ h. omega arith })
      refl refl
