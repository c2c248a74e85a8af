-- ===== src/Core/Pool/Counts.antt =====
-- The counters of ThreadPool (module/core/src/threadmgr.cpp) under interleaving.
use aimeath.Common.{ℕ, ◌+◌, ◌-◌, ◌≤◌, ◌<◌, ◌≡◌, refl, true, arith, if_by}
use aimeath.Core.Pool.{
  Pool, submit, may_submit, take_task, begin_task, end_task, all_done, shutdown,
}

-- What the threads may do next: at most `threads` of them call `try_submit`.
pub data Step (threads : ℕ) : Pool → Pool → Type 0 where
  passes :
      (p : Pool)
      → p.passing < threads
      → may_submit p ≡ true
      → Step threads p (record p { passing = p.passing + 1 })
  submits :
      (p : Pool) → 0 < p.passing → Step threads p (submit (record p { passing = p.passing - 1 }))
  takes : (p : Pool) → 0 < p.queued → Step threads p (take_task p)
  begins : (p : Pool) → 0 < p.starting → Step threads p (begin_task p)
  ends : (p : Pool) → 0 < p.running → Step threads p (end_task p)
  stops : (p : Pool) → Step threads p (shutdown p)

pub data Run (threads : ℕ) (p : Pool) : Pool → Type 0 where
  starts : Run threads p p
  goes_on : {q r : Pool} → Run threads p q → Step threads q r → Run threads p r

-- The counters count the tasks, and the queue is bounded by the limit and the threads.
pub record IsCounted (threads : ℕ) (p : Pool) : Type 0 where
  pub pending : p.pending ≡ p.queued
  pub active : p.active ≡ p.running
  pub calling : p.passing ≤ threads
  pub limited : 0 < p.max_queue → p.pending + p.passing ≤ p.max_queue + threads - 1

submit-IsCounted :
    (threads : ℕ) (p : Pool)
    → 0 < p.passing
    → IsCounted threads p
    → IsCounted threads (submit (record p { passing = p.passing - 1 }))
unfolding submit
submit-IsCounted threads p one c =
    if_by (IsCounted threads) p.stopped _ _
      (λ _. record {
        pending = c.pending;
        active = c.active;
        calling = omega (arith, c.calling);
        limited = λ h. omega (arith, c.limited h);
      })
      λ _. record {
        pending = omega (arith, c.pending);
        active = c.active;
        calling = omega (arith, c.calling);
        limited = λ h. omega (arith, c.limited h, one);
      }

Step-IsCounted :
    (threads : ℕ) {p q : Pool} → Step threads p q → IsCounted threads p → IsCounted threads q
unfolding may_submit take_task begin_task end_task shutdown
Step-IsCounted threads (passes p lt may) c = record {
  pending = c.pending;
  active = c.active;
  calling = omega (arith, lt);
  limited = λ h. ground (arith, may, h, lt, c.calling);
}
Step-IsCounted threads (submits p one) c = submit-IsCounted threads p one c
Step-IsCounted threads (takes p one) c = record {
  pending = omega (arith, c.pending);
  active = c.active;
  calling = c.calling;
  limited = λ h. omega (arith, c.limited h);
}
Step-IsCounted threads (begins p one) c = record {
  pending = c.pending;
  active = omega (arith, c.active);
  calling = c.calling;
  limited = c.limited;
}
Step-IsCounted threads (ends p one) c = record {
  pending = c.pending;
  active = omega (arith, c.active);
  calling = c.calling;
  limited = c.limited;
}
Step-IsCounted threads (stops p) c = record {
  pending = c.pending;
  active = c.active;
  calling = c.calling;
  limited = c.limited;
}

-- Whatever the workers and at most `threads` callers of `try_submit` do in whatever order,
-- starting from counters that count, the pending counter counts the queued tasks, the active
-- counter the running ones, and with a limit set the queue never holds more than the limit plus
-- the callers less one.
pub Run-IsCounted :
    (threads : ℕ) {p q : Pool} → IsCounted threads p → Run threads p q → IsCounted threads q
Run-IsCounted threads c starts = c
Run-IsCounted threads c (goes_on r s) = Step-IsCounted threads s (Run-IsCounted threads c r)

-- In a pool with one queued task and none running, the first step of that task makes the
-- condition of `wait_all` hold while the task has not begun.
pub all_done_early :
    (threads : ℕ) (p : Pool)
    → IsCounted threads p
    → p.queued ≡ 1
    → p.running ≡ 0
    → (all_done (take_task p) ≡ true) × ((take_task p).starting ≡ p.starting + 1)
unfolding all_done take_task
all_done_early threads p c one none = (ground (arith, c.pending, c.active, one, none), refl)
