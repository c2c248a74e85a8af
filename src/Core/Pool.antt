-- ===== src/Core/Pool.antt =====
-- ThreadPool (module/core/include/threadmgr.hpp, module/core/src/threadmgr.cpp). Each access to an
-- atomic counter is one step. `queued`, `starting` and `running` count the tasks that were posted,
-- those that a worker took and did not yet count as active, and those that it counts as active;
-- `passing` counts the threads in `try_submit` between its test and its call of `submit`.
pub mod Counts
mod Tests
use package.aimeath.Common.{
  ℕ, zero, suc, ◌+◌, ◌-◌, Bool, true, false, not, ◌&&◌, ltb, leb, ◌==◌, if◌then◌else◌,
}

pub record Pool : Type 0 where
  pub pending : ℕ
  pub active : ℕ
  pub stopped : Bool
  pub max_queue : ℕ
  pub queued : ℕ
  pub starting : ℕ
  pub running : ℕ
  pub passing : ℕ

pub new_pool : ℕ → Pool
new_pool max = record {
  pending = 0;
  active = 0;
  stopped = false;
  max_queue = max;
  queued = 0;
  starting = 0;
  running = 0;
  passing = 0;
}

-- `submit`: the task is counted and posted.
pub submit : Pool → Pool
submit p = if p.stopped then p else record p { pending = p.pending + 1; queued = p.queued + 1 }

-- The test of `try_submit`.
pub may_submit : Pool → Bool
may_submit p = not (ltb 0 p.max_queue && leb p.max_queue p.pending)

-- `m_pending.fetch_sub(1)`, the first step of a task.
pub take_task : Pool → Pool
take_task p = record p { pending = p.pending - 1; queued = p.queued - 1; starting = p.starting + 1 }

-- `m_active.fetch_add(1)`.
pub begin_task : Pool → Pool
begin_task p = record p {
  active = p.active + 1;
  starting = p.starting - 1;
  running = p.running + 1;
}

-- `m_active.fetch_sub(1)`, after the function has returned or thrown.
pub end_task : Pool → Pool
end_task p = record p { active = p.active - 1; running = p.running - 1 }

-- What `wait_all` waits for.
pub all_done : Pool → Bool
all_done p = p.active == 0 && p.pending == 0

pub shutdown : Pool → Pool
shutdown p = record p { stopped = true }
