-- ===== src/Core/Queue/Tests.antt =====
-- Runs of a message queue, and its theorem at a concrete history.
use aimeath.Common.{ℕ, ◌≡◌, refl, false, [], ◌∷◌, some}
use aimeath.Core.Queue.{Queue, pop, shutdown}
use aimeath.Core.Queue.Fifo.{History, begin, more, pops, IsFifo, Run-IsFifo}

abbrev two_items : Queue ℕ
two_items = record { items = 1 ∷ 2 ∷ []; is_shutdown = false }

abbrev before : History ℕ
before = record { queue = two_items; pushed = 1 ∷ 2 ∷ []; popped = [] }

abbrev after : History ℕ
after = record {
  queue = record { items = 2 ∷ []; is_shutdown = false };
  pushed = 1 ∷ 2 ∷ [];
  popped = 1 ∷ [];
}

popped_first : pop 0 two_items ≡ some (1, record { items = 2 ∷ []; is_shutdown = false })
unfolding pop
popped_first = refl

-- After a shutdown `pop` gives a new item even if there are items.
popped_late : pop 0 (shutdown two_items) ≡ some (0, shutdown two_items)
unfolding pop shutdown
popped_late = refl

Run-IsFifo_example : IsFifo after
Run-IsFifo_example =
    Run-IsFifo 0 {h = before} (record { is_open = refl; in_order = refl })
      (more begin (pops 1 (record { items = 2 ∷ []; is_shutdown = false }) before popped_first))
