-- ===== src/Core/Queue.antt =====
-- MessageQueue (module/core/include/message_queue.hpp). Each method holds the mutex, so it is one
-- step; a wait is a step that cannot be taken.
pub mod Fifo
mod Tests
use package.aimeath.Common.{
  ℕ, suc, zero, Bool, true, false, not, ◌||◌, List, [], ◌∷◌, ◌++◌, Option, none, some, length,
  if◌then◌else◌,
}

pub record Queue {ℓ} (T : Type ℓ) : Type ℓ where
  pub items : List T
  pub is_shutdown : Bool

unfoldable pub new_queue {ℓ} : {T : Type ℓ} → Queue T
new_queue = record { items = []; is_shutdown = false }

module _ {ℓ} {T : Type ℓ} where
  unfoldable pub push : T → Queue T → Queue T
  push item q = if q.is_shutdown then q else record q { items = q.items ++ (item ∷ []) }

  abbrev pub take_first : List T → Queue T → Option T × Queue T
  take_first [] q = (none, q)
  take_first (item ∷ items) q = (some item, record q { items = items })

  -- `none`: the queue was empty.
  unfoldable pub try_pop : Queue T → Option T × Queue T
  try_pop q = take_first q.items q

  abbrev pub wait_first : List T → Queue T → Option (T × Queue T)
  wait_first [] q = none
  wait_first (item ∷ items) q = some (item, record q { items = items })

  -- `none`: the caller waits. `T{}` is the value of a new item.
  pub pop : T → Queue T → Option (T × Queue T)
  pop fresh q = if q.is_shutdown then some (fresh, q) else wait_first q.items q

  unfoldable pub size : Queue T → ℕ
  size q = length q.items

  abbrev is_empty : List T → Bool
  is_empty [] = true
  is_empty (_ ∷ _) = false

  pub empty : Queue T → Bool
  empty q = is_empty q.items

  unfoldable pub clear : Queue T → Queue T
  clear q = record q { items = [] }

  pub shutdown : Queue T → Queue T
  shutdown q = record q { is_shutdown = true }
