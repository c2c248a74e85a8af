-- ===== src/Core/Queue/Fifo.antt =====
-- The order of the items of MessageQueue (module/core/include/message_queue.hpp).
use aimeath.Common.{
  ◌≡◌, refl, sym, ap, ◌∙◌, subst, false, List, [], ◌∷◌, ◌++◌, none, some, if◌then◌else◌,
}
use mathlib.Core.List.{append_assoc}
use aimeath.Core.Queue.{Queue, push, try_pop, pop, take_first, wait_first}

-- A queue with the items that were pushed before a shutdown, and those that were popped.
pub record History (T : Type 0) : Type 0 where
  pub queue : Queue T
  pub pushed : List T
  pub popped : List T

-- The open queue holds what was pushed and not popped, in order.
pub record IsFifo {T : Type 0} (h : History T) : Type 0 where
  pub is_open : h.queue.is_shutdown ≡ false
  pub in_order : h.pushed ≡ h.popped ++ h.queue.items

none≢some : {T : Type 0} {item : T} → none ≡ some item → ⊥
none≢some e = cc

module _ {T : Type 0} (fresh : T) where
  -- What threads may do with the queue until it is shut down, in any order.
  pub data Step : History T → History T → Type 0 where
    pushes :
        (item : T) (h : History T)
        → Step h (record h { queue = push item h.queue; pushed = h.pushed ++ (item ∷ []) })
    pops :
        (item : T) (q : Queue T) (h : History T)
        → pop fresh h.queue ≡ some (item, q)
        → Step h (record h { queue = q; popped = h.popped ++ (item ∷ []) })
    tries :
        (item : T) (q : Queue T) (h : History T)
        → try_pop h.queue ≡ (some item, q)
        → Step h (record h { queue = q; popped = h.popped ++ (item ∷ []) })

  pub data Run (h : History T) : History T → Type 0 where
    begin : Run h h
    more : {k l : History T} → Run h k → Step k l → Run h l

  pushes-IsFifo :
      (item : T) (h : History T)
      → IsFifo h
      → IsFifo (record h { queue = push item h.queue; pushed = h.pushed ++ (item ∷ []) })
  unfolding push
  pushes-IsFifo item h f =
      subst (λ q. IsFifo (record h { queue = q; pushed = h.pushed ++ (item ∷ []) }))
        (sym (
          ap (λ t. if t then h.queue else record h.queue { items = h.queue.items ++ (item ∷ []) })
            f.is_open))
        (record {
          is_open = f.is_open;
          in_order =
              ap (λ xs. xs ++ (item ∷ [])) f.in_order
              ∙ append_assoc h.popped h.queue.items (item ∷ []);
        })

  -- The first item is taken.
  took-IsFifo :
      (item : T) (rest : List T) (q : Queue T) (h : History T)
      → IsFifo h
      → h.queue.items ≡ item ∷ rest
      → record h.queue { items = rest } ≡ q
      → IsFifo (record h { queue = q; popped = h.popped ++ (item ∷ []) })
  took-IsFifo item rest q h f held e =
      subst (λ k. IsFifo (record h { queue = k; popped = h.popped ++ (item ∷ []) })) e
        (record {
          is_open = f.is_open;
          in_order =
              f.in_order
              ∙ ap (λ xs. h.popped ++ xs) held
              ∙ sym (append_assoc h.popped (item ∷ []) rest);
        })

  popped-IsFifo :
      (item : T) (q : Queue T) (h : History T) (items : List T)
      → IsFifo h
      → h.queue.items ≡ items
      → wait_first items h.queue ≡ some (item, q)
      → IsFifo (record h { queue = q; popped = h.popped ++ (item ∷ []) })
  popped-IsFifo item q h [] f held e = cc
  popped-IsFifo item q h (x ∷ rest) f held e =
      let first : x ≡ item = ap (λ o. elim o [ none ↦ x | some p ↦ p.0 ]) e in
      took-IsFifo item rest q h f (held ∙ ap (λ y. y ∷ rest) first)
        (ap (λ o. elim o [ none ↦ record h.queue { items = rest } | some p ↦ p.1 ]) e)

  tried-IsFifo :
      (item : T) (q : Queue T) (h : History T) (items : List T)
      → IsFifo h
      → h.queue.items ≡ items
      → take_first items h.queue ≡ (some item, q)
      → IsFifo (record h { queue = q; popped = h.popped ++ (item ∷ []) })
  tried-IsFifo item q h [] f held e = absurd (none≢some (ap (λ p. p.0) e))
  tried-IsFifo item q h (x ∷ rest) f held e =
      let first : x ≡ item = ap (λ p. elim p.0 [ none ↦ x | some y ↦ y ]) e in
      took-IsFifo item rest q h f (held ∙ ap (λ y. y ∷ rest) first) (ap (λ p. p.1) e)

  Step-IsFifo : {h k : History T} → Step h k → IsFifo h → IsFifo k
  unfolding pop try_pop
  Step-IsFifo (pushes item h) f = pushes-IsFifo item h f
  Step-IsFifo (pops item q h e) f = popped-IsFifo item q h h.queue.items f refl (
      sym
        (ap (λ t. if t then some (fresh, h.queue) else wait_first h.queue.items h.queue) f.is_open)
      ∙ e)
  Step-IsFifo (tries item q h e) f = tried-IsFifo item q h h.queue.items f refl e

  -- Whatever threads push and pop in whatever order before a shutdown, starting from a queue
  -- that holds what was pushed and not popped, the items popped so far, followed by those in the
  -- queue, are the items pushed, in order.
  pub Run-IsFifo : {h k : History T} → IsFifo h → Run h k → IsFifo k
  Run-IsFifo f begin = f
  Run-IsFifo f (more r s) = Step-IsFifo s (Run-IsFifo f r)
