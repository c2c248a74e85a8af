-- ===== src/Go/Stack.antt =====
-- The loop over a stack by which Board::isLegal (board.cpp) counts the liberties of a group.
use aimeath.Common.{
  ℕ, zero, suc, ◌+◌, ◌<◌, ◌≤◌, ◌≡◌, ◌≢◌, refl, sym, subst, ◌∙◌, ap, inl, inr, Bool, true, false,
  List, [], ◌∷◌, ok, ok-injective, length, set, length-set, get_or-set_self, length-replicate,
  get_or-replicate, arith, not, if◌then◌else◌, ◌&&◌,
}
use mathlib.Core.Bool.{false≢true}
use mathlib.Core.List.{Memᴰ}
use mathlib.Core.List.Memᴰ
use aimeath.Common.Int.{ℤ}
use aimeath.Common.Ends.{Ends, Ends->>=, Ends-of, Ends-map}
use aimeath.Common.Loops.{
  for_each, for_each-each, marked, marked-set, marked-set_keeps, unmarked-set, unmarked-replicate,
}
use aimeath.Go.{Stone, empty, stone_eq, cells, is_border, dirs, offset, load, visits, unvisited}
use aimeath.Go.Simulate.{Search, look_at, search, group_liberties}
use aimeath.Go.Cells.{
  stone_eq→≡, stone_eq→≢, load-get_or, Next, offset_in, stone_at, IsBordered, Liberty, through,
  Handled, sealed_lem, stone_inside, load_stone,
}
use aimeath.Go.Counted.{Handled-later}
use aimeath.Go.Waiting.{work, Inv, Inv-liberty, Inv-push}

module _ (grid : List Stone) (color : Stone) (start : ℕ) where
  abbrev Around : ℕ → ℤ → Search → Type 0
  Around cur d s = (j : ℕ) → offset cur d ≡ ok j → Handled grid color s.1 j

  -- What a look at one neighbour of `cur` leaves.
  abbrev Looked : ℕ → ℤ → ℕ → Search → Search → Type 0
  Looked cur d bound s s' =
      (Inv grid color start (λ i. i ≡ cur) s' × (work s' ≤ bound))
      × Around cur d s'
      × ((b : ℤ) → Around cur b s → Around cur b s')

  module _ (bordered : IsBordered grid) (colored : color ≢ empty) (cur : ℕ)
      (own : stone_at grid cur ≡ color)
      (lead : Liberty grid color cur → Liberty grid color start) where
    module _ (d : ℤ) (m : Memᴰ d dirs) (bound : ℕ) (libs : ℕ) (vis : List Bool) (stack : List ℕ)
        (inv : Inv grid color start (λ i. i ≡ cur) (libs, vis, stack))
        (le : work (libs, vis, stack) ≤ bound) (next : ℕ) (e : offset cur d ≡ ok next)
        (lt : next < cells) where
      leads : Liberty grid color next → Liberty grid color start
      leads l = lead (through own (d, m, e) l)

      -- Nothing changes, and the neighbour is marked or not to be entered.
      Looked-still :
          Handled grid color vis next → Looked cur d bound (libs, vis, stack) (libs, vis, stack)
      Looked-still handled = (
        (inv, le),
        λ j ej. subst (Handled grid color vis) (ok-injective (sym e ∙ ej)) handled,
        λ b q. q,
      )

      Looked-marked :
          (libs' : ℕ) (stack' : List ℕ)
          → Inv grid color start (λ i. i ≡ cur) (libs', set vis next true, stack')
          → work (libs', set vis next true, stack') ≤ bound
          → Looked cur d bound (libs, vis, stack) (libs', set vis next true, stack')
      Looked-marked libs' stack' inv' le' =
          let here = get_or-set_self vis next true false (rw inv.size lt) in
          (
            (inv', le'),
            λ j ej.
                inl (
                  subst (λ k. marked (set vis next true) k ≡ true) (ok-injective (sym e ∙ ej))
                    here),
            λ b q j ej.
                Handled-later grid color vis (set vis next true) j
                  (λ i. marked-set_keeps vis next i) (q j ej),
          )

      abbrev after : Bool → Bool → Bool → Bool → Search
      after vacant own border seen =
          if vacant
          then (if not border && not seen
              then (libs + 1, set vis next true, stack)
              else (libs, vis, stack))
          else (if own && not seen
              then (libs, set vis next true, next ∷ stack)
              else (libs, vis, stack))

      looked :
          (vacant own border seen : Bool)
          → stone_eq (stone_at grid next) empty ≡ vacant
          → stone_eq (stone_at grid next) color ≡ own
          → is_border next ≡ border
          → marked vis next ≡ seen
          → Looked cur d bound (libs, vis, stack) (after vacant own border seen)
      looked true o false false f _ inside new =
          let is_free = stone_eq→≡ (stone_at grid next) empty f in
          Looked-marked (libs + 1) stack
            (Inv-liberty grid color start (λ i. i ≡ cur) (libs, vis, stack) inv next lt new leads
              is_free inside colored)
            (omega (arith, unmarked-set vis next new (rw inv.size lt)))
      looked true o false true f _ inside seen = Looked-still (inl seen)
      looked true o true s f _ outer _ =
          Looked-still
            (inr (λ q. colored (sym q ∙ stone_eq→≡ (stone_at grid next) empty f), λ _. outer))
      looked false true b false f o _ new =
          Looked-marked libs (next ∷ stack)
            (Inv-push grid color start (λ i. i ≡ cur) (libs, vis, stack) inv next lt new leads
              (stone_eq→≡ (stone_at grid next) color o) colored)
            (omega (arith, unmarked-set vis next new (rw inv.size lt)))
      looked false true b true f o _ seen = Looked-still (inl seen)
      looked false false b s f o _ _ = Looked-still (
          inr (
            stone_eq→≢ (stone_at grid next) color o,
            λ q. absurd (stone_eq→≢ (stone_at grid next) empty f q),
          ))

    look_at-Looked :
        (d : ℤ) (m : Memᴰ d dirs) (bound : ℕ) (s : Search)
        → Inv grid color start (λ i. i ≡ cur) s
        → work s ≤ bound
        → cur < cells
        → Ends ⊥ (Looked cur d bound s) (look_at grid color cur d s)
    unfolding look_at
    look_at-Looked d m bound (libs, vis, stack) inv le cur_lt =
        let inside = stone_inside grid bordered cur (λ q. colored (sym own ∙ q)) in
        let (next, e, lt) = offset_in cur d cur_lt inside m in
        Ends->>= ⊥ (λ k. (offset cur d ≡ ok k) × (k < cells)) _ (offset cur d) _
          (Ends-of ⊥ _ e (e, lt))
          λ k (ek, k_lt).
            Ends->>= ⊥ (λ s. stone_at grid k ≡ s) _ (load grid k) _
              (Ends-of ⊥ _ (load_stone grid bordered k k_lt) refl)
              λ stone es.
                Ends->>= ⊥ (λ b. marked vis k ≡ b) _ (load vis k) _
                  (Ends-of ⊥ _ (load-get_or vis k false (rw inv.size k_lt)) refl)
                  λ seen eb.
                    looked d m bound libs vis stack inv le k ek k_lt _ _ _ _
                      (ap (λ s. stone_eq s empty) es) (ap (λ s. stone_eq s color) es) refl eb

    -- A round of the loop: the neighbours of a stone from the stack.
    round :
        (vis : List Bool) (libs : ℕ) (stack : List ℕ)
        → Inv grid color start (λ i. i ≡ cur) (libs, vis, stack)
        → cur < cells
        → Ends ⊥
            (λ s. Inv grid color start (λ _. ⊥) s × (work s ≤ work (libs, vis, stack)))
            (for_each (look_at grid color cur) dirs (libs, vis, stack))
    round vis libs stack inv lt =
        let bound = work (libs, vis, stack) in
        Ends-map ⊥ _ _ (for_each (look_at grid color cur) dirs (libs, vis, stack))
          (λ s ((inv', le), each, _). (
            record {
              size = inv'.size;
              started = inv'.started;
              stacked = inv'.stacked;
              closed = λ i m own'. elim (inv'.closed i m own') [
                | inl waits ↦ inl waits
                | inr (inl same) ↦ inr (
                    inr λ j n.
                      subst (λ k. (j : ℕ) → Next k j → Handled grid color s.1 j) (sym same)
                        (λ j (d, m, e). each d m j e) j n)
                | inr (inr around) ↦ inr (inr around)
              ];
              none = inv'.none;
              found = inv'.found;
            },
            le,
          ))
          (for_each-each ⊥ (λ s. Inv grid color start (λ i. i ≡ cur) s × (work s ≤ bound))
            (Around cur) (look_at grid color cur) dirs (libs, vis, stack)
            (λ d s m (inv, le). look_at-Looked d m bound s inv le lt) (inv, omega arith))

module _ (grid : List Stone) (bordered : IsBordered grid) (color : Stone) (colored : color ≢ empty)
    (start : ℕ) where
  -- The number of liberties found tells whether the group has one.
  abbrev pub Tells : ℕ → Type 0
  Tells libs = (libs ≢ 0 → Liberty grid color start) × (libs ≡ 0 → ¬ Liberty grid color start)

  search-Tells :
      (fuel : ℕ) (s : Search)
      → Inv grid color start (λ _. ⊥) s
      → work s < fuel
      → Ends ⊥ Tells (search grid color fuel s)
  unfolding search
  search-Tells zero s inv enough = absurd (omega arith)
  search-Tells (suc fuel) (libs, vis, []) inv enough = (
    inv.found,
    λ z.
        sealed_lem grid color vis
          (λ i j m own n. elim (inv.closed i m own) [
            | inl waits ↦ absurd (Memᴰ.not-nil waits)
            | inr (inl b) ↦ absurd b
            | inr (inr around) ↦ around j n
          ])
          (λ i m e. absurd (inv.none z i m e)) (inl inv.started),
  )
  search-Tells (suc fuel) (libs, vis, cur ∷ stack) inv enough =
      let (m, own, lt, lead) = inv.stacked cur (Memᴰ.head refl) in
      let popped : Inv grid color start (λ i. i ≡ cur) (libs, vis, stack) = record {
        size = inv.size;
        started = inv.started;
        stacked = λ i m. inv.stacked i (Memᴰ.tail m);
        closed = λ i m own. elim (inv.closed i m own) [
          | inl waits ↦ elim (Memᴰ.cases_cons waits) [ inl e ↦ inr (inl e) | inr w ↦ inl w ]
          | inr (inl b) ↦ absurd b
          | inr (inr around) ↦ inr (inr around)
        ];
        none = inv.none;
        found = inv.found;
      } in
      Ends->>= ⊥ (λ s. Inv grid color start (λ _. ⊥) s × (work s ≤ work (libs, vis, stack))) Tells
        (for_each (look_at grid color cur) dirs (libs, vis, stack)) _
        (round grid color start bordered colored cur own lead vis libs stack popped lt)
        λ s (inv', le). search-Tells fuel s inv' (omega arith)

  -- `isLegal` counts no liberty exactly if the group at `start` has none.
  pub group_liberties-Tells :
      start < cells → stone_at grid start ≡ color → Ends ⊥ Tells (group_liberties grid color start)
  unfolding group_liberties
  group_liberties-Tells lt own =
      let fresh = get_or-replicate cells start false in
      let bound : start < length unvisited = rw (length-replicate cells false) lt in
      search-Tells visits (0, set unvisited start true, start ∷ [])
        (record {
          size = length-set unvisited start true ∙ length-replicate cells false;
          started = get_or-set_self unvisited start true false bound;
          stacked = λ i m. elim (Memᴰ.cases_cons m) [
            | inl same ↦
                subst
                  (λ k.
                    (marked (set unvisited start true) k ≡ true)
                    × (stone_at grid k ≡ color)
                    × (k < cells)
                    × (Liberty grid color k → Liberty grid color start))
                  (sym same) (get_or-set_self unvisited start true false bound, own, lt, λ l. l)
            | inr none ↦ absurd (Memᴰ.not-nil none)
          ];
          closed = λ i m _. inl (Memᴰ.head (only i m));
          none = λ _ i m e. colored (sym own ∙ subst (λ k. stone_at grid k ≡ empty) (only i m) e);
          found = λ ne. absurd (ne refl);
        })
        (omega (arith, unmarked-set unvisited start fresh bound, unmarked-replicate cells))
    where
      only : (i : ℕ) → marked (set unvisited start true) i ≡ true → i ≡ start
      only i m = elim (marked-set unvisited start i m) [
        | inl old ↦ absurd (false≢true (sym (get_or-replicate cells i false) ∙ old))
        | inr same ↦ same
      ]
