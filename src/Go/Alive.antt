-- ===== src/Go/Alive.antt =====
-- The liberties of all groups, and the number of stones, after a move (board.cpp).
use aimeath.Common.{
  ℕ, suc, ◌+◌, ◌<◌, ◌≡◌, ◌≢◌, refl, sym, subst, ◌∙◌, ◌⊎◌, inl, inr, Bool, true, false, List, ok,
  ok-injective, Bool-cases, ◌==◌, ==→≡, ==→≢, get_or-set_ne,
}
use mathlib.Core.Bool.{false≢true}
use aimeath.Common.Int.{ℤ}
use aimeath.Common.Ends.{Ends-ok}
use aimeath.Go.{Stone, empty, black, white, opponent, Board, cells, is_border, place}
use aimeath.Go.Cells.{stone_at, IsBordered, Liberty, free, through, Next, Next-sym}
use aimeath.Go.Remove.{stones, stones-set-stone}
use aimeath.Go.Capture.{opponent-ne, Stone-cases, survivor, Liberty-after}
use aimeath.Go.Move.{start, IsMoved, start-idx}
use aimeath.Go.Rules.{Placed, place-Placed}

-- Every stone of the board belongs to a group with a liberty.
abbrev pub AllAlive : List Stone → Type 0
AllAlive grid = (i : ℕ) → stone_at grid i ≢ empty → Liberty grid (stone_at grid i) i

sides : (s a : Stone) → s ≢ empty → a ≢ empty → (a ≡ s) ⊎ (a ≡ opponent s)
sides empty a ne ne' = absurd (ne refl)
sides black empty ne ne' = absurd (ne' refl)
sides black black ne ne' = inl refl
sides black white ne ne' = inr refl
sides white empty ne ne' = absurd (ne' refl)
sides white black ne ne' = inr refl
sides white white ne ne' = inl refl

module _ (grid : List Stone) (s : Stone) (idx : ℕ) (bordered : IsBordered grid)
    (colored : s ≢ empty) (lt : idx < cells) (inside : is_border idx ≡ false)
    (vacant : stone_at grid idx ≡ empty) (g : List Stone) (captured : ℕ)
    (moved : IsMoved grid s idx g captured) where
  -- Cells other than that of the new stone.
  elsewhere : (i : ℕ) → i ≢ idx → stone_at (start grid s idx) i ≡ stone_at grid i
  elsewhere i ne = get_or-set_ne grid idx i s empty (λ e. ne (sym e))

  index-cases : (i : ℕ) → (i ≡ idx) ⊎ (i ≢ idx)
  index-cases i = elim (Bool-cases (i == idx)) [
    | inl same ↦ inl (==→≡ i idx same)
    | inr other ↦ inr (==→≢ i idx other)
  ]

  opp_ne : opponent s ≢ empty
  opp_ne = (opponent-ne s colored).0

  opp_cell : (i : ℕ) → stone_at grid i ≡ opponent s → i ≢ idx
  opp_cell i e same = opp_ne (sym e ∙ subst (λ k. stone_at grid k ≡ empty) (sym same) vacant)

  here : stone_at (start grid s idx) idx ≡ s
  here = start-idx grid s idx bordered colored lt inside vacant

  before : (i : ℕ) → stone_at g i ≡ opponent s → stone_at (start grid s idx) i ≡ opponent s
  before = survivor (start grid s idx) s idx (g, captured) moved.capturing

  not_here : (i : ℕ) → stone_at (start grid s idx) i ≡ opponent s → i ≢ idx
  not_here i e same =
      (opponent-ne s colored).1
        (sym e ∙ subst (λ k. stone_at (start grid s idx) k ≡ s) (sym same) here)

  -- A group of the opponent that had a liberty and stays keeps one.
  opponent_lives :
      {i : ℕ}
      → Liberty grid (opponent s) i
      → stone_at g i ≡ opponent s
      → Liberty (start grid s idx) (opponent s) i
  opponent_lives (free {i} e inside') held =
      let e' = before i held in absurd (opp_ne (sym e' ∙ elsewhere i (not_here i e') ∙ e))
  opponent_lives (through {i} {j} own n (free e inside')) held = elim (index-cases j) [
    | inl same ↦ moved.beside i (Next-sym i idx (subst (Next i) same n)) held
    | inr other ↦ through (before i held) n (free (elsewhere j other ∙ e) inside')
  ]
  opponent_lives (through {i} {j} own n (through own' n' l)) held =
      let e' : stone_at (start grid s idx) j ≡ opponent s = elsewhere j (opp_cell j own') ∙ own' in
      through (before i held) n
        (opponent_lives (through own' n' l) (moved.capturing.whole i j held n e'))

  -- A group of the mover keeps a liberty, or gains that of the new stone.
  own_lives : {i : ℕ} → Liberty grid s i → Liberty g s i
  own_lives (free {i} e inside') = elim (index-cases i) [
    | inl same ↦ subst (Liberty g s) (sym same) moved.alive
    | inr other ↦
        let e' : stone_at (start grid s idx) i ≡ empty = elsewhere i other ∙ e in
        free (moved.capturing.others i (λ q. opp_ne (sym q ∙ e')) ∙ e') inside'
  ]
  own_lives (through {i} {j} own n l) =
      let ne : i ≢ idx =
        λ same. colored (sym own ∙ subst (λ k. stone_at grid k ≡ empty) (sym same) vacant) in
      let e' : stone_at (start grid s idx) i ≡ s = elsewhere i ne ∙ own in
      through (moved.capturing.others i (λ q. (opponent-ne s colored).1 (sym q ∙ e')) ∙ e') n
        (own_lives l)

  own_start : (i : ℕ) → stone_at g i ≡ s → stone_at (start grid s idx) i ≡ s
  own_start i e = elim (Stone-cases (stone_at (start grid s idx) i) (opponent s)) [
    | inr other ↦ sym (moved.capturing.others i other) ∙ e
    | inl opp ↦ elim (moved.capturing.either i opp) [
      | inl stays ↦ absurd ((opponent-ne s colored).1 (sym stays ∙ e))
      | inr (gone, _) ↦ absurd (colored (sym e ∙ gone))
    ]
  ]

  moved-AllAlive : AllAlive grid → AllAlive g
  moved-AllAlive alive i held = elim (sides s (stone_at g i) colored held) [
    | inl own ↦
        let e' : stone_at (start grid s idx) i ≡ s = own_start i own in
        elim (index-cases i) [
          | inl same ↦
              subst (λ a. Liberty g a i) (sym own) (subst (Liberty g s) (sym same) moved.alive)
          | inr other ↦
              let old : stone_at grid i ≡ s = sym (elsewhere i other) ∙ e' in
              subst (λ a. Liberty g a i) (sym own)
                (own_lives
                  (subst (λ a. Liberty grid a i) old (alive i (λ q. colored (sym old ∙ q)))))
        ]
    | inr opp ↦
        let e' = before i opp in
        let old : stone_at grid i ≡ opponent s = sym (elsewhere i (not_here i e')) ∙ e' in
        subst (λ a. Liberty g a i) (sym opp)
          (Liberty-after (start grid s idx) s idx (g, captured) moved.capturing opp opp_ne
            (opponent_lives
              (subst (λ a. Liberty grid a i) old (alive i (λ q. opp_ne (sym old ∙ q)))) opp))
  ]

  moved-stones : stones g + captured ≡ suc (stones grid)
  moved-stones =
      moved.capturing.counted ∙ stones-set-stone grid idx s (rw bordered.size lt) vacant colored

-- What a move of `place` keeps.
pub Placed-AllAlive :
    (row col : ℤ) (s : Stone) (b : Board) (bordered : IsBordered b.grid) (colored : s ≢ empty)
    (captured : ℕ) (r : Bool × Board × ℕ)
    → AllAlive b.grid
    → Placed row col s b bordered colored captured r
    → r.0 ≡ true
    → AllAlive r.1.grid
      × IsBordered r.1.grid
      × (stones r.1.grid + r.2 ≡ suc (stones b.grid))
      × (r.1.dead ≡ b.dead)
Placed-AllAlive row col s b bordered colored captured r alive (inr (f, _, _)) t =
    absurd (false≢true (sym f ∙ t))
Placed-AllAlive row col s b bordered colored captured r alive (inl (_, (m, moved, dead))) t = (
  moved-AllAlive b.grid s m.cell.idx bordered colored m.cell.lt m.cell.inside m.vacant r.1.grid r.2
      moved alive,
  moved.capturing.bordered,
  moved-stones b.grid s m.cell.idx bordered colored m.cell.lt m.cell.inside m.vacant r.1.grid r.2
      moved,
  dead,
)

-- Where `place` succeeds on a board on which every group has a liberty, every group has one on the
-- new board too. The number of stones grows by the new stone and falls by those captured.
pub place-AllAlive :
    (row col : ℤ) (s : Stone) (captured : ℕ) (b b' : Board) (taken : ℕ)
    → IsBordered b.grid
    → s ≢ empty
    → AllAlive b.grid
    → place row col s captured b ≡ ok (true, b', taken)
    → AllAlive b'.grid × IsBordered b'.grid × (stones b'.grid + taken ≡ suc (stones b.grid))
place-AllAlive row col s captured b b' taken bordered colored alive e =
    let (r, er, placed) =
      Ends-ok _ (place row col s captured b) (place-Placed row col s b bordered colored captured) in
    let P : Bool × Board × ℕ → Type 0 = λ r.
      r.0 ≡ true
      → AllAlive r.1.grid × IsBordered r.1.grid × (stones r.1.grid + r.2 ≡ suc (stones b.grid)) in
    subst P (ok-injective (sym er ∙ e))
      (λ t.
        let (a, h, n, _) = Placed-AllAlive row col s b bordered colored captured r alive placed t in
        (a, h, n))
      refl
