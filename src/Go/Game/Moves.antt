-- ===== src/Go/Game/Moves.antt =====
-- The moves of GoGame::tick (game.cpp).
use aimeath.Common.{
  ℕ, suc, ◌+◌, ◌≤◌, ◌≡◌, ◌≢◌, refl, sym, subst, ◌∙◌, ap, ◌⊎◌, inl, inr, Bool, true, false, List, [],
  ◌∷◌, ◌++◌, Outcome, ok, ok-injective, ◌>>=◌, Bool-cases, length, length-append, arith, not,
  if◌then◌else◌, ◌==◌, ==→≢,
}
use mathlib.Core.Bool.{false≢true}
use mathlib.Core.List.{Memᴰ}
use mathlib.Core.List.Memᴰ
use aimeath.Common.Int.{ℤ}
use aimeath.Common.Ends.{Ends, Ends->>=, Ends-of, Ends-ok, Ends-if_cases}
use aimeath.Go.{empty, black, stone_eq, opponent, Board, on_board, place}
use aimeath.Go.Simulate.{is_legal}
use aimeath.Go.Cells.{IsBordered}
use aimeath.Go.Remove.{stones}
use aimeath.Go.Capture.{opponent-ne}
use aimeath.Go.Collected.{Distinct, Distinct-append_one}
use aimeath.Go.Rules.{Placed, place-Placed, is_legal-Legal}
use aimeath.Go.Again.{place_again}
use aimeath.Go.Alive.{AllAlive, Placed-AllAlive}
use aimeath.Go.Score.{hash}
use aimeath.Go.Score.Marks.{IsSized, hash_returns}
use aimeath.Go.Game.{Game, contains, commit, try_move, tick_stone}

-- While the game goes on, every group has a liberty, each move has put a stone on the board that is
-- still there or was captured, and the last position is the last of the history.
pub record IsLive (g : Game) : Type 0 where
  pub alive : AllAlive g.board.grid
  pub counted : stones g.board.grid + g.cap_black + g.cap_white ≡ length g.history
  pub passes : g.passes ≤ 1

pub record IsSound (g : Game) : Type 0 where
  pub sized : IsSized g.board
  pub turn : g.turn ≢ empty
  pub distinct : Distinct g.history
  pub marked_over : g.marking ≡ true → g.over ≡ true
  pub live : g.over ≡ false → IsLive g

-- The position and the history stay, or a new position comes to the history, whose hash is new.
abbrev pub KoStep : Game → Game → Type 0
KoStep g g' =
    (g'.board ≡ g.board) × (g'.history ≡ g.history)
    ⊎ ((h : ℕ) × (hash g'.board ≡ ok h) × (¬ Memᴰ h g.history) × (g'.history ≡ g.history ++ h ∷ []))

pub contains-Memᴰ : (h : ℕ) (ks : List ℕ) → contains h ks ≡ false → ¬ Memᴰ h ks
contains-Memᴰ h [] e m = Memᴰ.not-nil m
contains-Memᴰ h (k ∷ ks) e m = elim (Bool-cases (k == h)) [
  | inl same ↦ false≢true (sym e ∙ ap (λ t. if t then true else contains h ks) same)
  | inr other ↦ elim (Memᴰ.cases_cons m) [
    | inl q ↦ ==→≢ k h other (sym q)
    | inr m' ↦ contains-Memᴰ h ks (sym (ap (λ t. if t then true else contains h ks) other) ∙ e) m'
  ]
]

module _ (g : Game) (sound : IsSound g) (going : g.over ≡ false) (row col : ℤ) where
  pub lively : IsLive g
  lively = sound.live going

  -- The game after the move, with the board `b`, the stones taken and the hash `h`.
  abbrev pub committed : Board → ℕ → ℕ → Game
  committed b taken h = record g {
    board = b;
    cap_black = if stone_eq g.turn black then g.cap_black + taken else g.cap_black;
    cap_white = if stone_eq g.turn black then g.cap_white else g.cap_white + taken;
    history = g.history ++ h ∷ [];
    passes = 0;
    turn = opponent g.turn;
  }

  pub committed-IsSound :
      (b : Board) (taken h : ℕ)
      → AllAlive b.grid
        × IsBordered b.grid
        × (stones b.grid + taken ≡ suc (stones g.board.grid))
        × (b.dead ≡ g.board.dead)
      → ¬ Memᴰ h g.history
      → IsSound (committed b taken h)
  committed-IsSound b taken h (alive, bordered, counted, dead) new = record {
    sized = record { bordered = bordered; dead = ap length dead ∙ sound.sized.dead };
    turn = (opponent-ne g.turn sound.turn).0;
    distinct = Distinct-append_one g.history h sound.distinct new;
    marked_over = sound.marked_over;
    live = λ _. record {
      alive = alive;
      counted = ground (arith, lively.counted, counted, length-append g.history (h ∷ []));
      passes = omega arith;
    };
  }

  -- A tick keeps the rules, and a new position is one that the history does not have.
  abbrev pub Moves : Game → Type 0
  Moves g' = IsSound g' × KoStep g g'

  pub stays : Moves g
  stays = (sound, inl (refl, refl))

  pub commit-Moves :
      (captured : ℕ) (b : Board) (taken h : ℕ)
      → place row col g.turn captured g.board ≡ ok (true, b, taken)
      → hash b ≡ ok h
      → Moves (committed b taken h)
      → Ends ⊥ Moves (commit row col captured g)
  unfolding commit
  commit-Moves captured b taken h e eh after =
      Ends->>= ⊥ (λ k. (true, b, taken) ≡ k) Moves (place row col g.turn captured g.board) _
        (Ends-of ⊥ _ e refl)
        λ k ek.
          let P : Bool × Board × ℕ → Type 0 =
            λ k. Ends ⊥ Moves (hash k.1 >>= λ h. ok (committed k.1 k.2 h)) in
          subst P ek (
            Ends->>= ⊥ (λ j. h ≡ j) Moves (hash b) _ (Ends-of ⊥ _ eh refl)
              λ j ej. subst (λ j. Moves (committed b taken j)) ej after)

  -- The rest of a try, after the move was made on a copy.
  abbrev pub tried : Bool × Board × ℕ → Outcome Game
  tried (made, copy, captured) =
      if not made
      then ok g
      else (do h ← hash copy; (if contains h g.history then ok g else commit row col captured g))

  pub tried-Moves :
      (made : Bool) (copy : Board) (captured : ℕ)
      → place row col g.turn 0 g.board ≡ ok (made, copy, captured)
      → Placed row col g.turn g.board sound.sized.bordered sound.turn 0 (made, copy, captured)
      → Ends ⊥ Moves (tried (made, copy, captured))
  tried-Moves false copy captured e placed = stays
  tried-Moves true copy captured e placed =
      let bordered = sound.sized.bordered in
      let (_, bordered', _, dead) =
        Placed-AllAlive row col g.turn g.board bordered sound.turn 0 (true, copy, captured)
          lively.alive placed refl in
      let sized : IsSized copy = record {
        bordered = bordered';
        dead = ap length dead ∙ sound.sized.dead;
      } in
      let (h, eh, _) = Ends-ok (λ _. Unit {0}) (hash copy) (hash_returns copy sized) in
      let (taken, e') = place_again g.turn g.board 0 captured row col (true, copy, captured) e in
      let (r, er, placed') =
        Ends-ok _ (place row col g.turn captured g.board)
          (place-Placed row col g.turn g.board bordered sound.turn captured) in
      let again =
        subst (Placed row col g.turn g.board bordered sound.turn captured)
          (ok-injective (sym er ∙ e')) placed' in
      Ends->>= ⊥ (λ j. h ≡ j) Moves (hash copy) _ (Ends-of ⊥ _ eh refl)
        λ j ej.
          Ends-if_cases ⊥ Moves (contains j g.history) _ _ (λ _. stays)
            (λ new. commit-Moves captured copy taken h e' eh (
              let fresh =
                contains-Memᴰ h g.history
                  (subst (λ j. contains j g.history ≡ false) (sym ej) new) in
              (
                committed-IsSound copy taken h
                    (Placed-AllAlive row col g.turn g.board bordered sound.turn captured
                      (true, copy, taken) lively.alive again refl)
                    fresh,
                inr (h, eh, fresh, refl),
              )))

  pub try_move-Moves : Ends ⊥ Moves (try_move row col g)
  unfolding try_move
  try_move-Moves =
      let (r, e, placed) =
        Ends-ok _ (place row col g.turn 0 g.board)
          (place-Placed row col g.turn g.board sound.sized.bordered sound.turn 0) in
      Ends->>= ⊥ (λ k. r ≡ k) Moves (place row col g.turn 0 g.board) _ (Ends-of ⊥ _ e refl)
        λ k same. subst (λ k. Ends ⊥ Moves (tried k)) same (tried-Moves r.0 r.1 r.2 e placed)

  pub tick_stone-Moves : Ends ⊥ Moves (tick_stone row col g)
  unfolding tick_stone
  tick_stone-Moves =
      Ends-if_cases ⊥ Moves (not (on_board row col)) _ _ (λ _. stays)
        λ _.
          Ends->>= ⊥ _ Moves (is_legal row col g.turn g.board) _
            (is_legal-Legal row col g.turn g.board sound.sized.bordered sound.turn)
            λ legal _. Ends-if_cases ⊥ Moves (not legal) _ _ (λ _. stays) (λ _. try_move-Moves)
