-- ===== src/Chat/Schedule.antt =====
-- The order in which the agents of a room are asked (chat_server.cpp), and what the variables of
-- `processNext` leave of it.
use aimeath.Common.{
  ℕ, zero, suc, ◌+◌, ◌-◌, ◌<◌, ◌≤◌, ◌≡◌, refl, sym, ◌∙◌, ap, Bool, true, false, List, [], ◌∷◌, ◌++◌,
  Option, none, some, get_elem?, length, ltb, if_by, arith,
}
use aimeath.Common.Json.{String}
use aimeath.Game.Api.{Boost}
use aimeath.Chat.{Talk, turn_of}

module _ {A : Type 0} where
  abbrev pub take : ℕ → List A → List A
  take zero xs = []
  take (suc n) [] = []
  take (suc n) (x ∷ xs) = x ∷ take n xs

  abbrev pub drop : ℕ → List A → List A
  drop zero xs = xs
  drop (suc n) [] = []
  drop (suc n) (x ∷ xs) = drop n xs

  -- The list, that many times.
  abbrev pub repeat : ℕ → List A → List A
  repeat zero xs = []
  repeat (suc n) xs = xs ++ repeat n xs

  drop-get_elem? :
      (xs : List A) (i : ℕ)
      → i < length xs
      → (x : A) × (get_elem? xs i ≡ some x) × (drop i xs ≡ x ∷ drop (suc i) xs)
  drop-get_elem? [] i h = absurd (omega arith)
  drop-get_elem? (x ∷ xs) zero h = (x, refl, refl)
  drop-get_elem? (x ∷ xs) (suc i) h = drop-get_elem? xs i (omega arith)

  drop_all : (xs : List A) (i : ℕ) → length xs ≤ i → drop i xs ≡ []
  drop_all [] zero h = refl
  drop_all [] (suc i) h = refl
  drop_all (x ∷ xs) zero h = absurd (omega arith)
  drop_all (x ∷ xs) (suc i) h = drop_all xs i (omega arith)

  repeat_none : (n m : ℕ) (xs : List A) → n ≤ m → repeat (n - m) xs ≡ []
  repeat_none n m xs h =
      let none_left : n - m ≡ 0 = omega (arith, h) in ap (λ k. repeat k xs) none_left

  repeat_one : (n m : ℕ) (xs : List A) → m < n → repeat (n - m) xs ≡ xs ++ repeat (n - (m + 1)) xs
  repeat_one n m xs h =
      let one_left : n - m ≡ suc (n - (m + 1)) = omega (arith, h) in ap (λ k. repeat k xs) one_left

-- The rounds after the one that is under way.
abbrev pub later : List String → Bool → ℕ → List String
later names true round = repeat (10 - round) names
later names false round = []

-- The names of the agents that a conversation still asks.
abbrev pub left : List String → Talk → List String
left names t = drop t.idx names ++ later names t.auto_loop t.round

-- A turn takes the first name that is left, or there is none.
abbrev pub Takes : List String → Talk → Talk × Option ℕ → Type 0
Takes names t (t', none) = (left names t ≡ []) × (left names t' ≡ [])
Takes names t (t', some i) =
    (name : String) × (get_elem? names i ≡ some name) × (left names t ≡ name ∷ left names t')

pub turn_of-Takes :
    (boost : Boost) (names : List String) (t : Talk)
    → 0 < length names
    → Takes names t (turn_of boost (length names) t)
unfolding turn_of
turn_of-Takes boost names t someone =
    if_by (Takes names t) (ltb t.idx (length names)) _ _
      (λ inside.
        let (name, here, split) = drop-get_elem? names t.idx (ground arith) in
        let next : suc t.idx ≡ t.idx + 1 = omega arith in
        (
          name,
          here,
          ap (λ xs. xs ++ later names t.auto_loop t.round) split
              ∙ ap (λ i. name ∷ drop i names ++ later names t.auto_loop t.round) next,
        ))
      (λ outside.
        let over : length names ≤ t.idx = ground arith in
        if_by (Takes names t) t.auto_loop _ _
          (λ auto.
            if_by (Takes names t) (ltb t.round 10) _ _
              (λ more.
                let (name, here, split) = drop-get_elem? names 0 someone in
                (
                  name,
                  here,
                  ap (λ xs. xs ++ later names t.auto_loop t.round) (drop_all names t.idx over)
                      ∙ ap (λ b. later names b t.round) auto
                      ∙ repeat_one 10 t.round names (ground arith)
                      ∙ ap (λ xs. xs ++ repeat (10 - (t.round + 1)) names) split
                      ∙ ap (λ b. name ∷ drop 1 names ++ later names b (t.round + 1)) (sym auto),
                ))
              (λ enough. (
                ap (λ xs. xs ++ later names t.auto_loop t.round) (drop_all names t.idx over)
                    ∙ ap (λ b. later names b t.round) auto
                    ∙ repeat_none 10 t.round names (ground arith),
                ap (λ xs. xs ++ later names t.auto_loop (t.round + 1))
                      (drop_all names (t.idx + 1) (omega (arith, over)))
                    ∙ ap (λ b. later names b (t.round + 1)) auto
                    ∙ repeat_none 10 (t.round + 1) names (ground arith),
              )))
          (λ once. (
            ap (λ xs. xs ++ later names t.auto_loop t.round) (drop_all names t.idx over)
                ∙ ap (λ b. later names b t.round) once,
            ap (λ xs. xs ++ later names t.auto_loop t.round)
                  (drop_all names (t.idx + 1) (omega (arith, over)))
                ∙ ap (λ b. later names b t.round) once,
          )))
