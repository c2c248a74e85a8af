-- ===== src/Go/Capture.antt =====
-- The captures of Board::place (board.cpp).
use aimeath.Common.{
  ℕ, ◌+◌, ◌<◌, ◌≡◌, ◌≢◌, refl, sym, ◌∙◌, ◌⊎◌, inl, inr, List, [], ◌∷◌, Bool-cases, length, arith,
}
use mathlib.Core.List.{Memᴰ}
use mathlib.Core.List.Memᴰ
use aimeath.Go.{Stone, empty, black, white, stone_eq, opponent}
use aimeath.Go.Cells.{
  stone_eq→≡, stone_eq→≢, Next, stone_at, IsBordered, Liberty, free, through, Next-sym,
}
use aimeath.Go.Group.{IsGroup, Memᴰ-cases}
use aimeath.Go.Collected.{Joined, alone, linked}
use aimeath.Go.Remove.{stones, Removed}

pub opponent-ne : (s : Stone) → s ≢ empty → (opponent s ≢ empty) × (opponent s ≢ s)
opponent-ne empty ne = absurd (ne refl)
opponent-ne black ne = (λ e. cc, λ e. cc)
opponent-ne white ne = (λ e. cc, λ e. cc)

pub Stone-cases : (a b : Stone) → (a ≡ b) ⊎ (a ≢ b)
Stone-cases a b = elim (Bool-cases (stone_eq a b)) [
  | inl same ↦ inl (stone_eq→≡ a b same)
  | inr other ↦ inr (stone_eq→≢ a b other)
]

module _ (grid : List Stone) (color : Stone) where
  pub Joined-Liberty :
      {i p : ℕ} → Joined grid color i p → Liberty grid color p → Liberty grid color i
  Joined-Liberty (alone own) l = l
  Joined-Liberty (linked own n rest) l = through own n (Joined-Liberty rest l)

  Joined-append :
      {i p q : ℕ}
      → Joined grid color i p
      → Next p q
      → stone_at grid q ≡ color
      → Joined grid color i q
  Joined-append (alone own) n e = linked own n (alone e)
  Joined-append (linked own m rest) n e = linked own m (Joined-append rest n e)

  pub Joined-stone : {i p : ℕ} → Joined grid color i p → stone_at grid p ≡ color
  Joined-stone (alone own) = own
  Joined-stone (linked own n rest) = Joined-stone rest

-- `start` is the grid with the new stone `s` at `idx`.
module _ (start : List Stone) (s : Stone) (idx : ℕ) where
  -- The stone at `i` belongs to a group of the opponent beside the new stone, without a liberty.
  pub record IsCaptured (i : ℕ) : Type 0 where
    pub beside : ℕ
    pub near : Next idx beside
    pub group : Joined start (opponent s) beside i
    pub stuck : ¬ Liberty start (opponent s) i

  -- The grid and the number of captured stones, after some of the neighbours.
  pub record Capturing (r : List Stone × ℕ) : Type 0 where
    pub bordered : IsBordered r.0
    pub others : (i : ℕ) → stone_at start i ≢ opponent s → stone_at r.0 i ≡ stone_at start i
    pub either :
        (i : ℕ)
        → stone_at start i ≡ opponent s
        → (stone_at r.0 i ≡ opponent s) ⊎ (stone_at r.0 i ≡ empty) × IsCaptured i
    pub whole :
        (i k : ℕ)
        → stone_at r.0 i ≡ opponent s
        → Next i k
        → stone_at start k ≡ opponent s
        → stone_at r.0 k ≡ opponent s
    pub counted : stones r.0 + r.1 ≡ stones start
    pub none : r.1 ≡ 0 → r.0 ≡ start
    pub some : r.1 ≢ 0 → (n : ℕ) × IsCaptured n × Next idx n

  module _ (r : List Stone × ℕ) (c : Capturing r) where
    pub survivor : (i : ℕ) → stone_at r.0 i ≡ opponent s → stone_at start i ≡ opponent s
    survivor i e = elim (Stone-cases (stone_at start i) (opponent s)) [
      | inl same ↦ same
      | inr other ↦ sym (c.others i other) ∙ e
    ]

    -- The liberties of a group that stays are those it had.
    pub Liberty-before :
        {i : ℕ}
        → stone_at r.0 i ≡ opponent s
        → opponent s ≢ empty
        → Liberty r.0 (opponent s) i
        → Liberty start (opponent s) i
    Liberty-before e ne (free e' inside) = absurd (ne (sym e ∙ e'))
    Liberty-before e ne (through {i} {j} own n l) =
        elim (Stone-cases (stone_at start j) (opponent s)) [
          | inl same ↦ through (survivor i e) n (Liberty-before (c.whole i j e n same) ne l)
          | inr other ↦ through (survivor i e) n (ending other l)
        ]
      where
        ending :
            stone_at start j ≢ opponent s
            → Liberty r.0 (opponent s) j
            → Liberty start (opponent s) j
        ending other (free e' inside) = free (sym (c.others j other) ∙ e') inside
        ending other (through own' n' l') = absurd (other (survivor j own'))

    pub Liberty-after :
        {i : ℕ}
        → stone_at r.0 i ≡ opponent s
        → opponent s ≢ empty
        → Liberty start (opponent s) i
        → Liberty r.0 (opponent s) i
    Liberty-after e ne (free {i} e' inside) = absurd (ne (sym (survivor i e) ∙ e'))
    Liberty-after e ne (through {i} {j} own n (free e' inside)) =
        through e n (free (c.others j (λ q. ne (sym q ∙ e')) ∙ e') inside)
    Liberty-after e ne (through {i} {j} own n (through own' n' l)) =
        through e n (Liberty-after (c.whole i j e n own') ne (through own' n' l))

    Joined-before : {i p : ℕ} → Joined r.0 (opponent s) i p → Joined start (opponent s) i p
    Joined-before (alone {i} own) = alone (survivor i own)
    Joined-before (linked {i} own n rest) = linked (survivor i own) n (Joined-before rest)

  module _ (colored : s ≢ empty) (r : List Stone × ℕ) (c : Capturing r) (n : ℕ) (near : Next idx n)
      (held : stone_at r.0 n ≡ opponent s) (stuck : ¬ Liberty r.0 (opponent s) n) (group : List ℕ)
      (is_group : IsGroup r.0 c.bordered (opponent s) (opponent-ne s colored).0 n group)
      (g : List Stone) (removed : Removed r.0 group g) where
    ne : opponent s ≢ empty
    ne = (opponent-ne s colored).0

    in_group : (i : ℕ) → Memᴰ i group → Joined r.0 (opponent s) n i
    in_group i = (is_group.members i).0

    IsCaptured-now : (i : ℕ) → Memᴰ i group → IsCaptured i
    IsCaptured-now i m =
        let joined = in_group i m in
        record {
          beside = n;
          near = near;
          group = Joined-before r c joined;
          stuck = λ l. stuck (
              Joined-Liberty r.0 (opponent s) joined
                (Liberty-after r c (Joined-stone r.0 (opponent s) joined) ne l));
        }

    pub still_there :
        (i : ℕ) → stone_at g i ≡ opponent s → ¬ Memᴰ i group × (stone_at r.0 i ≡ opponent s)
    still_there i e = elim (Memᴰ-cases i group) [
      | inl m ↦ absurd (ne (sym e ∙ removed.gone i m))
      | inr out ↦ (out, sym (removed.stays i out) ∙ e)
    ]

    self : Memᴰ n group
    self = (is_group.members n).1 (alone held)

    one : 0 < length group
    one = go group self
      where
        go : (ps : List ℕ) → Memᴰ n ps → 0 < length ps
        go [] m = absurd (Memᴰ.not-nil m)
        go (p ∷ ps) m = omega arith

    pub Capturing-group : Capturing (g, r.1 + length group)
    Capturing-group = record {
      bordered = removed.bordered;
      others = λ i other.
          removed.stays i
            (λ m. other (survivor r c i (Joined-stone r.0 (opponent s) (in_group i m))))
          ∙ c.others i other;
      either = λ i e. elim (Memᴰ-cases i group) [
        | inl m ↦ inr (removed.gone i m, IsCaptured-now i m)
        | inr out ↦ elim (c.either i e) [
          | inl stays ↦ inl (removed.stays i out ∙ stays)
          | inr (gone, was) ↦ inr (removed.stays i out ∙ gone, was)
        ]
      ];
      whole = λ i k e next e'.
          let (out, e₁) = still_there i e in
          let e₂ = c.whole i k e₁ next e' in
          removed.stays k (λ m. out (
            (is_group.members i).1
              (Joined-append r.0 (opponent s) (in_group k m) (Next-sym i k next) e₁)))
          ∙ e₂;
      counted = omega (arith, c.counted, removed.counted);
      none = λ z. absurd (omega (arith, one, z));
      some = λ _. (n, IsCaptured-now n self, near);
    }

    -- The round leaves no group without a liberty at its neighbour, and keeps what others achieved.
    pub captured_here : stone_at g n ≢ opponent s
    captured_here e = (still_there n e).0 self
