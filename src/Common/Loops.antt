-- ===== src/Common/Loops.antt =====
-- `for` loops whose body may fault, and the flags of a search.
use aimeath.Common.{
  ℕ, zero, suc, ◌+◌, ◌<◌, ◌≤◌, ◌≡◌, refl, sym, subst, ◌⊎◌, inl, inr, Bool, true, false,
  if◌then◌else◌, List, [], ◌∷◌, length, get_or, set, replicate, Outcome, ok, ◌>>=◌, arith,
}
use aimeath.Common.Ends.{Ends, Ends->>=, Ends-map}
use mathlib.Core.List.{Memᴰ}
use mathlib.Core.List.Memᴰ

module _ {A S : Type 0} where
  -- The body runs on each element, and passes the state on.
  unfoldable pub for_each : (A → S → Outcome S) → List A → S → Outcome S
  for_each body [] s = ok s
  for_each body (x ∷ xs) s = body x s >>= for_each body xs

  -- What the round for an element achieves, if later rounds keep it, holds of each element after
  -- the loop.
  pub for_each-each :
      (F : Type 0) (P : S → Type 0) (Q : A → S → Type 0) (body : A → S → Outcome S) (xs : List A)
      (s : S)
      → ((a : A) (s : S)
          → Memᴰ a xs
          → P s
          → Ends F (λ s'. P s' × Q a s' × ((b : A) → Q b s → Q b s')) (body a s))
      → P s
      → Ends F
          (λ s'. P s' × ((a : A) → Memᴰ a xs → Q a s') × ((b : A) → Q b s → Q b s'))
          (for_each body xs s)
  unfolding for_each
  for_each-each F P Q body [] s keep h = (h, λ a m. absurd (Memᴰ.not-nil m), λ b q. q)
  for_each-each F P Q body (x ∷ xs) s keep h =
      Ends->>= F (λ s'. P s' × Q x s' × ((b : A) → Q b s → Q b s')) _ (body x s) _
        (keep x s (Memᴰ.head refl) h)
        λ s₁ (p₁, q₁, later₁).
          Ends-map F _ _ (for_each body xs s₁)
            (λ s' (p', each', later'). (
              p',
              λ a m. elim (Memᴰ.cases_cons m) [
                | inl e ↦ subst (λ b. Q b s') (sym e) (later' x q₁)
                | inr m' ↦ each' a m'
              ],
              λ b q. later' b (later₁ b q),
            ))
            (for_each-each F P Q body xs s₁ (λ a s m. keep a s (Memᴰ.tail m)) p₁)

module _ {A S : Type 0} where
  -- The rounds may use that their element is in the list.
  pub for_each-kept :
      (F : Type 0) (P : S → Type 0) (body : A → S → Outcome S) (xs : List A) (s : S)
      → ((a : A) (s : S) → Memᴰ a xs → P s → Ends F P (body a s))
      → P s
      → Ends F P (for_each body xs s)
  unfolding for_each
  for_each-kept F P body [] s keep h = h
  for_each-kept F P body (x ∷ xs) s keep h =
      Ends->>= F P P (body x s) _ (keep x s (Memᴰ.head refl) h)
        λ s' h'. for_each-kept F P body xs s' (λ a s m. keep a s (Memᴰ.tail m)) h'

-- `flags[i]`.
abbrev pub marked : List Bool → ℕ → Bool
marked flags i = get_or flags i false

-- How many flags are clear.
abbrev pub unmarked : List Bool → ℕ
unmarked [] = 0
unmarked (flag ∷ flags) = (if flag then 0 else 1) + unmarked flags

-- Setting a clear flag leaves one less of them.
pub unmarked-set :
    (flags : List Bool) (at : ℕ)
    → marked flags at ≡ false
    → at < length flags
    → unmarked flags ≡ unmarked (set flags at true) + 1
unmarked-set (flag ∷ flags) zero clear lt = ground arith
unmarked-set (flag ∷ flags) (suc at) clear lt =
    omega (arith, unmarked-set flags at clear (omega arith))
unmarked-set [] at clear lt = absurd (omega arith)

-- After `flags[i] = true`, the flags that are set are those from before and this one.
pub marked-set :
    (bs : List Bool) (i j : ℕ) → marked (set bs i true) j ≡ true → (marked bs j ≡ true) ⊎ (j ≡ i)
marked-set [] i j h = inl h
marked-set (b ∷ bs) zero zero h = inr refl
marked-set (b ∷ bs) zero (suc j) h = inl h
marked-set (b ∷ bs) (suc i) zero h = inl h
marked-set (b ∷ bs) (suc i) (suc j) h = ground (arith, marked-set bs i j h)

pub marked-set_keeps :
    (bs : List Bool) (i j : ℕ) → marked bs j ≡ true → marked (set bs i true) j ≡ true
marked-set_keeps [] i j h = h
marked-set_keeps (b ∷ bs) zero zero h = refl
marked-set_keeps (b ∷ bs) zero (suc j) h = h
marked-set_keeps (b ∷ bs) (suc i) zero h = h
marked-set_keeps (b ∷ bs) (suc i) (suc j) h = marked-set_keeps bs i j h

pub unmarked-replicate : (n : ℕ) → unmarked (replicate n false) ≡ n
unmarked-replicate zero = refl
unmarked-replicate (suc n) = omega (arith, unmarked-replicate n)

pub unmarked_le : (flags : List Bool) → unmarked flags ≤ length flags
unmarked_le [] = omega arith
unmarked_le (flag ∷ flags) = ground (arith, unmarked_le flags)

-- k, k + 1 and so on, n numbers.
abbrev pub upto : ℕ → ℕ → List ℕ
upto k zero = []
upto k (suc n) = k ∷ upto (suc k) n

pub upto-lt : (k n i : ℕ) → Memᴰ i (upto k n) → i < k + n
upto-lt k zero i m = absurd (Memᴰ.not-nil m)
upto-lt k (suc n) i (Memᴰ.head e) = omega arith
upto-lt k (suc n) i (Memᴰ.tail m) = omega (arith, upto-lt (suc k) n i m)
