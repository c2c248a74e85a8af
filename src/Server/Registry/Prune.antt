-- ===== src/Server/Registry/Prune.antt =====
-- `std::remove_if` over the references of SessionManager (ws_server.cpp).
use aimeath.Common.{◌≡◌, refl, Bool, ◌&&◌, List, [], ◌∷◌, ◌++◌, arith}
use aimeath.Server.Registry.{keep_if}

module _ {A : Type 0} where
  pub keep_if-append :
      (p : A → Bool) (xs ys : List A) → keep_if p (xs ++ ys) ≡ keep_if p xs ++ keep_if p ys
  unfolding keep_if
  keep_if-append p [] ys = refl
  keep_if-append p (x ∷ xs) ys = ground (arith, keep_if-append p xs ys)

  -- Pruning by two tests, one after the other.
  pub keep_if-keep_if :
      (p q s : A → Bool)
      → ((x : A) → (p x && q x) ≡ s x)
      → (xs : List A) → keep_if p (keep_if q xs) ≡ keep_if s xs
  unfolding keep_if
  keep_if-keep_if p q s both [] = refl
  keep_if-keep_if p q s both (x ∷ xs) = ground (arith, keep_if-keep_if p q s both xs, both x)
