-- ===== src/Common/Int.antt =====
-- The `int` of the source as a signed integer over the native numbers, under the library's names.
use Prim.Native.Nat.{ℕ, zero, suc, ◌+◌, ◌-◌, ◌/◌, ◌%◌, ◌<◌}
use mathlib.Core.Path.{◌≡◌, refl}
use mathlib.Core.Logic.{◌≢◌, ◌↔◌}
use mathlib.Core.Bool.{Bool, true, false}
use native.Mathlib.Omega.{arith}
use aimeath.Common.Tests.{ltb, leb, ◌==◌, if◌then◌else◌}

-- `negsuc n` is -(n + 1).
pub data ℤ : Type 0 where
  pos : ℕ → ℤ
  negsuc : ℕ → ℤ

abbrev pub pos_part : ℤ → ℕ
pos_part (pos n) = n
pos_part (negsuc n) = 0

abbrev pub neg_part : ℤ → ℕ
neg_part (pos n) = 0
neg_part (negsuc n) = suc n

-- a - b, as an integer.
abbrev pub sub_ℕ : ℕ → ℕ → ℤ
sub_ℕ a b = if leb b a then pos (a - b) else negsuc (b - a - 1)

-- `++x` and `--x`.
unfoldable pub inc : ℤ → ℤ
inc (pos n) = pos (suc n)
inc (negsuc zero) = pos 0
inc (negsuc (suc n)) = negsuc n

unfoldable pub dec : ℤ → ℤ
dec (pos zero) = negsuc 0
dec (pos (suc n)) = pos n
dec (negsuc n) = negsuc (suc n)

infixl 65 ◌+ℤ◌
infixl 70 ◌/ℤ◌ ◌%ℤ◌
unfoldable pub ◌+ℤ◌ : ℤ → ℤ → ℤ
a +ℤ b = sub_ℕ (pos_part a + pos_part b) (neg_part a + neg_part b)

unfoldable pub neg : ℤ → ℤ
neg a = sub_ℕ (neg_part a) (pos_part a)

-- The division of C++ by a positive number truncates towards 0, and the remainder has the sign of
-- the dividend.
unfoldable pub ◌/ℤ◌ : ℤ → ℕ → ℤ
◌/ℤ◌ (pos n) k = pos (n / k)
◌/ℤ◌ (negsuc n) k = sub_ℕ 0 (suc n / k)

unfoldable pub ◌%ℤ◌ : ℤ → ℕ → ℤ
◌%ℤ◌ (pos n) k = pos (n % k)
◌%ℤ◌ (negsuc n) k = sub_ℕ 0 (suc n % k)

infix 50 ◌==ℤ◌
abbrev pub ◌==ℤ◌ : ℤ → ℤ → Bool
◌==ℤ◌ (pos a) (pos b) = a == b
◌==ℤ◌ (pos a) (negsuc b) = false
◌==ℤ◌ (negsuc a) (pos b) = false
◌==ℤ◌ (negsuc a) (negsuc b) = a == b

abbrev pub ltb_ℤ : ℤ → ℤ → Bool
ltb_ℤ a b = ltb (pos_part a + neg_part b) (pos_part b + neg_part a)

-- 0 <= a && a < n, the test that a coordinate lies on a side of length n.
abbrev pub Below : ℤ → ℕ → Type 0
Below (pos a) n = a < n
Below (negsuc a) n = ⊥

abbrev pub within : ℤ → ℕ → Bool
within (pos a) n = ltb a n
within (negsuc a) n = false

pub ==ℤ_iff : (a b : ℤ) → ((a ==ℤ b) ≡ true) ↔ (a ≡ b)
==ℤ_iff a b = ground arith

pub inc-ne : (a : ℤ) → inc a ≢ a
unfolding inc
inc-ne (pos n) e = ground arith
inc-ne (negsuc zero) e = cc
inc-ne (negsuc (suc n)) e = ground arith

pub dec-ne : (a : ℤ) → dec a ≢ a
unfolding dec
dec-ne (pos zero) e = cc
dec-ne (pos (suc n)) e = ground arith
dec-ne (negsuc n) e = ground arith

pub within→Below : (a : ℤ) (n : ℕ) → within a n ≡ true → Below a n
within→Below (pos a) n h = ground arith
within→Below (negsuc a) n h = cc

pub Below→within : (a : ℤ) (n : ℕ) → Below a n → within a n ≡ true
Below→within (pos a) n h = ground arith
Below→within (negsuc a) n h = absurd h

pub Below-pos : (a : ℤ) (n : ℕ) → Below a n → (k : ℕ) × (a ≡ pos k) × (k < n)
Below-pos (pos k) n h = (k, refl, h)
Below-pos (negsuc k) n h = absurd h
