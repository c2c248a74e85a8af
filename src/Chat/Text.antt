-- ===== src/Chat/Text.antt =====
-- The searches in a text (std::string) that chat_server.cpp uses.
use Prim.Native.Char.{Char, code}
use Prim.Native.String.{◌∷◌, [], slice, ◌++◌ as append}
use aimeath.Common.{
  ℕ, zero, suc, ◌+◌, ◌/◌, ◌%◌, ltb, Bool, true, false, ◌||◌, ◌&&◌, Option, none, some, ◌==◌,
  if◌then◌else◌,
}
use aimeath.Common.Json.{String}

-- `text[0] == c`; the text ends with a null character.
abbrev pub first_is : ℕ → String → Bool
first_is c [] = false
first_is c (d ∷ s) = code d == c

-- `substr(1)` of a text that is not empty.
abbrev pub drop_first : String → String
drop_first [] = []
drop_first (c ∷ s) = s

abbrev pub is_blank : Char → Bool
is_blank c = code c == 32 || code c == 9

abbrev pub blank_only : String → Bool
blank_only [] = true
blank_only (c ∷ s) = is_blank c && blank_only s

-- `substr(find_first_not_of(" \t"))`, where there is such a place.
abbrev pub drop_blanks : String → String
drop_blanks [] = []
drop_blanks (c ∷ s) = if is_blank c then drop_blanks s else c ∷ s

-- The text up to the first blank, and what follows it.
abbrev pub split_blank : String → String × Option String
split_blank [] = ([], none)
split_blank (c ∷ s) =
    let (word, rest) = split_blank s in if is_blank c then ([], some s) else (c ∷ word, rest)

-- The text up to the first space, and what follows it.
abbrev pub split_space : String → String × Option String
split_space [] = ([], none)
split_space (c ∷ s) =
    let (word, rest) = split_space s in if code c == 32 then ([], some s) else (c ∷ word, rest)

-- The text without the blanks at its end, if it has another character.
abbrev pub trim_end : String → String
trim_end [] = []
trim_end (c ∷ s) = if blank_only s then (if is_blank c then c ∷ s else c ∷ []) else c ∷ trim_end s

-- What follows a prefix, if the text begins with it.
abbrev pub after_prefix : String → String → Option String
after_prefix [] s = some s
after_prefix (c ∷ p) [] = none
after_prefix (c ∷ p) (d ∷ s) = if code c == code d then after_prefix p s else none

abbrev pub digit : ℕ → String
digit n = slice "0123456789" n (n + 1)

-- `std::to_string`, of a number with at most so many digits.
abbrev pub digits : ℕ → ℕ → String
digits zero n = ""
digits (suc most) n =
    let front = digits most (n / 10) in if ltb n 10 then digit n else append front (digit (n % 10))

abbrev pub decimal : ℕ → String
decimal n = digits 20 n
