-- ===== src/Net/Decimal.antt =====
-- Decimal digits, strconv.ParseUint in base 10, and strings.Split at one byte.
use k8gobgp.Prelude.{
  ℕ, ◌+◌, ◌-◌, ◌*◌, ◌^◌, Bool, true, ◌&&◌, Option, none, some, List, [], ◌∷◌, ◌==◌, nat_eq,
  if◌then◌else◌, leb, ltb,
}

unfoldable pub is_digit : ℕ → Bool
is_digit c = leb 48 c && leb c 57

unfoldable pub all_digits : List ℕ → Bool
unfolding is_digit
all_digits [] = true
all_digits (c ∷ cs) = is_digit c && all_digits cs

unfoldable pub decimal_from : ℕ → List ℕ → ℕ
decimal_from acc [] = acc
decimal_from acc (c ∷ cs) = decimal_from (acc * 10 + (c - 48)) cs

-- The value of a sequence of digits.
unfoldable pub decimal : List ℕ → ℕ
unfolding decimal_from
decimal cs = decimal_from 0 cs

-- strconv.ParseUint(s, 10, bits): an error on the empty text, on a byte that is no digit, and out of
-- range.
unfoldable pub parse_uint : ℕ → List ℕ → Option ℕ
unfolding all_digits decimal
parse_uint bits [] = none
parse_uint bits (c ∷ cs) =
    if all_digits (c ∷ cs) && ltb (decimal (c ∷ cs)) (2 ^ bits)
    then some (decimal (c ∷ cs))
    else none

unfoldable pub add_to_first : ℕ → List (List ℕ) → List (List ℕ)
add_to_first c [] = (c ∷ []) ∷ []
add_to_first c (p ∷ ps) = (c ∷ p) ∷ ps

-- strings.Split(s, sep) for a separator of one byte: at least one part.
unfoldable pub split_on : ℕ → List ℕ → List (List ℕ)
unfolding add_to_first
split_on sep [] = [] ∷ []
split_on sep (c ∷ cs) =
    let rest = split_on sep cs in if c == sep then [] ∷ rest else add_to_first c rest
