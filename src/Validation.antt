-- ===== src/Validation.antt =====
-- controllers/validation.go: ValidateCommunity and ValidateLargeCommunity, on the bytes of a text, and
-- the sanitizers of metric values and labels.
pub mod Communities
pub mod Labels
pub mod Families
pub mod Config
pub mod Findings
pub mod Accepts
use k8gobgp.Prelude.{
  ℕ, ◌-◌, Bool, true, false, not, ◌&&◌, ◌||◌, Option, none, some, List, [], ◌∷◌, ◌==◌, nat_eq,
  if◌then◌else◌, leb, ltb, length,
}
use k8gobgp.Net.{is_digit, parse_uint, split_on}

-- The run of digits that a text begins with, and what follows it.
unfoldable pub span_digits : List ℕ → List ℕ × List ℕ
unfolding is_digit
span_digits [] = ([], [])
span_digits (c ∷ cs) =
    let rest = span_digits cs in if is_digit c then (c ∷ rest.0, rest.1) else ([], c ∷ cs)

-- `\d{1,5}$`, and `:` before it.
one_to_five : List ℕ → Bool
one_to_five ds = leb 1 (length ds) && leb (length ds) 5

community_tail : List ℕ → Bool
unfolding span_digits one_to_five
community_tail [] = false
community_tail (c ∷ cs) =
    c == b':' && one_to_five (span_digits cs).0 && length (span_digits cs).1 == 0

-- communityPattern.MatchString: `^\d{1,5}:\d{1,5}$`. As `:` is no digit, a run is read to its end.
unfoldable pub community_pattern : List ℕ → Bool
unfolding span_digits one_to_five community_tail
community_pattern cs = one_to_five (span_digits cs).0 && community_tail (span_digits cs).1

-- The errors, each with its message's reason.
pub data CommunityError : Type 0 where
  invalid_format : CommunityError
  invalid_as_number : CommunityError
  invalid_value : CommunityError
  invalid_position : ℕ → CommunityError

-- `index_panic` is an index out of range, where the source would panic.
pub data Verdict : Type 0 where
  accepted : Verdict
  rejected : CommunityError → Verdict
  index_panic : Verdict

above : ℕ → Option ℕ → Bool
above limit none = true
above limit (some n) = ltb limit n

community_numbers : List (List ℕ) → Verdict
unfolding above
community_numbers (as_number ∷ value ∷ _) =
    if above 65535 (parse_uint 16 as_number)
    then rejected invalid_as_number
    else if above 65535 (parse_uint 16 value)
    then rejected invalid_value
    else accepted
community_numbers _ = index_panic

unfoldable pub validate_community : List ℕ → Verdict
unfolding community_pattern community_numbers
validate_community cs =
    if not (community_pattern cs)
    then rejected invalid_format
    else community_numbers (split_on b':' cs)

-- largeCommunityPattern: `^\d+:\d+:\d+$`.
one_or_more : List ℕ → Bool
one_or_more ds = leb 1 (length ds)

large_last : List ℕ → Bool
unfolding span_digits one_or_more
large_last [] = false
large_last (c ∷ cs) = c == b':' && one_or_more (span_digits cs).0 && length (span_digits cs).1 == 0

large_tail : List ℕ → Bool
unfolding span_digits one_or_more large_last
large_tail [] = false
large_tail (c ∷ cs) = c == b':' && one_or_more (span_digits cs).0 && large_last (span_digits cs).1

unfoldable pub large_community_pattern : List ℕ → Bool
unfolding span_digits one_or_more large_tail
large_community_pattern cs = one_or_more (span_digits cs).0 && large_tail (span_digits cs).1

-- The loop over the parts, from position `i`.
large_numbers : ℕ → List (List ℕ) → Verdict
unfolding above
large_numbers i [] = accepted
large_numbers i (part ∷ parts) =
    let rest = large_numbers (ℕ.suc i) parts in
    if above 4294967295 (parse_uint 32 part) then rejected (invalid_position (ℕ.suc i)) else rest

unfoldable pub validate_large_community : List ℕ → Verdict
unfolding large_community_pattern large_numbers
validate_large_community cs =
    if not (large_community_pattern cs)
    then rejected invalid_format
    else large_numbers 0 (split_on b':' cs)
