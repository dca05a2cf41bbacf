-- ===== src/Validation/Communities.antt =====
-- What ValidateCommunity and ValidateLargeCommunity accept.
use mathlib.Core.Path.{subst}
use mathlib.Core.List.{append-nil}
use k8gobgp.Prelude.{
  ℕ, suc, ◌^◌, ◌≤◌, ◌≡◌, refl, sym, ap, ◌∙◌, ◌↔◌, true, false, none, some, List, [], ◌∷◌, ◌++◌,
  arith, ◌==◌, nat_eq, if◌then◌else◌, ltb, length, Bool-cases, inl, inr, and_split, eq_of_==,
}
use k8gobgp.Net.{is_digit, all_digits, decimal, parse_uint, split_on}
use k8gobgp.Validation.{
  span_digits, one_to_five, community_tail, community_pattern, above, community_numbers, accepted,
  validate_community,
}

span-append : (cs : List ℕ) → (span_digits cs).0 ++ (span_digits cs).1 ≡ cs
unfolding span_digits
span-append [] = refl
span-append (c ∷ cs) = elim (Bool-cases (is_digit c)) [
  | inl d ↦ rw d (ap (λ t. c ∷ t) (span-append cs))
  | inr n ↦ rw n
]

span-all_digits : (cs : List ℕ) → all_digits (span_digits cs).0 ≡ true
unfolding span_digits all_digits
span-all_digits [] = refl
span-all_digits (c ∷ cs) = ground (arith, span-all_digits cs)

span_of_digits : (ds : List ℕ) → all_digits ds ≡ true → span_digits ds ≡ (ds, [])
unfolding span_digits all_digits
span_of_digits [] h = refl
span_of_digits (c ∷ cs) h = ground (arith, span_of_digits cs)

span_to_colon :
    (ds r : List ℕ) → all_digits ds ≡ true → span_digits (ds ++ b':' ∷ r) ≡ (ds, b':' ∷ r)
unfolding span_digits all_digits
span_to_colon [] r h = refl
span_to_colon (c ∷ cs) r h = ground (arith, span_to_colon cs r)

split_of_digits : (ds : List ℕ) → all_digits ds ≡ true → split_on b':' ds ≡ ds ∷ []
unfolding all_digits split_on
split_of_digits [] h = refl
split_of_digits (c ∷ cs) h = ground (arith, split_of_digits cs)

split_at_colon :
    (ds r : List ℕ) → all_digits ds ≡ true → split_on b':' (ds ++ b':' ∷ r) ≡ ds ∷ split_on b':' r
unfolding all_digits split_on
split_at_colon [] r h = refl
split_at_colon (c ∷ cs) r h = ground (arith, split_at_colon cs r)

above_within :
    (limit n : ℕ) → (above limit (if ltb n (suc limit) then some n else none) ≡ false) ↔ (n ≤ limit)
unfolding above
above_within limit n = ground arith

above-parse :
    (limit bits : ℕ) (ds : List ℕ)
    → all_digits ds ≡ true
    → 1 ≤ length ds
    → suc limit ≡ 2 ^ bits
    → (above limit (parse_uint bits ds) ≡ false) ↔ (decimal ds ≤ limit)
unfolding above parse_uint
above-parse limit bits [] h l e = absurd (omega arith)
above-parse limit bits (c ∷ cs) h l e = rw (h, ← e) (above_within limit (decimal (c ∷ cs)))

-- `AS:VALUE`, two decimal numbers of one to five digits, each at most 65535.
pub record IsCommunity (cs : List ℕ) : Type 0 where
  pub as_number : List ℕ
  pub value : List ℕ
  pub shape : cs ≡ as_number ++ b':' ∷ value
  pub as_digits : all_digits as_number ≡ true
  pub value_digits : all_digits value ≡ true
  pub as_length : (1 ≤ length as_number) × (length as_number ≤ 5)
  pub value_length : (1 ≤ length value) × (length value ≤ 5)
  pub as_bound : decimal as_number ≤ 65535
  pub value_bound : decimal value ≤ 65535

append_whole : (xs ys : List ℕ) {zs : List ℕ} → xs ++ ys ≡ zs → (length ys == 0) ≡ true → xs ≡ zs
append_whole xs [] h e = sym (append-nil xs) ∙ h
append_whole xs (y ∷ ys) h e = absurd (ground arith)

tail_parts :
    (r : List ℕ)
    → community_tail r ≡ true
    → (b : List ℕ) × (r ≡ b':' ∷ b) × (all_digits b ≡ true) × (one_to_five b ≡ true)
unfolding community_tail
tail_parts [] h = absurd (cc)
tail_parts (c ∷ cs) h =
    let (front, empty) = and_split _ _ h in
    let (colon, short) = and_split _ _ front in
    let whole = append_whole (span_digits cs).0 (span_digits cs).1 (span-append cs) empty in
    (
      cs,
      ap (λ (d : ℕ). d ∷ cs) (eq_of_== colon),
      subst (λ ds. all_digits ds ≡ true) whole (span-all_digits cs),
      subst (λ ds. one_to_five ds ≡ true) whole short,
    )

-- A text of the pattern is two runs of digits with a colon between.
pattern_parts :
    (cs : List ℕ)
    → community_pattern cs ≡ true
    → (a b : List ℕ) × (cs ≡ a ++ b':' ∷ b)
      × (all_digits a ≡ true)
      × (all_digits b ≡ true)
      × (one_to_five a ≡ true)
      × (one_to_five b ≡ true)
unfolding community_pattern
pattern_parts cs h =
    let (first, last) = and_split _ _ h in
    let (b, shape, digits, short) = tail_parts (span_digits cs).1 last in
    (
      (span_digits cs).0,
      b,
      sym (span-append cs) ∙ ap (λ r. (span_digits cs).0 ++ r) shape,
      span-all_digits cs,
      digits,
      first,
      short,
    )

one_to_five_iff : (ds : List ℕ) → (one_to_five ds ≡ true) ↔ ((1 ≤ length ds) × (length ds ≤ 5))
unfolding one_to_five
one_to_five_iff ds = ground arith

community_pattern_of_parts :
    (a b : List ℕ)
    → all_digits a ≡ true
    → all_digits b ≡ true
    → one_to_five a ≡ true
    → one_to_five b ≡ true
    → community_pattern (a ++ b':' ∷ b) ≡ true
unfolding community_pattern community_tail
community_pattern_of_parts a b da db la lb = rw (span_to_colon a b da, span_of_digits b db, la, lb)

numbers_of_parts :
    (a b : List ℕ)
    → all_digits a ≡ true
    → all_digits b ≡ true
    → 1 ≤ length a
    → 1 ≤ length b
    → (community_numbers (a ∷ b ∷ []) ≡ accepted) ↔ ((decimal a ≤ 65535) × (decimal b ≤ 65535))
unfolding community_numbers
numbers_of_parts a b da db la lb =
    let first = above-parse 65535 16 a da la refl in
    let second = above-parse 65535 16 b db lb refl in ground (arith, first, second)

split_of_parts :
    (a b : List ℕ)
    → all_digits a ≡ true
    → all_digits b ≡ true
    → split_on b':' (a ++ b':' ∷ b) ≡ a ∷ b ∷ []
split_of_parts a b da db = split_at_colon a b da ∙ ap (λ r. a ∷ r) (split_of_digits b db)

accepted_of_IsCommunity : (cs : List ℕ) → IsCommunity cs → validate_community cs ≡ accepted
unfolding validate_community
accepted_of_IsCommunity cs c =
    rw
      (
        c.shape,
        community_pattern_of_parts c.as_number c.value c.as_digits c.value_digits
            ((one_to_five_iff c.as_number).1 c.as_length)
            ((one_to_five_iff c.value).1 c.value_length),
        split_of_parts c.as_number c.value c.as_digits c.value_digits,
      )
      ((numbers_of_parts c.as_number c.value c.as_digits c.value_digits c.as_length.0
          c.value_length.0).1
        (c.as_bound, c.value_bound))

accepted_parts :
    (cs : List ℕ)
    → validate_community cs ≡ accepted
    → (community_pattern cs ≡ true) × (community_numbers (split_on b':' cs) ≡ accepted)
unfolding validate_community
accepted_parts cs h = elim (Bool-cases (community_pattern cs)) [
  | inl p ↦ (p, rw p at h)
  | inr n ↦ absurd (cc (rw n at h))
]

IsCommunity-of_accepted : (cs : List ℕ) → validate_community cs ≡ accepted → IsCommunity cs
IsCommunity-of_accepted cs h =
    let (matches, numbers) = accepted_parts cs h in
    let (a, b, shape, da, db, la, lb) = pattern_parts cs matches in
    let las = (one_to_five_iff a).0 la in
    let lbs = (one_to_five_iff b).0 lb in
    let split = ap (split_on b':') shape ∙ split_of_parts a b da db in
    let bounds =
      (numbers_of_parts a b da db las.0 lbs.0).0
        (subst (λ ps. community_numbers ps ≡ accepted) split numbers) in
    record {
      as_number = a;
      value = b;
      shape = shape;
      as_digits = da;
      value_digits = db;
      as_length = las;
      value_length = lbs;
      as_bound = bounds.0;
      value_bound = bounds.1;
    }

-- ValidateCommunity accepts a text exactly when it is two decimal numbers of one to five digits with
-- a colon between, neither above 65535.
pub validate_community_iff : (cs : List ℕ) → (validate_community cs ≡ accepted) ↔ IsCommunity cs
validate_community_iff cs = (IsCommunity-of_accepted cs, accepted_of_IsCommunity cs)
