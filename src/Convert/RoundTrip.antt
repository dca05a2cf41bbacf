-- ===== src/Convert/RoundTrip.antt =====
-- The text of a route distinguisher that the status reporter prints, read back by the controller's parser.
use mathlib.Core.Path.{subst}
use k8gobgp.Prelude.{
  ℕ, ◌^◌, ◌<◌, ◌≡◌, refl, ◌∙◌, sym, ap, true, false, some, List, [], ◌∷◌, ◌++◌, nat_eq, ltb, arith,
  Bool-cases, Option-cases, inl, inr, and_split, ltb_iff,
}
use k8gobgp.Net.{is_digit, all_digits, decimal, split_on}
use k8gobgp.Net.Digits.{
  split_on-digits, split_on-sep, print_digits, all_digits-print_digits, decimal-print_digits,
  print_digits_nonempty,
}
use k8gobgp.Api.Policies.{RouteDistinguisher, rd_two_octet_asn}
use k8gobgp.Convert.Vrfs
use k8gobgp.Convert.Vrfs.{
  digits_at, sscanf_uint32, asn_and_value, parse_route_distinguisher, print_uint32,
  format_route_distinguisher,
}

digits_at-all_digits : (xs : List ℕ) → all_digits xs ≡ true → digits_at xs ≡ xs
unfolding digits_at all_digits
digits_at-all_digits [] h = refl
digits_at-all_digits (c ∷ cs) h =
    let (here, later) = and_split (is_digit c) (all_digits cs) h in
    rw here (ap (λ xs. c ∷ xs) (digits_at-all_digits cs later))

skip_space-digit :
    (c : ℕ) (cs : List ℕ) → is_digit c ≡ true → Vrfs.skip_space (c ∷ cs) ≡ some (c ∷ cs)
unfolding Vrfs.skip_space is_digit
skip_space-digit c cs h = ground arith

number_of-small :
    (c : ℕ) (cs : List ℕ)
    → decimal (c ∷ cs) < 2 ^ 32
    → Vrfs.number_of (c ∷ cs) ≡ some (decimal (c ∷ cs))
unfolding Vrfs.number_of
number_of-small c cs h =
    let small : ltb (decimal (c ∷ cs)) (2 ^ 32) ≡ true = (ltb_iff _ _).1 h in rw small refl

first_digit : (c : ℕ) (cs : List ℕ) → all_digits (c ∷ cs) ≡ true → is_digit c ≡ true
unfolding all_digits
first_digit c cs h = (and_split (is_digit c) (all_digits cs) h).0

read_whole :
    (c : ℕ) (cs : List ℕ)
    → all_digits (c ∷ cs) ≡ true
    → decimal (c ∷ cs) < 2 ^ 32
    → sscanf_uint32 (c ∷ cs) ≡ some (decimal (c ∷ cs))
unfolding sscanf_uint32
read_whole c cs h fits =
    rw (skip_space-digit c cs (first_digit c cs h), sscanf_uint32)
      (rw (digits_at-all_digits (c ∷ cs) h) (number_of-small c cs fits))

-- Digits alone, of a number that fits, are read as that number.
sscanf_uint32-digits :
    (xs : List ℕ) (c : ℕ) (cs : List ℕ)
    → xs ≡ c ∷ cs
    → all_digits xs ≡ true
    → decimal xs < 2 ^ 32
    → sscanf_uint32 xs ≡ some (decimal xs)
unfolding sscanf_uint32
sscanf_uint32-digits xs c cs e h fits =
    let whole : all_digits (c ∷ cs) ≡ true = subst (λ ys. all_digits ys ≡ true) e h in
    let small : decimal (c ∷ cs) < 2 ^ 32 = subst (λ ys. decimal ys < 2 ^ 32) e fits in
    subst (λ ys. sscanf_uint32 ys ≡ some (decimal ys)) (sym e) (read_whole c cs whole small)

sscanf_uint32-print_uint32 : (n : ℕ) → n < 2 ^ 32 → sscanf_uint32 (print_uint32 n) ≡ some n
unfolding print_uint32
sscanf_uint32-print_uint32 n h =
    let (c, cs, e) = print_digits_nonempty 9 n in
    let value = decimal-print_digits 10 n (omega arith) in
    sscanf_uint32-digits (print_digits 10 n) c cs e (all_digits-print_digits 10 n) (rw value h)
    ∙ ap some value

colon_is_no_digit : is_digit b':' ≡ false
unfolding is_digit
colon_is_no_digit = refl

asn_and_value-parts :
    (c : ℕ) (cs ys : List ℕ)
    → all_digits (c ∷ cs) ≡ true
    → all_digits ys ≡ true
    → asn_and_value ((c ∷ cs) ++ (b':' ∷ ys))
      ≡ Vrfs.both_numbers (sscanf_uint32 (c ∷ cs)) (sscanf_uint32 ys)
unfolding asn_and_value Vrfs.two_parts
asn_and_value-parts c cs ys hx hy =
    let cut =
      split_on-sep b':' (c ∷ cs) ys colon_is_no_digit hx
      ∙ ap (λ t. (c ∷ cs) ∷ t) (split_on-digits b':' ys colon_is_no_digit hy) in
    ap Vrfs.two_parts cut

asn_and_value-digits :
    (xs ys : List ℕ) (c : ℕ) (cs : List ℕ)
    → xs ≡ c ∷ cs
    → all_digits xs ≡ true
    → all_digits ys ≡ true
    → asn_and_value (xs ++ (b':' ∷ ys)) ≡ Vrfs.both_numbers (sscanf_uint32 xs) (sscanf_uint32 ys)
asn_and_value-digits xs ys c cs e hx hy =
    subst
      (λ zs.
        asn_and_value (zs ++ (b':' ∷ ys)) ≡ Vrfs.both_numbers (sscanf_uint32 zs) (sscanf_uint32 ys))
      (sym e) (asn_and_value-parts c cs ys (subst (λ zs. all_digits zs ≡ true) e hx) hy)

all_digits-print_uint32 : (n : ℕ) → all_digits (print_uint32 n) ≡ true
unfolding print_uint32
all_digits-print_uint32 n = all_digits-print_digits 10 n

print_uint32_nonempty : (n : ℕ) → (c : ℕ) × (cs : List ℕ) × (print_uint32 n ≡ c ∷ cs)
unfolding print_uint32
print_uint32_nonempty n = print_digits_nonempty 9 n

asn_and_value-printed :
    (a b : ℕ)
    → a < 2 ^ 32
    → b < 2 ^ 32
    → asn_and_value (print_uint32 a ++ (b':' ∷ print_uint32 b)) ≡ some (a, b)
unfolding Vrfs.both_numbers
asn_and_value-printed a b ha hb =
    let (c, cs, e) = print_uint32_nonempty a in
    asn_and_value-digits (print_uint32 a) (print_uint32 b) c cs e (all_digits-print_uint32 a)
      (all_digits-print_uint32 b)
    ∙ rw (sscanf_uint32-print_uint32 a ha, sscanf_uint32-print_uint32 b hb) refl

-- A two-octet route distinguisher of 32-bit numbers, printed by the status reporter as "admin:assigned", is
-- read back by parseRouteDistinguisher as it was.
pub parse-format_route_distinguisher :
    (admin assigned : ℕ)
    → admin < 2 ^ 32
    → assigned < 2 ^ 32
    → parse_route_distinguisher
        (format_route_distinguisher (some (rd_two_octet_asn admin assigned)))
      ≡ some (rd_two_octet_asn admin assigned)
unfolding parse_route_distinguisher format_route_distinguisher
parse-format_route_distinguisher admin assigned ha hb =
    rw (asn_and_value-printed admin assigned ha hb) refl

number_of-bound : (ds : List ℕ) (n : ℕ) → Vrfs.number_of ds ≡ some n → n < 2 ^ 32
unfolding Vrfs.number_of
number_of-bound [] n h = absurd (cc)
number_of-bound (d ∷ ds) n h = elim (Bool-cases (ltb (decimal (d ∷ ds)) (2 ^ 32))) [
  | inl fits ↦
      let e : decimal (d ∷ ds) ≡ n = let k = rw fits at h in cc in
      subst (λ x. x < 2 ^ 32) e ((ltb_iff _ _).0 fits)
  | inr over ↦ let k = rw over at h in absurd (cc)
]

sscanf_uint32-bound : (s : List ℕ) (n : ℕ) → sscanf_uint32 s ≡ some n → n < 2 ^ 32
unfolding sscanf_uint32
sscanf_uint32-bound s n h = elim (Option-cases (Vrfs.skip_space s)) [
  | inl bad ↦ let k = rw (bad, sscanf_uint32) at h in absurd (cc)
  | inr (rest, at_rest) ↦ number_of-bound (digits_at rest) n (rw (at_rest, sscanf_uint32) at h)
]

both_numbers-bound :
    (s t : List ℕ) (a b : ℕ)
    → Vrfs.both_numbers (sscanf_uint32 s) (sscanf_uint32 t) ≡ some (a, b)
    → (a < 2 ^ 32) × (b < 2 ^ 32)
unfolding Vrfs.both_numbers
both_numbers-bound s t a b h = elim (Option-cases (sscanf_uint32 s)) [
  | inl bad ↦ let k = rw bad at h in absurd (cc)
  | inr (x, hx) ↦ elim (Option-cases (sscanf_uint32 t)) [
    | inl bad ↦ let k = rw (hx, bad) at h in absurd (cc)
    | inr (y, hy) ↦
        let k = rw (hx, hy) at h in
        let p : x ≡ a = ground arith in
        let q : y ≡ b = ground arith in
        (
          subst (λ n. n < 2 ^ 32) p (sscanf_uint32-bound s x hx),
          subst (λ n. n < 2 ^ 32) q (sscanf_uint32-bound t y hy),
        )
  ]
]

two_parts-bound :
    (parts : List (List ℕ)) (a b : ℕ)
    → Vrfs.two_parts parts ≡ some (a, b)
    → (a < 2 ^ 32) × (b < 2 ^ 32)
unfolding Vrfs.two_parts
two_parts-bound [] a b h = absurd (cc)
two_parts-bound (x ∷ []) a b h = absurd (cc)
two_parts-bound (x ∷ y ∷ []) a b h = both_numbers-bound x y a b h
two_parts-bound (x ∷ y ∷ z ∷ rest) a b h = absurd (cc)

asn_and_value-bound :
    (s : List ℕ) (a b : ℕ) → asn_and_value s ≡ some (a, b) → (a < 2 ^ 32) × (b < 2 ^ 32)
unfolding asn_and_value Vrfs.two_parts
asn_and_value-bound [] a b h = absurd (cc)
asn_and_value-bound (c ∷ cs) a b h = two_parts-bound (split_on b':' (c ∷ cs)) a b h

-- What parseRouteDistinguisher makes of a text, whatever spaces or trailing bytes it has, prints as a text
-- that it reads as the same value.
pub parse_route_distinguisher_stable :
    (text : List ℕ) (rd : RouteDistinguisher)
    → parse_route_distinguisher text ≡ some rd
    → parse_route_distinguisher (format_route_distinguisher (some rd)) ≡ some rd
unfolding parse_route_distinguisher
parse_route_distinguisher_stable text rd h = elim (Option-cases (asn_and_value text)) [
  | inl bad ↦ let k = rw bad at h in absurd (cc)
  | inr ((a, b), good) ↦
      let e : rd_two_octet_asn a b ≡ rd = let k = rw good at h in cc in
      let (ha, hb) = asn_and_value-bound text a b good in
      subst (λ x. parse_route_distinguisher (format_route_distinguisher (some x)) ≡ some x) e
        (parse-format_route_distinguisher a b ha hb)
]
