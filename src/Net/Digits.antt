-- ===== src/Net/Digits.antt =====
-- Sequences of digits: where strings.Split cuts them, and the decimal text of a number.
use native.Mathlib.Omega.{pow_step}
use k8gobgp.Prelude.{
  ℕ, zero, suc, ◌+◌, ◌-◌, ◌*◌, ◌/◌, ◌%◌, ◌^◌, ◌<◌, ◌≡◌, refl, ◌∙◌, true, false, List, [], ◌∷◌, ◌++◌,
  nat_eq, if◌then◌else◌, ltb, arith, and_split, and_join, Bool-cases, inl, inr,
}
use k8gobgp.Net.Decimal
use k8gobgp.Net.Decimal.{is_digit, all_digits, decimal, split_on}

pub split_on-digits :
    (sep : ℕ) (xs : List ℕ)
    → is_digit sep ≡ false
    → all_digits xs ≡ true
    → split_on sep xs ≡ xs ∷ []
unfolding split_on all_digits is_digit
split_on-digits sep [] s h = refl
split_on-digits sep (c ∷ cs) s h = ground (arith, split_on-digits sep cs s)

pub split_on-sep :
    (sep : ℕ) (xs ys : List ℕ)
    → is_digit sep ≡ false
    → all_digits xs ≡ true
    → split_on sep (xs ++ (sep ∷ ys)) ≡ xs ∷ split_on sep ys
unfolding split_on all_digits is_digit
split_on-sep sep [] ys s h = ground arith
split_on-sep sep (c ∷ cs) ys s h = ground (arith, split_on-sep sep cs ys s)

-- The decimal digits of a number below 10 ^ rounds.
unfoldable pub print_digits : ℕ → ℕ → List ℕ
print_digits zero n = []
print_digits (suc rounds) n =
    let rest = print_digits rounds (n / 10) in
    if ltb n 10 then (48 + n) ∷ [] else rest ++ (48 + n % 10) ∷ []

all_digits-snoc :
    (xs : List ℕ) (d : ℕ)
    → all_digits xs ≡ true
    → is_digit d ≡ true
    → all_digits (xs ++ d ∷ []) ≡ true
unfolding all_digits
all_digits-snoc [] d h k = rw k refl
all_digits-snoc (c ∷ cs) d h k =
    let (here, later) = and_split _ _ h in and_join here (all_digits-snoc cs d later k)

decimal_from-snoc :
    (acc : ℕ) (xs : List ℕ) (d : ℕ)
    → Decimal.decimal_from acc (xs ++ d ∷ []) ≡ Decimal.decimal_from acc xs * 10 + (d - 48)
unfolding Decimal.decimal_from
decimal_from-snoc acc [] d = refl
decimal_from-snoc acc (c ∷ cs) d = decimal_from-snoc (acc * 10 + (c - 48)) cs d

one_digit : (m : ℕ) → ltb m 10 ≡ true → all_digits ((48 + m) ∷ []) ≡ true
unfolding all_digits is_digit
one_digit m h = ground arith

last_digit : (m : ℕ) → is_digit (48 + m % 10) ≡ true
unfolding is_digit
last_digit m = ground arith

pub all_digits-print_digits : (rounds n : ℕ) → all_digits (print_digits rounds n) ≡ true
unfolding print_digits
all_digits-print_digits zero n = unfold all_digits in refl
all_digits-print_digits (suc rounds) n = elim (Bool-cases (ltb n 10)) [
  | inl small ↦ rw small (one_digit n small)
  | inr large ↦ rw large (
      all_digits-snoc (print_digits rounds (n / 10)) (48 + n % 10)
        (all_digits-print_digits rounds (n / 10)) (last_digit n))
]

div_bound : (rounds n : ℕ) → n < 10 ^ suc rounds → n / 10 < 10 ^ rounds
div_bound rounds n h = let e = pow_step 10 rounds in omega (arith, e)

snoc_nonempty : (xs : List ℕ) (d : ℕ) → (c : ℕ) × (cs : List ℕ) × (xs ++ d ∷ [] ≡ c ∷ cs)
snoc_nonempty [] d = (d, [], refl)
snoc_nonempty (c ∷ cs) d = (c, cs ++ d ∷ [], refl)

-- The digits have the value of the number.
pub decimal-print_digits : (rounds n : ℕ) → n < 10 ^ rounds → decimal (print_digits rounds n) ≡ n
unfolding print_digits decimal Decimal.decimal_from
decimal-print_digits zero n h = omega arith
decimal-print_digits (suc rounds) n h = elim (Bool-cases (ltb n 10)) [
  | inl small ↦ rw small (ground arith)
  | inr large ↦
      let ih = decimal-print_digits rounds (n / 10) (div_bound rounds n h) in
      rw large
        (decimal_from-snoc 0 (print_digits rounds (n / 10)) (48 + n % 10) ∙ omega (arith, ih))
]

pub print_digits_nonempty :
    (rounds n : ℕ) → (c : ℕ) × (cs : List ℕ) × (print_digits (suc rounds) n ≡ c ∷ cs)
unfolding print_digits
print_digits_nonempty rounds n = elim (Bool-cases (ltb n 10)) [
  | inl small ↦ rw small (_, _, refl)
  | inr large ↦ rw large (snoc_nonempty (print_digits rounds (n / 10)) (48 + n % 10))
]
