-- ===== src/Prelude/Tests.antt =====
-- Boolean tests on the native numbers, the conditional, and functions that return at the first test
-- that passes.
use Prim.Native.Nat.{ℕ, suc, ◌<◌, compare, Ordering}
use mathlib.Core.Path.{◌≡◌, refl}
use mathlib.Core.Logic.{◌↔◌, ◌⊎◌, inl, inr}
use mathlib.Core.Bool.{Bool, true, false, ◌&&◌}
use mathlib.Core.Option.{Option, none, some}
use mathlib.Core.List.{List, [], ◌∷◌}
use native.Mathlib.Omega.{arith}

abbrev pub ltb : ℕ → ℕ → Bool
ltb a b = elim (compare a b) [ Ordering.lt ↦ true | _ ↦ false ]

abbrev pub leb : ℕ → ℕ → Bool
leb a b = elim (compare a b) [ Ordering.gt ↦ false | _ ↦ true ]

abbrev pub nat_beq : ℕ → ℕ → Bool
nat_beq a b = elim (compare a b) [ Ordering.eq ↦ true | _ ↦ false ]

pub nat_beq_iff : (a b : ℕ) → (nat_beq a b ≡ true) ↔ (a ≡ b)
nat_beq_iff a b = ground arith

pub ltb_iff : (a b : ℕ) → (ltb a b ≡ true) ↔ (a < b)
ltb_iff a b = ground arith

infix 1 if◌then◌else◌
abbrev pub if◌then◌else◌ {ℓ} : {A : Type ℓ} → Bool → A → A → A
if true then x else y = x
if false then x else y = y

pub Bool-cases : (b : Bool) → (b ≡ true) ⊎ (b ≡ false)
Bool-cases true = inl refl
Bool-cases false = inr refl

pub Option-cases {ℓ} : {A : Type ℓ} (o : Option A) → (o ≡ none) ⊎ ((a : A) × (o ≡ some a))
Option-cases none = inl refl
Option-cases (some a) = inr (a, refl)

abbrev pub is_some {ℓ} : {A : Type ℓ} → Option A → Bool
is_some none = false
is_some (some a) = true

abbrev pub is_none {ℓ} : {A : Type ℓ} → Option A → Bool
is_none none = true
is_none (some a) = false

-- A protobuf getter on a pointer that may be nil, and a dereference with a zero value.
abbrev pub value_or {ℓ} : {A : Type ℓ} → A → Option A → A
value_or z none = z
value_or z (some a) = a

abbrev pub length {ℓ} : {A : Type ℓ} → List A → ℕ
length [] = 0
length (x ∷ xs) = suc (length xs)

-- `if m₁ { return false }; if m₂ { return false }; …; return true`.
abbrev pub none_of : List Bool → Bool
none_of [] = true
none_of (m ∷ ms) = if m then false else none_of ms

abbrev pub NoneOf : List Bool → Type 0
NoneOf [] = Unit
NoneOf (m ∷ ms) = (m ≡ false) × NoneOf ms

pub none_of→NoneOf : (ms : List Bool) → none_of ms ≡ true → NoneOf ms
none_of→NoneOf [] h = tt
none_of→NoneOf (true ∷ ms) h = absurd (ground arith)
none_of→NoneOf (false ∷ ms) h = (refl, none_of→NoneOf ms h)

pub NoneOf→none_of : (ms : List Bool) → NoneOf ms → none_of ms ≡ true
NoneOf→none_of [] h = refl
NoneOf→none_of (true ∷ ms) h = absurd (ground arith)
NoneOf→none_of (false ∷ ms) h = NoneOf→none_of ms h.1

pub and_split : (a b : Bool) → (a && b) ≡ true → (a ≡ true) × (b ≡ true)
and_split a b h = ground arith

pub and_join : {a b : Bool} → a ≡ true → b ≡ true → (a && b) ≡ true
and_join p q = ground arith

-- One test of a chain of early returns, and the rest of them.
pub pass_test : {m rest : Bool} → m ≡ false → rest ≡ true → (if m then false else rest) ≡ true
pass_test p q = rw p q

-- A predicate holds of each element.
abbrev pub All : {A : Type 0} → (A → Type 0) → List A → Type 0
All P [] = Unit
All P (a ∷ as') = P a × All P as'
