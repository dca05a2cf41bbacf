-- ===== src/Prelude/Equality.antt =====
-- Go's `==` on comparable types and `slices.Equal`, as an instance argument.
use Prim.Native.Nat.{ℕ}
use Prim.Native.String.{String}
use mathlib.Core.Path.{◌≡◌, refl}
use mathlib.Core.Logic.{◌↔◌, ◌≢◌, inl, inr}
use mathlib.Core.Bool.{Bool, true, false, not, ◌&&◌, beq, decide, decide_iff}
use mathlib.Core.Option.{Option, none, some}
use mathlib.Core.List.{List, [], ◌∷◌}
use native.Mathlib.Omega.{arith}
use text.Mathlib.Text.{◌==◌ as text_beq}
use text.Mathlib.TextEquality.{eq_iff}
use k8gobgp.Prelude.Tests.{nat_beq, nat_beq_iff, Bool-cases}

pub record Eq {ℓ} (A : Type ℓ) : Type ℓ where
  pub same : A → A → Bool
  pub same_iff : (x y : A) → (same x y ≡ true) ↔ (x ≡ y)

infix 50 ◌==◌ ◌!=◌
abbrev pub ◌==◌ {ℓ} : {A : Type ℓ} ⦃e : Eq A⦄ (x y : A) → Bool
◌==◌ ⦃e⦄ x y = e.same x y

abbrev pub ◌!=◌ {ℓ} : {A : Type ℓ} ⦃e : Eq A⦄ → A → A → Bool
◌!=◌ ⦃e⦄ a b = not (e.same a b)

instance abbrev pub nat_eq : Eq ℕ
nat_eq = record { same = nat_beq; same_iff = nat_beq_iff }

instance abbrev pub string_eq : Eq String
string_eq = record { same = text_beq; same_iff = eq_iff }

pub bool_beq_iff : (a b : Bool) → (beq a b ≡ true) ↔ (a ≡ b)
bool_beq_iff a b = ground arith

instance abbrev pub bool_eq : Eq Bool
bool_eq = record { same = beq; same_iff = bool_beq_iff }

-- Of an enumeration, by its decision procedure.
abbrev pub discrete_eq {ℓ} : {A : Type ℓ} → Discrete A → Eq A
discrete_eq d = record { same = λ a b. decide (d a b); same_iff = λ a b. decide_iff (d a b) }

module _ {ℓ} {A : Type ℓ} ⦃e : Eq A⦄ where
  -- slices.Equal
  abbrev pub list_beq : List A → List A → Bool
  list_beq [] [] = true
  list_beq [] (b ∷ bs) = false
  list_beq (a ∷ as') [] = false
  list_beq (a ∷ as') (b ∷ bs) = e.same a b && list_beq as' bs

  pub list_beq_iff : (as' bs : List A) → (list_beq as' bs ≡ true) ↔ (as' ≡ bs)
  list_beq_iff [] [] = ground arith
  list_beq_iff [] (b ∷ bs) = ground arith
  list_beq_iff (a ∷ as') [] = ground arith
  list_beq_iff (a ∷ as') (b ∷ bs) = ground (arith, e.same_iff a b, list_beq_iff as' bs)

  abbrev pub option_beq : Option A → Option A → Bool
  option_beq none none = true
  option_beq none (some b) = false
  option_beq (some a) none = false
  option_beq (some a) (some b) = e.same a b

  pub option_beq_iff : (a b : Option A) → (option_beq a b ≡ true) ↔ (a ≡ b)
  option_beq_iff none none = ground arith
  option_beq_iff none (some b) = ground arith
  option_beq_iff (some a) none = ground arith
  option_beq_iff (some a) (some b) = ground (arith, e.same_iff a b)

  pub ==_refl : (a : A) → (a == a) ≡ true
  ==_refl a = (e.same_iff a a).1 refl

  pub eq_of_== : {a b : A} → (a == b) ≡ true → a ≡ b
  eq_of_== h = (e.same_iff _ _).0 h

  pub ==_of_eq : {a b : A} → a ≡ b → (a == b) ≡ true
  ==_of_eq {a} {b} p = (e.same_iff a b).1 p

  pub ==_of_ne : {a b : A} → a ≢ b → (a == b) ≡ false
  ==_of_ne {a} {b} n = elim (Bool-cases (a == b)) [
    | inl same ↦ absurd (n (eq_of_== same))
    | inr other ↦ other
  ]

  pub ne_of_== : {a b : A} → (a == b) ≡ false → a ≢ b
  ne_of_== {a} {b} h p = let s : (a == b) ≡ true = (e.same_iff a b).1 p in absurd (ground arith)

  -- The two readings of a comparison that guards an early return.
  pub eq_of_!= : {a b : A} → (a != b) ≡ false → a ≡ b
  eq_of_!= {a} {b} h = eq_of_== (ground arith)

  pub !=_of_eq : {a b : A} → a ≡ b → (a != b) ≡ false
  !=_of_eq {a} {b} p = let s : (a == b) ≡ true = (e.same_iff a b).1 p in ground arith

  pub eq_of_guarded : {g : Bool} {a b : A} → (g && (a != b)) ≡ false → g ≡ true → a ≡ b
  eq_of_guarded {g} {a} {b} h p = eq_of_!= (ground arith)

  pub guarded_of_eq : {g : Bool} {a b : A} → (g ≡ true → a ≡ b) → (g && (a != b)) ≡ false
  guarded_of_eq {g = true} p = !=_of_eq (p refl)
  guarded_of_eq {g = false} p = refl

  instance abbrev pub list_eq : Eq (List A)
  list_eq = record { same = list_beq; same_iff = list_beq_iff }

  instance abbrev pub option_eq : Eq (Option A)
  option_eq = record { same = option_beq; same_iff = option_beq_iff }
