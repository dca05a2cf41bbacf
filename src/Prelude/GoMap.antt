-- ===== src/Prelude/GoMap.antt =====
-- Go's `map[string]V`. An assignment replaces the entry of its key, so each key stands once. The
-- order in which `range` visits the entries is left open: see `Sync`.
use Prim.Native.String.{String}
use mathlib.Core.Path.{◌≡◌, refl}
use mathlib.Core.Option.{Option, none, some}
use mathlib.Core.List.{List, [], ◌∷◌}
use native.Mathlib.Omega.{arith}
use k8gobgp.Prelude.Tests.{if◌then◌else◌}
use k8gobgp.Prelude.Equality.{◌==◌, string_eq}
use text.Mathlib.TextEquality.{eq_iff}

abbrev pub GoMap {ℓ} : Type ℓ → Type ℓ
GoMap V = List (String × V)

module _ {ℓ} {V : Type ℓ} where
  -- m[key], with whether the key is there.
  unfoldable pub lookup : String → GoMap V → Option V
  lookup key [] = none
  lookup key ((head, x) ∷ rest) = if head == key then some x else lookup key rest

  -- m[key] = x
  unfoldable pub insert : String → V → GoMap V → GoMap V
  insert key x [] = (key, x) ∷ []
  insert key x ((head, y) ∷ rest) =
      let kept = insert key x rest in if head == key then (key, x) ∷ rest else (head, y) ∷ kept

  -- delete(m, key)
  unfoldable pub erase : String → GoMap V → GoMap V
  erase key [] = []
  erase key ((head, y) ∷ rest) =
      let kept = erase key rest in if head == key then kept else (head, y) ∷ kept

  unfoldable pub keys : GoMap V → List String
  keys [] = []
  keys ((key, x) ∷ m) = key ∷ keys m

  pub lookup-insert :
      (key other : String) (x : V) (m : GoMap V)
      → lookup other (insert key x m) ≡ (if key == other then some x else lookup other m)
  unfolding lookup insert
  lookup-insert key other x [] = refl
  lookup-insert key other x ((head, y) ∷ rest) =
      let later = lookup-insert key other x rest in
      ground (arith, later, eq_iff head key, eq_iff head other, eq_iff key other)

  pub lookup-erase :
      (key other : String) (m : GoMap V)
      → lookup other (erase key m) ≡ (if key == other then none else lookup other m)
  unfolding lookup erase
  lookup-erase key other [] = ground arith
  lookup-erase key other ((head, y) ∷ rest) =
      let later = lookup-erase key other rest in
      ground (arith, later, eq_iff head key, eq_iff head other, eq_iff key other)
