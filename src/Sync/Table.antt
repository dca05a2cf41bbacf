-- ===== src/Sync/Table.antt =====
-- gobgpd's objects of one kind as the calls see them: a table from keys to values. A call that
-- succeeds leaves one value, or none, at one key and changes no other.
use k8gobgp.Prelude.{String, ◌≡◌, Option, List, [], ◌∷◌, ◌==◌, string_eq, if◌then◌else◌}

pub record Table {C V : Type 0} (key_of : C → String) (value_of : C → Option V) (S : Type 0)
    : Type 0 where
  pub view : S → String → Option V
  pub apply : S → C → S
  pub view-apply :
      (s : S) (c : C) (j : String)
      → view (apply s c) j ≡ (if key_of c == j then value_of c else view s j)

module _ {C V S : Type 0} {key_of : C → String} {value_of : C → Option V}
    (t : Table key_of value_of S) where
  -- The calls one after the other.
  unfoldable pub run : S → List C → S
  run s [] = s
  run s (c ∷ cs) = run (t.apply s c) cs

-- What the calls leave at a key that all of them are for.
unfoldable pub settle : {C V : Type 0} → (C → Option V) → List C → Option V → Option V
settle value_of [] x = x
settle value_of (c ∷ cs) x = settle value_of cs (value_of c)

-- Every call of the list is for the key.
abbrev pub OnKey : {C : Type 0} → (C → String) → String → List C → Type 0
OnKey key_of k [] = Unit
OnKey key_of k (c ∷ cs) = (key_of c ≡ k) × OnKey key_of k cs
