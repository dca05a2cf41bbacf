-- ===== src/Sync/SetListings.antt =====
-- controllers/bgpconfiguration_controller.go: reconcileDefinedSets, the map that its listings of the four types
-- make of the sets that gobgpd has.
use k8gobgp.Prelude.{
  All, String, ◌≡◌, ◌⊎◌, inl, inr, refl, sym, ap, ◌∙◌, Bool-cases, Option-cases, Option, none, some,
  List, [], ◌∷◌, ◌==◌, string_eq, eq_of_==, ==_refl,
}
use mathlib.Core.Option.{some-injective}
use k8gobgp.Prelude.GoMap.{GoMap, lookup, insert, lookup-insert}
use k8gobgp.Api.Policies.{
  DefinedType, type_prefix, type_neighbor, type_as_path, type_community, DefinedSet,
}
use k8gobgp.Sync.Policies.{SetListing, defined_types, received_sets, current_sets}

-- A message is in a listing.
abbrev pub Occurs : DefinedSet → List (Option DefinedSet) → Type 0
Occurs s [] = ⊥
Occurs s (message ∷ rest) = (message ≡ some s) ⊎ Occurs s rest

module _ (held : String → Option DefinedSet) where
  abbrev pub IsHeld : Option DefinedSet → Type 0
  IsHeld none = Unit
  IsHeld (some s) = held s.name ≡ some s

  -- The listings give the sets that gobgpd has, each under the type that it has, and no others. No two of
  -- them have one name.
  pub record ListsHeld (sets : DefinedType → List (Option DefinedSet)) : Type 0 where
    pub only_held : (t : DefinedType) → All IsHeld (sets t)
    pub all_held :
        (k : String) (s : DefinedSet)
        → held k ≡ some s
        → (s.name ≡ k) × Occurs s (sets s.defined_type)

  abbrev Sound : GoMap DefinedSet → Type 0
  Sound m = (k : String) (s : DefinedSet) → lookup k m ≡ some s → held k ≡ some s

  insert-Sound :
      (s : DefinedSet) (m : GoMap DefinedSet)
      → held s.name ≡ some s
      → Sound m
      → Sound (insert s.name s m)
  insert-Sound s m there sound k x found = elim (Bool-cases (s.name == k)) [
    | inl same ↦
        let new : some s ≡ some x = sym (lookup-insert s.name k s m ∙ rw same refl) ∙ found in
        rw (← eq_of_== {A = String} same) (there ∙ new)
    | inr other ↦ sound k x (sym (lookup-insert s.name k s m ∙ rw other refl) ∙ found)
  ]

  received_sets-Sound :
      (m : GoMap DefinedSet) (messages : List (Option DefinedSet))
      → All IsHeld messages
      → Sound m
      → Sound (received_sets m messages)
  unfolding received_sets
  received_sets-Sound m [] there sound = sound
  received_sets-Sound m (none ∷ rest) there sound = received_sets-Sound m rest there.1 sound
  received_sets-Sound m (some s ∷ rest) there sound =
      received_sets-Sound (insert s.name s m) rest there.1 (insert-Sound s m there.0 sound)

  -- What is in the map stays, since only what gobgpd has comes after it.
  insert_kept :
      (k : String) (x s : DefinedSet) (m : GoMap DefinedSet)
      → held k ≡ some x
      → held s.name ≡ some s
      → lookup k m ≡ some x
      → lookup k (insert s.name s m) ≡ some x
  insert_kept k x s m wanted there found =
      lookup-insert s.name k s m ∙ elim (Bool-cases (s.name == k)) [
        | inl same ↦ rw same (
            let at_k : held k ≡ some s = rw (← eq_of_== {A = String} same) there in
            sym at_k ∙ wanted)
        | inr other ↦ rw other found
      ]

  received_sets_kept :
      (k : String) (x : DefinedSet) (m : GoMap DefinedSet) (messages : List (Option DefinedSet))
      → held k ≡ some x
      → All IsHeld messages
      → lookup k m ≡ some x
      → lookup k (received_sets m messages) ≡ some x
  unfolding received_sets
  received_sets_kept k x m [] wanted there found = found
  received_sets_kept k x m (none ∷ rest) wanted there found =
      received_sets_kept k x m rest wanted there.1 found
  received_sets_kept k x m (some s ∷ rest) wanted there found =
      received_sets_kept k x (insert s.name s m) rest wanted there.1
        (insert_kept k x s m wanted there.0 found)

  received_sets-Occurs :
      (x : DefinedSet) (m : GoMap DefinedSet) (messages : List (Option DefinedSet))
      → held x.name ≡ some x
      → All IsHeld messages
      → Occurs x messages
      → lookup x.name (received_sets m messages) ≡ some x
  unfolding received_sets
  received_sets-Occurs x m [] wanted there occurs = absurd occurs
  received_sets-Occurs x m (none ∷ rest) wanted there (inl none_first) = absurd (cc)
  received_sets-Occurs x m (none ∷ rest) wanted there (inr later) =
      received_sets-Occurs x m rest wanted there.1 later
  received_sets-Occurs x m (some s ∷ rest) wanted there (inl first) =
      let same : s ≡ x = some-injective s x first in
      received_sets_kept x.name x (insert s.name s m) rest wanted there.1
        (lookup-insert s.name x.name s m ∙ rw same (rw (==_refl {A = String} x.name) refl))
  received_sets-Occurs x m (some s ∷ rest) wanted there (inr later) =
      received_sets-Occurs x (insert s.name s m) rest wanted there.1 later

  module _ (sets : DefinedType → List (Option DefinedSet)) (lists : ListsHeld sets) where
    -- The map after the listings of some types.
    gather : GoMap DefinedSet → List DefinedType → GoMap DefinedSet
    gather m [] = m
    gather m (t ∷ rest) = gather (received_sets m (sets t)) rest

    gather-Sound : (m : GoMap DefinedSet) (ts : List DefinedType) → Sound m → Sound (gather m ts)
    unfolding gather
    gather-Sound m [] sound = sound
    gather-Sound m (t ∷ rest) sound =
        gather-Sound (received_sets m (sets t)) rest
          (received_sets-Sound m (sets t) (lists.only_held t) sound)

    gather_kept :
        (k : String) (x : DefinedSet) (m : GoMap DefinedSet) (ts : List DefinedType)
        → held k ≡ some x
        → lookup k m ≡ some x
        → lookup k (gather m ts) ≡ some x
    unfolding gather
    gather_kept k x m [] wanted found = found
    gather_kept k x m (t ∷ rest) wanted found =
        gather_kept k x (received_sets m (sets t)) rest wanted
          (received_sets_kept k x m (sets t) wanted (lists.only_held t) found)

    abbrev Among : DefinedType → List DefinedType → Type 0
    Among t [] = ⊥
    Among t (u ∷ rest) = (u ≡ t) ⊎ Among t rest

    gather-Among :
        (x : DefinedSet) (m : GoMap DefinedSet) (ts : List DefinedType)
        → held x.name ≡ some x
        → Occurs x (sets x.defined_type)
        → Among x.defined_type ts
        → lookup x.name (gather m ts) ≡ some x
    unfolding gather
    gather-Among x m [] wanted occurs among = absurd among
    gather-Among x m (t ∷ rest) wanted occurs (inl here) =
        gather_kept x.name x (received_sets m (sets t)) rest wanted
          (received_sets-Occurs x m (sets t) wanted (lists.only_held t) (rw here occurs))
    gather-Among x m (t ∷ rest) wanted occurs (inr later) =
        gather-Among x (received_sets m (sets t)) rest wanted occurs later

    -- The four types are all.
    defined_types-Among : (t : DefinedType) → Among t defined_types
    defined_types-Among type_prefix = inl refl
    defined_types-Among type_neighbor = inr (inl refl)
    defined_types-Among type_as_path = inr (inr (inl refl))
    defined_types-Among type_community = inr (inr (inr (inl refl)))

    lookup-gather : (k : String) → lookup k (gather [] defined_types) ≡ held k
    unfolding lookup
    lookup-gather k = elim (Option-cases (held k)) [
      | inr (x, wanted) ↦
          let (named, occurs) = lists.all_held k x wanted in
          let at_name : held x.name ≡ some x = ap held named ∙ wanted in
          ap (λ name. lookup name (gather [] defined_types)) (sym named)
          ∙ gather-Among x [] defined_types at_name occurs (defined_types-Among x.defined_type)
          ∙ sym wanted
      | inl absent ↦ elim (Option-cases (lookup k (gather [] defined_types))) [
        | inl none_there ↦ none_there ∙ sym absent
        | inr (x, found) ↦
            found ∙ sym (gather-Sound [] defined_types (λ j y none_yet. absurd (cc)) k x found)
      ]
    ]

    current_sets-gather :
        (listing : SetListing) (m : GoMap DefinedSet) (ts : List DefinedType)
        → ((t : DefinedType) → listing t ≡ some (sets t))
        → current_sets listing m ts ≡ some (gather m ts)
    unfolding current_sets gather
    current_sets-gather listing m [] answers = refl
    current_sets-gather listing m (t ∷ rest) answers =
        rw (answers t, current_sets)
          (current_sets-gather listing (received_sets m (sets t)) rest answers)

    -- The map is made, and it has at each name what gobgpd has there.
    pub current_sets-held :
        (listing : SetListing)
        → ((t : DefinedType) → listing t ≡ some (sets t))
        → (current : GoMap DefinedSet) × (current_sets listing [] defined_types ≡ some current)
          × ((k : String) → lookup k current ≡ held k)
    current_sets-held listing answers = (
      gather [] defined_types,
      current_sets-gather listing [] defined_types answers,
      lookup-gather,
    )
