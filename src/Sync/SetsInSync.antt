-- ===== src/Sync/SetsInSync.antt =====
-- controllers/bgpconfiguration_controller.go: reconcileDefinedSets and the sets that gobgpd has.
use k8gobgp.Prelude.{
  String, ◌≡◌, ◌↔◌, refl, sym, ap, ◌∙◌, true, not, Option, none, some, List, [], ◌∷◌, ◌++◌, ◌==◌,
  nat_eq, string_eq, list_eq, if◌then◌else◌, Bool-cases, Option-cases, inl, inr, eq_of_==,
}
use mathlib.Core.Path.{subst}
use k8gobgp.Prelude.GoMap.{GoMap, lookup, keys}
use k8gobgp.Crd
use k8gobgp.Api.Policies.{DefinedSet, defined_type_eq}
use k8gobgp.Sync.{
  RangeOrder, VisitsAll, sync, each, listed, wanted, unwanted, wanted_of, unwanted_of,
}
use k8gobgp.Sync.Settled.{listed-keys, unwanted_idle, wanted_idle}
use k8gobgp.Sync.Policies.{
  defined_set_equal, DefinedSetCall, delete_defined_set, add_defined_set, replace_defined_set,
  set_calls,
}
use k8gobgp.Sync.SetsEqual.{defined_set_equal_iff}

module _ {C : Type 0} where
  append-nil : (xs ys : List C) → xs ++ ys ≡ [] → (xs ≡ []) × (ys ≡ [])
  append-nil [] ys h = (refl, h)
  append-nil (x ∷ xs) ys h = absurd (cc)

  each-nil :
      (body : String → List C) (ks : List String) (k : String)
      → each body ks ≡ []
      → listed k ks ≡ true
      → body k ≡ []
  unfolding each listed
  each-nil body [] k h there = absurd (cc)
  each-nil body (j ∷ ks) k h there =
      let (here, later) = append-nil (body j) (each body ks) h in
      elim (Bool-cases (j == k)) [
        | inl same ↦ subst (λ x. body x ≡ []) (eq_of_== {A = String} same) here
        | inr other ↦ each-nil body ks k later (rw other at there)
      ]

  each-idle :
      (body : String → List C) (ks : List String) → ((k : String) → body k ≡ []) → each body ks ≡ []
  unfolding each
  each-idle body [] idle = refl
  each-idle body (k ∷ ks) idle = rw (idle k) (each-idle body ks idle)

delete_of : String → DefinedSet → List DefinedSetCall
delete_of name c = delete_defined_set name ∷ []

add_of : String → DefinedSet → List DefinedSetCall
add_of name d = add_defined_set d ∷ []

replace_of : String → DefinedSet → DefinedSet → List DefinedSetCall
replace_of name d c = if not (defined_set_equal d c) then replace_defined_set d ∷ [] else []

replace_of-nil_iff : (k : String) (d c : DefinedSet) → (replace_of k d c ≡ []) ↔ (d ≡ c)
unfolding replace_of
replace_of-nil_iff k d c =
    let equal = defined_set_equal_iff d c in
    elim (Bool-cases (defined_set_equal d c)) [
      | inl same ↦ rw same (λ h. equal.0 same, λ h. refl)
      | inr other ↦ rw other (λ h. absurd (cc), λ h. absurd (let p = sym other ∙ equal.1 h in cc))
    ]

-- The bodies of both walks at a key: no call exactly if the maps agree there.
bodies_nil_iff :
    (k : String) (d c : Option DefinedSet)
    → ((unwanted_of (delete_of k) d c ≡ []) × (wanted_of (add_of k) (replace_of k) d c ≡ []))
      ↔ (c ≡ d)
unfolding unwanted_of wanted_of delete_of add_of
bodies_nil_iff k none none = (λ h. refl, λ h. (refl, refl))
bodies_nil_iff k none (some c) = (λ h. absurd (let e = h.0 in cc), λ h. absurd (cc))
bodies_nil_iff k (some d) none = (λ h. absurd (let e = h.1 in cc), λ h. absurd (cc))
bodies_nil_iff k (some d) (some c) =
    let r = replace_of-nil_iff k d c in
    (λ h. ap some (sym (r.0 h.1)), λ h. (refl, r.1 (let e : d ≡ c = cc in e)))

module _ (visit : RangeOrder) (visits : VisitsAll visit) (current desired : GoMap DefinedSet) where
  deletes : String → List DefinedSetCall
  deletes = unwanted delete_of current desired

  adds : String → List DefinedSetCall
  adds = wanted add_of replace_of current desired

  -- The bodies of the walks make no call at the key.
  abbrev AtKey : String → Type 0
  AtKey k =
      (unwanted_of (delete_of k) (lookup k desired) (lookup k current) ≡ [])
      × (wanted_of (add_of k) (replace_of k) (lookup k desired) (lookup k current) ≡ [])

  walks_nil : set_calls visit current desired ≡ [] → (k : String) → (deletes k ≡ []) × (adds k ≡ [])
  unfolding set_calls sync deletes adds delete_of add_of replace_of
  walks_nil h k =
      let (no_deletes, no_adds) =
        append-nil (each deletes (visit 0 (keys current))) (each adds (visit 1 (keys desired))) h in
      (
        elim (Option-cases (lookup k current)) [
          | inl absent ↦ unwanted_idle delete_of current desired k absent
          | inr (c, there) ↦
              each-nil deletes (visit 0 (keys current)) k no_deletes
                (visits 0 k (keys current) ∙ listed-keys k current ∙ rw there refl)
        ],
        elim (Option-cases (lookup k desired)) [
          | inl absent ↦ wanted_idle add_of replace_of current desired k absent
          | inr (d, there) ↦
              each-nil adds (visit 1 (keys desired)) k no_adds
                (visits 1 k (keys desired) ∙ listed-keys k desired ∙ rw there refl)
        ],
      )

  at_key : set_calls visit current desired ≡ [] → (k : String) → AtKey k
  unfolding deletes adds wanted unwanted
  at_key h k = walks_nil h k

  no_calls : ((k : String) → AtKey k) → set_calls visit current desired ≡ []
  unfolding set_calls sync delete_of add_of replace_of wanted unwanted
  no_calls h =
      rw
        (
          each-idle (unwanted delete_of current desired) (visit 0 (keys current)) (λ k. (h k).0),
          each-idle (wanted add_of replace_of current desired) (visit 1 (keys desired))
              (λ k. (h k).1),
        )
        refl

  -- Whichever way the walks go, no call is made exactly if the maps agree at every name.
  pub set_calls-nil_iff :
      (set_calls visit current desired ≡ []) ↔ ((k : String) → lookup k current ≡ lookup k desired)
  set_calls-nil_iff = (
    λ h k. (bodies_nil_iff k (lookup k desired) (lookup k current)).0 (at_key h k),
    λ h. no_calls (λ k. (bodies_nil_iff k (lookup k desired) (lookup k current)).1 (h k)),
  )
