-- ===== src/Sync/Settled.antt =====
-- Where a walk over the keys leads: at each key, to what the calls of that key leave there.
use k8gobgp.Prelude.{
  String, ◌≡◌, refl, ap, ◌∙◌, Bool, true, false, Option, none, some, List, [], ◌∷◌, ◌++◌, ◌==◌,
  string_eq, if◌then◌else◌, is_some, arith, Bool-cases, inl, inr, Option-cases, eq_of_==,
}
use k8gobgp.Prelude.GoMap.{GoMap, lookup, keys}
use k8gobgp.Sync.{each, listed, RangeOrder, VisitsAll, unwanted, wanted, sync}
use k8gobgp.Sync.Table.{Table, run, settle, OnKey}

pub listed-keys : {V : Type 0} (k : String) (m : GoMap V) → listed k (keys m) ≡ is_some (lookup k m)
unfolding listed keys lookup
listed-keys k [] = refl
listed-keys k ((j, v) ∷ m) = ground (arith, listed-keys k m)

settle-settle :
    {C V : Type 0} (value_of : C → Option V) (cs : List C) (x : Option V)
    → settle value_of cs (settle value_of cs x) ≡ settle value_of cs x
unfolding settle
settle-settle value_of [] x = refl
settle-settle value_of (c ∷ cs) x = refl

if_same : {V : Type 0} (b : Bool) {x : V} → (if b then x else x) ≡ x
if_same true = refl
if_same false = refl

-- A walk over a map's keys settles a key that is not in the map as well, where its body is empty.
settle-listed :
    {C V : Type 0} (value_of : C → Option V) (body : String → List C) (m : GoMap V) (j : String)
    (x : Option V)
    → (lookup j m ≡ none → body j ≡ [])
    → (if listed j (keys m) then settle value_of (body j) x else x) ≡ settle value_of (body j) x
unfolding settle
settle-listed value_of body m j x idle = rw (listed-keys j m) (elim (Option-cases (lookup j m)) [
  | inl absent ↦ rw (absent, idle absent) refl
  | inr (v, there) ↦ rw there refl
])

pub unwanted_idle :
    {C V : Type 0} (delete : String → V → List C) (current desired : GoMap V) (k : String)
    → lookup k current ≡ none
    → unwanted delete current desired k ≡ []
unfolding unwanted
unwanted_idle delete current desired k h = elim (Option-cases (lookup k desired)) [
  | inl a ↦ rw (unwanted, a, h) refl
  | inr (v, a) ↦ rw (unwanted, a) refl
]

pub wanted_idle :
    {C V : Type 0} (add : String → V → List C) (present : String → V → V → List C)
    (current desired : GoMap V) (k : String)
    → lookup k desired ≡ none
    → wanted add present current desired k ≡ []
unfolding wanted
wanted_idle add present current desired k h = rw (wanted, h) refl

module _ {C V S : Type 0} {key_of : C → String} {value_of : C → Option V}
    (t : Table key_of value_of S) where
  run-append : (s : S) (cs ds : List C) → run t s (cs ++ ds) ≡ run t (run t s cs) ds
  unfolding run
  run-append s [] ds = refl
  run-append s (c ∷ cs) ds = run-append (t.apply s c) cs ds

  run-OnKey :
      (s : S) (k j : String) (cs : List C)
      → OnKey key_of k cs
      → t.view (run t s cs) j ≡ (if k == j then settle value_of cs (t.view s j) else t.view s j)
  unfolding run settle
  run-OnKey s k j [] on = ground arith
  run-OnKey s k j (c ∷ cs) (here, on) =
      run-OnKey (t.apply s c) k j cs on ∙ elim (Bool-cases (k == j)) [
        | inl same ↦ rw (same, t.view-apply s c j, here, same) refl
        | inr other ↦ rw (other, t.view-apply s c j, here, other) refl
      ]

  -- A walk with one body for each key: at a key that it visits, once or more often, it leaves what
  -- the calls of that key leave, and it leaves the others alone.
  pub view-each :
      (body : String → List C)
      → ((k : String) → OnKey key_of k (body k))
      → (s : S) (j : String) (ks : List String)
      → t.view (run t s (each body ks)) j
        ≡ (if listed j ks then settle value_of (body j) (t.view s j) else t.view s j)
  unfolding run each listed
  view-each body on s j [] = refl
  view-each body on s j (k ∷ ks) =
      let here = run-OnKey s k j (body k) (on k) in
      let rest = view-each body on (run t s (body k)) j ks in
      ap (λ r. t.view r j) (run-append s (body k) (each body ks))
      ∙ rest
      ∙ elim (Bool-cases (k == j)) [
        | inl same ↦
            let k_is_j = eq_of_== {A = String} same in
            rw (here, same, k_is_j, settle-settle value_of (body j) (t.view s j))
              (if_same (listed j ks))
        | inr other ↦ rw (here, other) refl
      ]

  pub unwanted-OnKey :
      (delete : String → V → List C) (current desired : GoMap V)
      → ((k : String) (c : V) → lookup k current ≡ some c → OnKey key_of k (delete k c))
      → (k : String) → OnKey key_of k (unwanted delete current desired k)
  unfolding unwanted
  unwanted-OnKey delete current desired on k = elim (Option-cases (lookup k desired)) [
    | inr (d, there) ↦ rw (unwanted, there) tt
    | inl absent ↦ elim (Option-cases (lookup k current)) [
      | inr (c, there) ↦ rw (unwanted, absent, there) (on k c there)
      | inl none_there ↦ rw (unwanted, absent, none_there) tt
    ]
  ]

  pub wanted-OnKey :
      (add : String → V → List C) (present : String → V → V → List C) (current desired : GoMap V)
      → ((k : String) (d : V) → lookup k desired ≡ some d → OnKey key_of k (add k d))
      → ((k : String) (d c : V) → lookup k desired ≡ some d → OnKey key_of k (present k d c))
      → (k : String) → OnKey key_of k (wanted add present current desired k)
  unfolding wanted
  wanted-OnKey add present current desired on_add on_present k =
      elim (Option-cases (lookup k desired)) [
        | inl absent ↦ rw (wanted, absent) tt
        | inr (d, there) ↦ elim (Option-cases (lookup k current)) [
          | inl none_there ↦ rw (wanted, there, none_there) (on_add k d there)
          | inr (c, held) ↦ rw (wanted, there, held) (on_present k d c there)
        ]
      ]

  module _ (visit : RangeOrder) (visits : VisitsAll visit) where
    -- Both walks together, from the maps of the current and the desired objects.
    pub view-sync :
        (delete add : String → V → List C) (present : String → V → V → List C)
        (current desired : GoMap V)
        → ((k : String) → OnKey key_of k (unwanted delete current desired k))
        → ((k : String) → OnKey key_of k (wanted add present current desired k))
        → (s : S) (j : String)
        → t.view (run t s (sync visit delete add present current desired)) j
          ≡ settle value_of
              (wanted add present current desired j)
              (settle value_of (unwanted delete current desired j) (t.view s j))
    unfolding sync
    view-sync delete add present current desired on_delete on_add s j =
        let deletes = unwanted delete current desired in
        let adds = wanted add present current desired in
        let first = run t s (each deletes (visit 0 (keys current))) in
        ap (λ r. t.view r j)
          (run-append s (each deletes (visit 0 (keys current)))
            (each adds (visit 1 (keys desired))))
        ∙ view-each adds on_add first j (visit 1 (keys desired))
        ∙ rw (visits 1 j (keys desired)) (
            settle-listed value_of adds desired j (t.view first j)
              (wanted_idle add present current desired j))
        ∙ ap (settle value_of (adds j)) (
            view-each deletes on_delete s j (visit 0 (keys current))
            ∙ rw (visits 0 j (keys current)) (
                settle-listed value_of deletes current j (t.view s j)
                  (unwanted_idle delete current desired j)))
