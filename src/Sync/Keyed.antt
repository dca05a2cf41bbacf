-- ===== src/Sync/Keyed.antt =====
-- controllers/bgpconfiguration_controller.go: the maps of reconcileNeighbors, by the keys of entries.
use mathlib.Core.Path.{subst}
use mathlib.Core.Bool.{Bool-set}
use mathlib.Core.Logic.Or
use mathlib.Core.List.{Mem, mem-cons, mem-cons_self, mem-cons_of_mem, not-mem-nil}
use mathlib.Core.Option.{some-injective}
use k8gobgp.Prelude.{
  String, Bool, true, ◌≡◌, refl, sym, ap, ◌∙◌, some, List, [], ◌∷◌, ◌==◌, string_eq, if◌then◌else◌,
  Bool-cases, inl, inr, eq_of_==,
}
use k8gobgp.Prelude.GoMap.{GoMap, lookup, insert, lookup-insert}
use k8gobgp.Sync.Groups.{Outcome, failed, done, and_then, by_key, rounds}

-- Each entry of the map stands at its own key.
abbrev pub Keyed : {V : Type 0} → (V → String) → GoMap V → Type 0
Keyed {V} key m = (k : String) (v : V) → lookup k m ≡ some v → key v ≡ k

pub insert-Keyed :
    {V : Type 0} (key : V → String) (k : String) (v : V) (m : GoMap V)
    → Keyed key m
    → key v ≡ k
    → Keyed key (insert k v m)
insert-Keyed key k v m keyed e j w there =
    let found = sym (lookup-insert k j v m) ∙ there in
    elim (Bool-cases (k == j)) [
      | inl same ↦
          let is_v =
            some-injective v w
              (subst (λ b. (if b then some v else lookup j m) ≡ some w) same found) in
          ap key (sym is_v) ∙ e ∙ eq_of_== {A = String} same
      | inr other ↦ keyed j w (subst (λ b. (if b then some v else lookup j m) ≡ some w) other found)
    ]

pub by_key-Keyed :
    {V : Type 0} (key : V → String) (vs : List V) (m : GoMap V)
    → Keyed key m
    → Keyed key (by_key key m vs)
unfolding by_key
by_key-Keyed key [] m keyed = keyed
by_key-Keyed key (v ∷ vs) m keyed =
    by_key-Keyed key vs (insert (key v) v m) (insert-Keyed key (key v) v m keyed refl)

pub nil-Keyed : {V : Type 0} (key : V → String) → Keyed key []
unfolding lookup
nil-Keyed key k v h = absurd (cc)

pub done-injective : {A : Type 0} {a b : A} → done a ≡ done b → a ≡ b
done-injective {a} e = ap (λ o. elim o [ failed x ↦ a | done x ↦ x ]) e

pub and_then_done :
    {A B : Type 0} (o : Outcome A) (f : A → Outcome B) {b : B}
    → and_then o f ≡ done b
    → (a : A) × (o ≡ done a) × (f a ≡ done b)
unfolding and_then
and_then_done (failed e) f h = absurd (cc)
and_then_done (done a) f h = (a, refl, h)

-- What every round over a listed item keeps, all of them keep.
pub rounds-invariant :
    {A M : Type 0} (round : A → M → Outcome M) (P : M → Type 0) (xs : List A)
    → ((a : A) (m m' : M) → Mem a xs → P m → round a m ≡ done m' → P m')
    → (m m' : M) → P m
    → rounds round xs m ≡ done m'
    → P m'
unfolding rounds
rounds-invariant round P [] keeps m m' p h = subst P (done-injective h) p
rounds-invariant round P (a ∷ rest) keeps m m' p h =
    let (m1, first, others) = and_then_done (round a m) (rounds round rest) h in
    rounds-invariant round P rest (λ b n n' mem. keeps b n n' (mem-cons_of_mem a mem)) m1 m'
      (keeps a m m1 mem-cons_self p first) others

-- What the round over one item brings about, and every round keeps, holds in the end.
pub rounds-reach :
    {A M : Type 0} (round : A → M → Outcome M) (test : M → Bool) (b : A)
    → ((a : A) (m m' : M) → test m ≡ true → round a m ≡ done m' → test m' ≡ true)
    → ((m m' : M) → round b m ≡ done m' → test m' ≡ true)
    → (xs : List A) (m m' : M) → Mem b xs
    → rounds round xs m ≡ done m'
    → test m' ≡ true
unfolding rounds
rounds-reach round test b keeps reach [] m m' mem h = absurd (not-mem-nil mem)
rounds-reach round test b keeps reach (a ∷ rest) m m' mem h =
    let (m1, first, others) = and_then_done (round a m) (rounds round rest) h in
    Or.elim (Bool-set _ _) (mem-cons.0 mem)
      (λ here.
        let reached = reach m m1 (subst (λ x. round x m ≡ done m1) (sym here) first) in
        rounds-invariant round (λ n. test n ≡ true) rest (λ c n n' listed held. keeps c n n' held)
          m1 m' reached others)
      (λ later. rounds-reach round test b keeps reach rest m1 m' later others)
