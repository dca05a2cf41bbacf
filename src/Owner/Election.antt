-- ===== src/Owner/Election.antt =====
-- controllers/bgpconfiguration_controller.go: what electOwningConfig elects.
use mathlib.Core.Logic.Or
use mathlib.Core.Bool.{Bool-set}
use mathlib.Core.Path.{subst}
use mathlib.Core.Option.{some-injective}
use mathlib.Core.List.{Mem, Mem-prop, Perm, mem-cons, mem-cons_self, mem-cons_of_mem, not-mem-nil}
use mathlib.Core.List.Perm
use k8gobgp.Prelude.{
  ◌<◌, ◌≡◌, refl, sym, ap, ◌∙◌, false, some, List, [], ◌∷◌, ◌++◌, ◌⊎◌, arith, Bool-cases, inl, inr,
}
use k8gobgp.Crd.{BgpConfiguration}
use k8gobgp.Owner.{config_precedes, keep_owner, elect_from, elect_owning_config}
use k8gobgp.Owner.Order.{
  config_precedes_asym, config_precedes_irrefl, config_precedes_neg_trans, config_precedes_total,
}

-- No listed resource comes before `w`.
abbrev pub IsFirst : BgpConfiguration → List BgpConfiguration → Type 0
IsFirst w cs = (c : BgpConfiguration) → Mem c cs → config_precedes c w ≡ false

-- `w` was elected from `cs`.
pub record Elected (cs : List BgpConfiguration) (w : BgpConfiguration) : Type 0 where
  pub listed : Mem w cs
  pub first : IsFirst w cs

-- The owner kept is one of the two, and neither comes before it.
keep_owner_lem :
    (o c : BgpConfiguration)
    → ((keep_owner (some o) c ≡ o) ⊎ (keep_owner (some o) c ≡ c))
      × (config_precedes c (keep_owner (some o) c) ≡ false)
      × (config_precedes o (keep_owner (some o) c) ≡ false)
unfolding keep_owner
keep_owner_lem o c = elim (Bool-cases (config_precedes c o)) [
  | inl earlier ↦ rw earlier (inr refl, config_precedes_irrefl c, config_precedes_asym c o earlier)
  | inr later ↦ rw later (inl refl, later, config_precedes_irrefl o)
]

abbrev OneOfTwo : BgpConfiguration → BgpConfiguration → BgpConfiguration → Type 0
OneOfTwo k o c = (k ≡ o) ⊎ (k ≡ c)

-- Adding the loser of a comparison keeps the winner first.
Elected-cons-cons :
    (o c k w : BgpConfiguration) (cs : List BgpConfiguration)
    → OneOfTwo k o c
    → config_precedes c k ≡ false
    → config_precedes o k ≡ false
    → Elected (k ∷ cs) w
    → Elected (o ∷ c ∷ cs) w
Elected-cons-cons o c k w cs which c_late o_late e = record {
  listed =
      Or.elim Mem-prop (mem-cons.0 e.listed)
        (λ p. elim which [
          | inl q ↦ subst (λ x. Mem x (o ∷ c ∷ cs)) (sym (p ∙ q)) mem-cons_self
          | inr q ↦ subst (λ x. Mem x (o ∷ c ∷ cs)) (sym (p ∙ q)) (mem-cons_of_mem o mem-cons_self)
        ])
        (λ m. mem-cons_of_mem o (mem-cons_of_mem c m));
  first = λ x m.
      let winner = e.first k mem-cons_self in
      Or.elim (Bool-set _ _) (mem-cons.0 m)
        (λ p. rw p (config_precedes_neg_trans o k w o_late winner))
        (λ m'.
          Or.elim (Bool-set _ _) (mem-cons.0 m')
            (λ p. rw p (config_precedes_neg_trans c k w c_late winner))
            (λ m''. e.first x (mem-cons_of_mem k m'')));
}

elect_from_lem :
    (o : BgpConfiguration) (cs : List BgpConfiguration)
    → (w : BgpConfiguration) × (elect_from (some o) cs ≡ some w) × Elected (o ∷ cs) w
unfolding elect_from
elect_from_lem o [] = (
  o,
  refl,
  record {
    listed = mem-cons_self;
    first = λ c m.
        Or.elim (Bool-set _ _) (mem-cons.0 m) (λ e. rw e (config_precedes_irrefl o))
          (λ n. absurd (not-mem-nil n));
  },
)
elect_from_lem o (c ∷ cs) =
    let k = keep_owner (some o) c in
    let (w, run, e) = elect_from_lem k cs in
    let (which, c_late, o_late) = keep_owner_lem o c in
    (w, run, Elected-cons-cons o c k w cs which c_late o_late e)

-- Whenever any resource exists, an owner is elected; it is one of the listed resources, and none of
-- them was created before it, or at the same second with a smaller namespace and name.
pub elect_owning_config-Elected :
    (c : BgpConfiguration) (cs : List BgpConfiguration)
    → (w : BgpConfiguration) × (elect_owning_config (c ∷ cs) ≡ some w) × Elected (c ∷ cs) w
unfolding elect_owning_config
elect_owning_config-Elected c cs = elect_from_lem c cs

-- Inversion: whoever is elected is elected in that sense.
pub Elected-of_some :
    (cs : List BgpConfiguration) (w : BgpConfiguration)
    → elect_owning_config cs ≡ some w
    → Elected cs w
unfolding elect_owning_config
Elected-of_some [] w h = absurd (cc)
Elected-of_some (c ∷ cs) w h =
    let (v, run, e) = elect_owning_config-Elected c cs in
    subst (Elected (c ∷ cs)) (some-injective v w (sym run ∙ h)) e

-- A namespace and a name belong to one resource.
abbrev pub KeysDistinct : List BgpConfiguration → Type 0
KeysDistinct cs =
    (a b : BgpConfiguration)
    → Mem a cs
    → Mem b cs
    → a.namespace ≡ b.namespace
    → a.name ≡ b.name
    → a ≡ b

Elected-unique :
    (xs ys : List BgpConfiguration) (v w : BgpConfiguration)
    → Perm xs ys
    → KeysDistinct ys
    → Elected xs v
    → Elected ys w
    → v ≡ w
Elected-unique xs ys v w p distinct ev ew =
    let v_listed = (Perm.mem_iff p).0 ev.listed in
    let (namespaces, names) =
      config_precedes_total v w (ew.first v v_listed) (ev.first w ((Perm.mem_iff p).1 ew.listed)) in
    distinct v w v_listed ew.listed namespaces names

-- Every node elects the same owner: over lists with the same resources in any order, in which a
-- namespace and a name belong to one resource, the election has the same result.
pub elect_owning_config-perm :
    (xs ys : List BgpConfiguration)
    → Perm xs ys
    → KeysDistinct ys
    → elect_owning_config xs ≡ elect_owning_config ys
elect_owning_config-perm [] [] p d = refl
elect_owning_config-perm [] (y ∷ ys) p d = absurd (not-mem-nil ((Perm.mem_iff p).1 mem-cons_self))
elect_owning_config-perm (x ∷ xs) [] p d = absurd (not-mem-nil ((Perm.mem_iff p).0 mem-cons_self))
elect_owning_config-perm (x ∷ xs) (y ∷ ys) p d =
    let (v, run_x, ev) = elect_owning_config-Elected x xs in
    let (w, run_y, ew) = elect_owning_config-Elected y ys in
    run_x ∙ ap some (Elected-unique (x ∷ xs) (y ∷ ys) v w p d ev ew) ∙ sym run_y

elect_from-append :
    (o c : BgpConfiguration) (cs : List BgpConfiguration) {w : BgpConfiguration}
    → elect_from (some o) cs ≡ some w
    → elect_from (some o) (cs ++ c ∷ []) ≡ some (keep_owner (some w) c)
unfolding elect_from
elect_from-append o c [] h = rw (some-injective _ _ h)
elect_from-append o c (d ∷ cs) h = elect_from-append (keep_owner (some o) d) c cs h

-- Ownership never moves to a resource that is created later: with the owner in place, one more
-- resource with a later creation time changes nothing.
pub elect_owning_config_stable :
    (cs : List BgpConfiguration) (c w : BgpConfiguration)
    → elect_owning_config cs ≡ some w
    → w.creation_timestamp < c.creation_timestamp
    → elect_owning_config (cs ++ c ∷ []) ≡ some w
unfolding elect_owning_config
elect_owning_config_stable [] c w h later = absurd (cc)
elect_owning_config_stable (x ∷ cs) c w h later =
    elect_from-append x c cs h ∙ unfold keep_owner config_precedes in ground arith
