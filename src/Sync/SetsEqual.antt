-- ===== src/Sync/SetsEqual.antt =====
-- controllers/bgpconfiguration_controller.go: what definedSetEqual compares.
use k8gobgp.Prelude.{
  ℕ, String, ◌≡◌, ◌↔◌, refl, Bool, true, false, ◌&&◌, ◌||◌, List, [], ◌∷◌, ◌==◌, ◌!=◌, nat_eq,
  string_eq, list_eq, if◌then◌else◌, length, arith, Bool-cases, inl, inr, eq_of_==, ==_refl,
  eq_of_!=, !=_of_eq, and_split, and_join,
}
use mathlib.Core.Path.{subst}
use k8gobgp.Api.Policies.{DefinedSet, Prefix, defined_type_eq, DefinedType}
use k8gobgp.Sync.Policies
use k8gobgp.Sync.Policies.{
  defined_set_equal, DefinedSetCall, delete_defined_set, add_defined_set, replace_defined_set,
  set_calls, desired_sets, current_sets, reconcile_defined_sets,
}

prefix_ext :
    (d c : Prefix)
    → d.ip_prefix ≡ c.ip_prefix
    → d.rtc_prefix ≡ c.rtc_prefix
    → d.mask_length_min ≡ c.mask_length_min
    → d.mask_length_max ≡ c.mask_length_max
    → d ≡ c
prefix_ext d c ip rtc min max = cc

prefix_equal_iff : (d c : Prefix) → (Policies.prefix_equal d c ≡ true) ↔ (d ≡ c)
unfolding Policies.prefix_equal
prefix_equal_iff d c = (
  λ h.
      let (abc, max) =
        and_split
          (d.ip_prefix == c.ip_prefix
            && d.rtc_prefix == c.rtc_prefix
            && d.mask_length_min == c.mask_length_min)
          (d.mask_length_max == c.mask_length_max) h in
      let (ab, min) =
        and_split (d.ip_prefix == c.ip_prefix && d.rtc_prefix == c.rtc_prefix)
          (d.mask_length_min == c.mask_length_min) abc in
      let (ip, rtc) = and_split (d.ip_prefix == c.ip_prefix) (d.rtc_prefix == c.rtc_prefix) ab in
      prefix_ext d c (eq_of_== {A = String} ip) (eq_of_== {A = String} rtc) (eq_of_== {A = ℕ} min)
        (eq_of_== {A = ℕ} max),
  λ h.
      subst (λ x. Policies.prefix_equal d x ≡ true) h
        (and_join
          (and_join
            (and_join (==_refl {A = String} d.ip_prefix) (==_refl {A = String} d.rtc_prefix))
            (==_refl {A = ℕ} d.mask_length_min))
          (==_refl {A = ℕ} d.mask_length_max)),
)

prefixes_loop_iff :
    (ds cs : List Prefix)
    → length ds ≡ length cs
    → (Policies.prefixes_loop ds cs ≡ true) ↔ (ds ≡ cs)
unfolding Policies.prefixes_loop
prefixes_loop_iff [] [] e = (λ h. refl, λ h. refl)
prefixes_loop_iff [] (c ∷ cs) e = absurd (omega arith)
prefixes_loop_iff (d ∷ ds) [] e = absurd (omega arith)
prefixes_loop_iff (d ∷ ds) (c ∷ cs) e =
    let here = prefix_equal_iff d c in
    let later = prefixes_loop_iff ds cs (omega arith) in
    elim (Bool-cases (Policies.prefix_equal d c)) [
      | inl same ↦ let p = here.0 same in rw same (λ h. let q = later.0 h in cc, λ h. later.1 (cc))
      | inr other ↦
          rw other (λ h. absurd (cc), λ h. absurd (let q : d ≡ c = cc in let k = here.1 q in cc))
    ]

-- The four early returns, read as equations.
tests_pass :
    (a b l n : Bool) (rest : Bool)
    → (if a || b then false else if l then false else if n then false else rest) ≡ true
    → (a ≡ false) × (b ≡ false) × (l ≡ false) × (n ≡ false) × (rest ≡ true)
tests_pass a b l n rest h = ground arith

defined_set_equal_refl : (d : DefinedSet) → defined_set_equal d d ≡ true
unfolding defined_set_equal
defined_set_equal_refl d =
    rw
      (
        !=_of_eq {A = DefinedType} {a = d.defined_type} refl,
        !=_of_eq {A = String} {a = d.name} refl,
        !=_of_eq {A = List String} {a = d.list} refl,
        !=_of_eq {A = ℕ} {a = length d.prefixes} refl,
      )
      ((prefixes_loop_iff d.prefixes d.prefixes refl).1 refl)

set_ext :
    (d c : DefinedSet)
    → d.defined_type ≡ c.defined_type
    → d.name ≡ c.name
    → d.list ≡ c.list
    → d.prefixes ≡ c.prefixes
    → d ≡ c
set_ext d c type name list prefixes = cc

-- definedSetEqual compares all that a defined set has.
pub defined_set_equal_iff : (d c : DefinedSet) → (defined_set_equal d c ≡ true) ↔ (d ≡ c)
unfolding defined_set_equal
defined_set_equal_iff d c = (
  λ h.
      let (type, name, list, number, loop) =
        tests_pass (d.defined_type != c.defined_type) (d.name != c.name) (d.list != c.list)
          (length d.prefixes != length c.prefixes) (Policies.prefixes_loop d.prefixes c.prefixes)
          h in
      set_ext d c (eq_of_!= {A = DefinedType} type) (eq_of_!= {A = String} name)
        (eq_of_!= {A = List String} list)
        ((prefixes_loop_iff d.prefixes c.prefixes (eq_of_!= {A = ℕ} number)).0 loop),
  λ h. subst (λ x. defined_set_equal d x ≡ true) h (defined_set_equal_refl d),
)
