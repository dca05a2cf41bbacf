-- ===== src/Validation/Families.antt =====
-- controllers/validation.go: sanitizeFamilyString.
use k8gobgp.Prelude.{
  String, ◌≡◌, ◌⊎◌, refl, inl, inr, Bool, true, false, ◌||◌, List, [], ◌∷◌, ◌==◌, string_eq,
  if◌then◌else◌, Bool-cases,
}

abbrev pub valid_families : List String
valid_families =
    "ipv4_unicast" ∷ "ipv6_unicast" ∷ "l2vpn_evpn" ∷ "ipv4_multicast" ∷ "ipv6_multicast"
    ∷ "ipv4_mpls" ∷ "ipv6_mpls" ∷ "ipv4_flowspec" ∷ "ipv6_flowspec" ∷ "ipv4_flowspec_unicast"
    ∷ "ipv6_flowspec_unicast" ∷ []

abbrev pub is_member : String → List String → Bool
is_member family [] = false
is_member family (f ∷ fs) = f == family || is_member family fs

unfoldable pub sanitize_family_string : String → String
sanitize_family_string family = if is_member family valid_families then family else "unknown"

-- The result is a family of the table, the text itself, or "unknown".
pub sanitize_family_string_lem :
    (family : String)
    → ((sanitize_family_string family ≡ family) × (is_member family valid_families ≡ true))
      ⊎ (sanitize_family_string family ≡ "unknown")
unfolding sanitize_family_string
sanitize_family_string_lem family = elim (Bool-cases (is_member family valid_families)) [
  | inl known ↦ inl (rw known refl, known)
  | inr other ↦ inr (rw other refl)
]
