-- ===== src/Convert/Vrfs.antt =====
-- The conversion of VRFs, with parseRouteDistinguisher and parseRouteTarget, and, from
-- controllers/bgpnodestatus_reporter.go, formatRouteDistinguisher. Texts are their code points, and fmt.Sscanf is
-- modelled for "%d" at uint32: spaces are skipped, the digits that follow are the number, and what
-- follows them is not read.
use k8gobgp.Prelude.{
  ℕ, ◌^◌, String, Bool, true, ◌||◌, Option, none, some, List, [], ◌∷◌, ◌++◌, map, ◌==◌, nat_eq,
  if◌then◌else◌, ltb, leb, ◌&&◌,
}
use k8gobgp.Prelude.Text.{codes}
use k8gobgp.Crd
use k8gobgp.Net.{is_digit, decimal, split_on}
use k8gobgp.Net.Digits.{print_digits}
use k8gobgp.Api.Policies.{
  RouteDistinguisher, rd_two_octet_asn, rd_ip_address, rd_four_octet_asn, rd_unset, RouteTarget,
  Vrf,
}

-- The digits at the front.
unfoldable pub digits_at : List ℕ → List ℕ
unfolding is_digit
digits_at [] = []
digits_at (c ∷ cs) = let rest = digits_at cs in if is_digit c then c ∷ rest else []

-- fmt's isSpace but the newline, on code points: the ASCII spaces, and those of Unicode.
unfoldable pub is_space : ℕ → Bool
is_space c =
    leb 9 c && leb c 13
    || c == 32
    || c == 133
    || c == 160
    || c == 5760
    || leb 8192 c && leb c 8202
    || c == 8232
    || c == 8233
    || c == 8239
    || c == 8287
    || c == 12288

-- SkipSpace: a newline is an error.
unfoldable pub skip_space : List ℕ → Option (List ℕ)
unfolding is_space
skip_space [] = some []
skip_space (c ∷ cs) =
    let rest = skip_space cs in if c == 10 then none else if is_space c then rest else some (c ∷ cs)

unfoldable pub number_of : List ℕ → Option ℕ
unfolding decimal
number_of [] = none
number_of (d ∷ ds) = if ltb (decimal (d ∷ ds)) (2 ^ 32) then some (decimal (d ∷ ds)) else none

unfoldable pub sscanf_uint32 : List ℕ → Option ℕ
unfolding skip_space digits_at number_of
sscanf_uint32 s = elim (skip_space s) [ none ↦ none | some rest ↦ number_of (digits_at rest) ]

unfoldable pub both_numbers : Option ℕ → Option ℕ → Option (ℕ × ℕ)
both_numbers (some a) (some b) = some (a, b)
both_numbers _ _ = none

unfoldable pub two_parts : List (List ℕ) → Option (ℕ × ℕ)
unfolding both_numbers sscanf_uint32
two_parts (a ∷ b ∷ []) = both_numbers (sscanf_uint32 a) (sscanf_uint32 b)
two_parts _ = none

-- The part that parseRouteDistinguisher and parseRouteTarget share.
unfoldable pub asn_and_value : List ℕ → Option (ℕ × ℕ)
unfolding two_parts split_on
asn_and_value [] = none
asn_and_value (c ∷ cs) = two_parts (split_on b':' (c ∷ cs))

unfoldable pub distinguisher : Option (ℕ × ℕ) → Option RouteDistinguisher
distinguisher none = none
distinguisher (some (admin, assigned)) = some (rd_two_octet_asn admin assigned)

unfoldable pub parse_route_distinguisher : List ℕ → Option RouteDistinguisher
unfolding asn_and_value distinguisher
parse_route_distinguisher rd = distinguisher (asn_and_value rd)

unfoldable pub target : Option (ℕ × ℕ) → Option RouteTarget
target none = none
target (some (asn, local_admin)) =
    some (record { is_transitive = true; sub_type = 2; asn = asn; local_admin = local_admin })

unfoldable pub parse_route_target : List ℕ → Option RouteTarget
unfolding asn_and_value target
parse_route_target rt = target (asn_and_value rt)

unfoldable pub crd_to_api_vrf : Crd.Vrf → Vrf
unfolding parse_route_distinguisher parse_route_target
crd_to_api_vrf crd = record {
  name = crd.name;
  rd = parse_route_distinguisher (codes crd.rd);
  import_rt = map (λ (rt : String). parse_route_target (codes rt)) crd.import_rt;
  export_rt = map (λ (rt : String). parse_route_target (codes rt)) crd.export_rt;
}

-- fmt's %d at uint32.
unfoldable pub print_uint32 : ℕ → List ℕ
unfolding print_digits
print_uint32 n = print_digits 10 n

unfoldable pub format_route_distinguisher : Option RouteDistinguisher → List ℕ
unfolding print_uint32
format_route_distinguisher none = []
format_route_distinguisher (some (rd_two_octet_asn admin assigned)) =
    print_uint32 admin ++ (b':' ∷ print_uint32 assigned)
format_route_distinguisher (some (rd_ip_address admin assigned)) =
    codes admin ++ (b':' ∷ print_uint32 assigned)
format_route_distinguisher (some (rd_four_octet_asn admin assigned)) =
    print_uint32 admin ++ (b':' ∷ print_uint32 assigned)
format_route_distinguisher (some rd_unset) = []
