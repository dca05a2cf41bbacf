-- ===== src/Netlink/ReadBack.antt =====
-- controllers/bgpconfiguration_controller.go: netlinkExportRulesMatch over the rules as gobgpd reports
-- them.
use k8gobgp.Prelude.{
  All, pass_test, String, ◌≡◌, ◌≢◌, refl, ◌∙◌, true, some, List, [], ◌∷◌, nat_eq, bool_eq,
  if◌then◌else◌, ◌==◌, string_eq, list_eq, length, map, value_or, arith, ==_refl, !=_of_eq,
  ==_of_ne,
}
use k8gobgp.Prelude.GoMap.{GoMap, lookup, insert, lookup-insert}
use k8gobgp.Crd
use k8gobgp.Api.Netlink.{ExportRule}
use k8gobgp.Netlink.{rule_matches, by_name, rules_match, netlink_export_rules_match}

-- A rule as gobgpd reports it, with the defaults that api/v1/types.go documents: a metric of 0 is 20, and
-- an absent validate_nexthop is true.
abbrev pub read_back : Crd.NetlinkExportRule → ExportRule
read_back rule = record {
  name = rule.name;
  community_list = rule.community_list;
  large_community_list = rule.large_community_list;
  vrf = rule.vrf;
  table_id = rule.table_id;
  metric = if rule.metric == 0 then 20 else rule.metric;
  validate_nexthop = value_or true rule.validate_nexthop;
}

abbrev pub Distinct : List Crd.NetlinkExportRule → Type 0
Distinct [] = Unit
Distinct (rule ∷ rest) = All (λ other. other.name ≢ rule.name) rest × Distinct rest

-- A rule that states its metric.
abbrev pub HasMetric : Crd.NetlinkExportRule → Type 0
HasMetric rule = rule.metric ≢ 0

rule_matches-read_back :
    (rule : Crd.NetlinkExportRule)
    → HasMetric rule
    → rule_matches (some (read_back rule)) rule ≡ true
unfolding rule_matches
rule_matches-read_back rule stated = pass_test (!=_of_eq (refl {a = rule.community_list})) (
    pass_test (!=_of_eq (refl {a = rule.large_community_list})) (
      pass_test (!=_of_eq (refl {a = rule.vrf})) (
        pass_test (!=_of_eq (refl {a = rule.table_id})) (
          pass_test (rw (==_of_ne stated) (!=_of_eq (refl {a = rule.metric})))
            (pass_test (!=_of_eq (refl {a = value_or true rule.validate_nexthop})) refl)))))

-- Rules of other names leave the entry of a name.
lookup-by_name_kept :
    (name : String) (rules : List Crd.NetlinkExportRule) (m : GoMap ExportRule)
    → All (λ other. other.name ≢ name) rules
    → lookup name (by_name m (map read_back rules)) ≡ lookup name m
unfolding by_name
lookup-by_name_kept name [] m others = refl
lookup-by_name_kept name (rule ∷ rules) m others =
    lookup-by_name_kept name rules (insert rule.name (read_back rule) m) others.1
    ∙ lookup-insert rule.name name (read_back rule) m
    ∙ rw (==_of_ne others.0) refl

Found : GoMap ExportRule → Crd.NetlinkExportRule → Type 0
Found m rule = lookup rule.name m ≡ some (read_back rule)

by_name-Found :
    (rules : List Crd.NetlinkExportRule) (m : GoMap ExportRule)
    → Distinct rules
    → All (Found (by_name m (map read_back rules))) rules
unfolding by_name Found
by_name-Found [] m distinct = tt
by_name-Found (rule ∷ rules) m distinct = (
  lookup-by_name_kept rule.name rules (insert rule.name (read_back rule) m) distinct.0
      ∙ lookup-insert rule.name rule.name (read_back rule) m
      ∙ rw (==_refl rule.name) refl,
  by_name-Found rules (insert rule.name (read_back rule) m) distinct.1,
)

rules_match-Found :
    (m : GoMap ExportRule) (rules : List Crd.NetlinkExportRule)
    → All (Found m) rules
    → All HasMetric rules
    → rules_match m rules ≡ true
unfolding rules_match Found
rules_match-Found m [] found stated = refl
rules_match-Found m (rule ∷ rest) found stated =
    pass_test (rw (found.0, rule_matches-read_back rule stated.0) refl)
      (rules_match-Found m rest found.1 stated.1)

length-map-read_back :
    (rules : List Crd.NetlinkExportRule) → length (map read_back rules) ≡ length rules
length-map-read_back [] = refl
length-map-read_back (rule ∷ rules) = omega (arith, length-map-read_back rules)

pub netlink_export_rules_match-read_back :
    (rules : List Crd.NetlinkExportRule)
    → Distinct rules
    → All HasMetric rules
    → netlink_export_rules_match (map read_back rules) rules ≡ true
unfolding netlink_export_rules_match
netlink_export_rules_match-read_back rules distinct stated =
    pass_test (!=_of_eq (length-map-read_back rules)) (
      rules_match-Found (by_name [] (map read_back rules)) rules (by_name-Found rules [] distinct)
        stated)
