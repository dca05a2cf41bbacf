-- ===== src/Owner.antt =====
-- controllers/bgpconfiguration_controller.go: electOwningConfig and configPrecedes, the choice of the
-- one resource that may program gobgpd on a node.
pub mod Order
pub mod Election
use k8gobgp.Prelude.{
  Bool, Option, none, some, List, [], ◌∷◌, ◌==◌, ◌!=◌, nat_eq, string_eq, ltb, if◌then◌else◌,
}
use k8gobgp.Prelude.Text.{text_ltb}
use k8gobgp.Crd.{BgpConfiguration}

unfoldable pub config_precedes : BgpConfiguration → BgpConfiguration → Bool
config_precedes a b =
    if a.creation_timestamp != b.creation_timestamp
    then ltb a.creation_timestamp b.creation_timestamp
    else if a.namespace != b.namespace
    then text_ltb a.namespace b.namespace
    else text_ltb a.name b.name

-- `owner == nil || configPrecedes(&configs[i], owner)`
keep_owner : Option BgpConfiguration → BgpConfiguration → BgpConfiguration
keep_owner none c = c
keep_owner (some owner) c = if config_precedes c owner then c else owner

elect_from : Option BgpConfiguration → List BgpConfiguration → Option BgpConfiguration
unfolding keep_owner
elect_from owner [] = owner
elect_from owner (c ∷ cs) = elect_from (some (keep_owner owner c)) cs

unfoldable pub elect_owning_config : List BgpConfiguration → Option BgpConfiguration
unfolding elect_from
elect_owning_config configs = elect_from none configs
