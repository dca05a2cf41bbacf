-- ===== src/Examples/Settings.antt =====
-- validateConfiguration at a resource with a pool and a defined set of communities.
use k8gobgp.Prelude.{◌≡◌, ◌↔◌, String, Option, some, [], ◌∷◌}
use k8gobgp.Crd
use k8gobgp.RouterId.{IpNet, net4}
use k8gobgp.Validation.Config.{validate_configuration}
use k8gobgp.Validation.Accepts.{IsValidSpec, validate_configuration-nil_iff}
use k8gobgp.Examples.Samples.{config}

-- net.ParseCIDR for the one pool.
abbrev parse_cidr : String → Option IpNet
parse_cidr _ = some (net4 184483840 16)

abbrev spec : Crd.BgpConfigurationSpec
spec = record config.spec {
  global = record config.spec.global { router_id_pool = "10.255.0.0/16" };
  defined_sets =
      record { defined_type = "community"; name = "racks"; list = "65000:100" ∷ []; prefixes = [] }
      ∷ [];
}

validate_configuration-nil_iff_example :
    (validate_configuration parse_cidr spec ≡ []) ↔ IsValidSpec parse_cidr spec
validate_configuration-nil_iff_example = validate_configuration-nil_iff parse_cidr spec
