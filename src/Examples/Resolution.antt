-- ===== src/Examples/Resolution.antt =====
-- The resolution of a router ID at a node that the API server knows at once, and at a resource with an explicit ID.
use k8gobgp.Prelude.{
  ℕ, ◌+◌, ◌*◌, ◌≤◌, ◌≡◌, refl, ◌⊎◌, arith, false, String, Option, none, some, List, [], ◌∷◌,
}
use k8gobgp.Prelude.Text.{codes}
use k8gobgp.Crd
use k8gobgp.Prelude.GoMap.{lookup}
use k8gobgp.Net.{v4, parse_ip, split_on, all_digits, decimal, to4}
use k8gobgp.RouterId.{IpNet, internal_ip, validate_router_id_format, validate_ipv4_address}
use k8gobgp.RouterId.Dotted.{print_ipv4, print_ipv4_read_back}
use k8gobgp.RouterId.NodeCache.{Node}
use k8gobgp.RouterId.Backoff.{
  Surroundings, Fetch, retry, max_startup_retry_time, initial_retry_delay, fetched,
}
use k8gobgp.RouterId.Retry.{Ends}
use k8gobgp.RouterId.Resolve.{
  RouterIdResolution, resolved, explicit, resolve_router_id, retry_fuel, get_node_with_retry,
}
use k8gobgp.RouterId.Sound.{Returns, retry_returns, resolve_router_id-Returns}
use k8gobgp.RouterId.Accepted.{IsLiteral, IsFrom, resolve_router_id_lem}
use k8gobgp.Global.Effective.{
  Reconciler, Call, EffectiveRun, effective, keep_resolution, cache_key,
  resolve_effective_router_id,
}
use k8gobgp.Global.Locked.{AllAre, resolve, forget, resolutions, router_id_locked}
use k8gobgp.Examples.Samples.{config, sibling, global}

abbrev parse_ipv6 : List ℕ → Option (List ℕ)
parse_ipv6 _ = none

abbrev parse_cidr : String → Option IpNet
parse_cidr _ = none

abbrev node : Node
node = record {
  name = codes "n1";
  addresses = record { address_type = internal_ip; address = codes "192.0.2.7" } ∷ [];
  annotations = [];
}

abbrev surroundings : Surroundings
surroundings = record {
  answer = λ i. some node;
  get_time = λ i. 5;
  lateness = λ i. 0;
  cancelled = λ i. false;
}

retry_returns_example :
    (r : Fetch) × (at : ℕ) × (last : ℕ) × (retry surroundings
        (70 + max_startup_retry_time)
        retry_fuel
        0
        70
        initial_retry_delay
      ≡ some (r, at, last))
    × (last ≤ 0 + 301)
    × Ends surroundings (70 + max_startup_retry_time) 0 r at last
retry_returns_example = retry_returns surroundings 70

resolve_router_id-Returns_example :
    Returns (resolve_router_id parse_ipv6 parse_cidr surroundings 70 "n1" global none)
resolve_router_id-Returns_example =
    resolve_router_id-Returns parse_ipv6 parse_cidr surroundings 70 "n1" global none

abbrev explicit_global : Crd.GlobalSpec
explicit_global = record global { router_id = "192.0.2.9" }

abbrev resolution : RouterIdResolution
resolution = record { router_id = codes "192.0.2.9"; source = explicit; node_name = "n1" }

explicit_run :
    resolve_router_id parse_ipv6 parse_cidr surroundings 70 "n1" explicit_global none
    ≡ some (resolved resolution, none)
unfolding resolve_router_id validate_router_id_format parse_ip split_on all_digits decimal to4
    validate_ipv4_address
explicit_run = refl

resolve_router_id_lem_example :
    (resolution.node_name ≡ "n1")
    × (IsLiteral parse_ipv6 parse_cidr explicit_global resolution
        ⊎ ((n : Node) × (get_node_with_retry surroundings 70 "n1" none ≡ some (fetched n, none))
            × IsFrom parse_ipv6 parse_cidr explicit_global n resolution.router_id
                resolution.source))
resolve_router_id_lem_example =
    resolve_router_id_lem parse_ipv6 parse_cidr surroundings 70 "n1" explicit_global none resolution
      none explicit_run

print_ipv4_read_back_example :
    (a : ℕ) × (b : ℕ) × (c : ℕ) × (d : ℕ) × (parse_ip parse_ipv6 (print_ipv4 184483841)
      ≡ some (v4 a b c d))
    × (a * 16777216 + b * 65536 + c * 256 + d ≡ 184483841)
print_ipv4_read_back_example = print_ipv4_read_back parse_ipv6 184483841 (omega arith)

abbrev explicit_config : Crd.BgpConfiguration
explicit_config = record config { spec = record config.spec { global = explicit_global } }

abbrev reconciler : Reconciler
reconciler = record { node_name = "n1"; node_cache = none; local_router_id_cache = [] }

abbrev call : Call
call = record { surroundings = surroundings; started = 70; ended = 75; error_text = λ e. "failed" }

abbrev first_run : EffectiveRun
first_run = keep_resolution call reconciler explicit_config (resolved resolution, none)

first_resolution :
    resolve_effective_router_id parse_ipv6 parse_cidr call reconciler explicit_config
    ≡ some first_run
unfolding resolve_effective_router_id resolve_router_id validate_router_id_format lookup parse_ip
    split_on all_digits decimal to4 validate_ipv4_address
first_resolution = refl

first_id : first_run.id ≡ effective (codes "192.0.2.9")
unfolding keep_resolution
first_id = refl

other_key : cache_key sibling ≡ cache_key explicit_config → ⊥
unfolding cache_key
other_key e = cc

-- Afterwards another resource is deleted, and the resource leaves the ID to the node.
router_id_locked_example :
    AllAre parse_ipv6 parse_cidr (cache_key explicit_config) (codes "192.0.2.9") (
      resolutions parse_ipv6 parse_cidr first_run.reconciler
        (forget sibling ∷ resolve call config ∷ []))
router_id_locked_example =
    router_id_locked parse_ipv6 parse_cidr call reconciler explicit_config first_run
      (codes "192.0.2.9") (forget sibling ∷ resolve call config ∷ []) first_resolution first_id
      (other_key, tt)
