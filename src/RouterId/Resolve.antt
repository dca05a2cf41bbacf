-- ===== src/RouterId/Resolve.antt =====
-- controllers/router_id_resolution.go: getNodeWithRetry with its cache, autoDetectRouterID and
-- ResolveRouterID. net.ParseCIDR and the IPv6 parser are parameters; texts are their bytes.
use k8gobgp.Prelude.{
  ℕ, ◌+◌, String, Bool, ◌&&◌, not, Option, none, some, List, ◌==◌, string_eq, if◌then◌else◌, ltb,
  length, is_some,
}
use k8gobgp.Prelude.Text.{utf8}
use k8gobgp.Crd
use k8gobgp.RouterId.{
  IpNet, RouterIdError, validate_router_id_format, first_ipv4, internal_ip, generate_router_id,
  Generated, generated, refused, max_router_id_length,
}
use k8gobgp.RouterId.Dotted.{print_ipv4}
use k8gobgp.RouterId.NodeCache
use k8gobgp.RouterId.NodeCache.{Node, NodeCache}
use k8gobgp.RouterId.Backoff.{
  Surroundings, Fetch, fetched, timed_out, cancelled_fetch, retry, max_startup_retry_time,
  initial_retry_delay,
}
use k8gobgp.RouterId.Template.{
  Template, TemplateError, value, template_error, after_prefix, resolve_router_id_template,
}

pub data Source : Type 0 where
  explicit template node_ipv4 hash_from_node_name : Source

unfoldable pub source_text : Source → String
source_text explicit = "explicit"
source_text template = "template"
source_text node_ipv4 = "node-ipv4"
source_text hash_from_node_name = "hash-from-node-name"

pub record RouterIdResolution : Type 0 where
  pub router_id : List ℕ
  pub source : Source
  pub node_name : String

pub data ResolveError : Type 0 where
  id_too_long : ResolveError
  invalid_explicit : RouterIdError → ResolveError
  node_timeout node_cancelled : ResolveError
  template_failed : TemplateError → ResolveError
  invalid_template : RouterIdError → ResolveError
  auto_detect_failed : RouterIdError → ResolveError

pub data Resolved : Type 0 where
  resolved : RouterIdResolution → Resolved
  unresolved : ResolveError → Resolved

abbrev pub default_router_id_pool : String
default_router_id_pool = "10.255.0.0/16"

unfoldable pub has_template_prefix : List ℕ → Bool
unfolding after_prefix
has_template_prefix id = is_some (after_prefix (utf8 "${") id)

-- One round for each second until the deadline, and one more.
abbrev pub retry_fuel : ℕ
retry_fuel = 302

stored : Option NodeCache → ℕ → String → Node → Option NodeCache
stored none now name node = none
stored (some c) now name node = some (NodeCache.set c now name node)

-- The end of getNodeWithRetry: the node is stored in the cache, if there is one.
unfoldable pub keep_fetched :
    Option NodeCache → String → Option (Fetch × ℕ × ℕ) → Option (Fetch × Option NodeCache)
unfolding stored
keep_fetched cache name none = none
keep_fetched cache name (some (fetched node, at, last)) =
    some (fetched node, stored cache at name node)
keep_fetched cache name (some (timed_out, at, last)) = some (timed_out, cache)
keep_fetched cache name (some (cancelled_fetch, at, last)) = some (cancelled_fetch, cache)

module _ (env : Surroundings) (now : ℕ) (name : String) where
  unfoldable pub fetch_node : Option NodeCache → Option (Fetch × Option NodeCache)
  unfolding retry keep_fetched
  fetch_node cache =
      keep_fetched cache name
        (retry env (now + max_startup_retry_time) retry_fuel 0 now initial_retry_delay)

  -- `none` means that the fuel ran out.
  unfoldable pub get_node_with_retry : Option NodeCache → Option (Fetch × Option NodeCache)
  unfolding fetch_node
  get_node_with_retry none = fetch_node none
  get_node_with_retry (some c) =
      let (hit, c') = NodeCache.get c now name in
      elim hit [ some node ↦ some (fetched node, some c') | none ↦ fetch_node (some c') ]

module _ (parse_ipv6 : List ℕ → Option (List ℕ)) (parse_cidr : String → Option IpNet) where
  unfoldable pub hashed : String → Generated → Resolved
  unfolding print_ipv4
  hashed name (refused e) = unresolved (auto_detect_failed e)
  hashed name (generated id) =
      resolved
        (record { router_id = print_ipv4 id; source = hash_from_node_name; node_name = name })

  unfoldable pub detected : String → Option (List ℕ) → Generated → Resolved
  unfolding hashed
  detected name none id = hashed name id
  detected name (some address) id =
      resolved (record { router_id = address; source = node_ipv4; node_name = name })

  -- autoDetectRouterID, for the pool of the resource.
  unfoldable pub auto_detect_router_id : String → String → Node → Resolved
  unfolding detected
  auto_detect_router_id name pool node =
      let pool' = if pool == "" then default_router_id_pool else pool in
      detected name (first_ipv4 parse_ipv6 internal_ip node.addresses)
        (generate_router_id node.name (parse_cidr pool'))

  unfoldable pub checked_template : String → List ℕ → Option RouterIdError → Resolved
  checked_template name id none =
      resolved (record { router_id = id; source = template; node_name = name })
  checked_template name id (some e) = unresolved (invalid_template e)

  unfoldable pub from_template : String → Template → Resolved
  unfolding checked_template
  from_template name (template_error e) = unresolved (template_failed e)
  from_template name (value id) = checked_template name id (validate_router_id_format parse_ipv6 id)

  unfoldable pub checked_explicit : String → List ℕ → Option RouterIdError → Resolved
  checked_explicit name id none =
      resolved (record { router_id = id; source = explicit; node_name = name })
  checked_explicit name id (some e) = unresolved (invalid_explicit e)

  -- The cases for which the node is needed.
  unfoldable pub resolve_with_node : String → Crd.GlobalSpec → Node → Resolved
  unfolding from_template auto_detect_router_id has_template_prefix
  resolve_with_node name spec node =
      if has_template_prefix (utf8 spec.router_id)
      then from_template name (resolve_router_id_template parse_ipv6 (utf8 spec.router_id) node)
      else auto_detect_router_id name spec.router_id_pool node

  unfoldable pub with_fetch :
      String
      → Crd.GlobalSpec
      → Option (Fetch × Option NodeCache)
      → Option (Resolved × Option NodeCache)
  unfolding resolve_with_node
  with_fetch name spec none = none
  with_fetch name spec (some (fetched node, c)) = some (resolve_with_node name spec node, c)
  with_fetch name spec (some (timed_out, c)) = some (unresolved node_timeout, c)
  with_fetch name spec (some (cancelled_fetch, c)) = some (unresolved node_cancelled, c)

  unfoldable pub resolve_router_id :
      Surroundings
      → ℕ
      → String
      → Crd.GlobalSpec
      → Option NodeCache
      → Option (Resolved × Option NodeCache)
  unfolding with_fetch checked_explicit has_template_prefix
  resolve_router_id env now name spec cache =
      if ltb max_router_id_length (length (utf8 spec.router_id))
      then some (unresolved id_too_long, cache)
      else if not (spec.router_id == "") && not (has_template_prefix (utf8 spec.router_id))
      then some (
        checked_explicit name (utf8 spec.router_id)
            (validate_router_id_format parse_ipv6 (utf8 spec.router_id)),
        cache,
      )
      else with_fetch name spec (get_node_with_retry env now name cache)
