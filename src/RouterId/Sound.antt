-- ===== src/RouterId/Sound.antt =====
-- controllers/router_id_resolution.go: the ends of getNodeWithRetry and ResolveRouterID.
use k8gobgp.Prelude.{
  ℕ, ◌+◌, ◌≤◌, ◌≡◌, refl, inl, inr, String, ◌&&◌, not, Option, none, some, List, ◌==◌, string_eq,
  ltb, length, Bool-cases, Option-cases, arith,
}
use k8gobgp.Prelude.Text.{utf8}
use k8gobgp.Crd
use k8gobgp.RouterId.{IpNet, max_router_id_length}
use k8gobgp.RouterId.NodeCache
use k8gobgp.RouterId.NodeCache.{Node, NodeCache, second}
use k8gobgp.RouterId.Backoff.{
  Surroundings, Fetch, fetched, timed_out, cancelled_fetch, retry, max_startup_retry_time,
  initial_retry_delay,
}
use k8gobgp.RouterId.Retry.{Ends, retry_ends}
use k8gobgp.RouterId.Resolve
use k8gobgp.RouterId.Resolve.{
  Source, explicit, template, node_ipv4, hash_from_node_name, RouterIdResolution, Resolved,
  resolved, unresolved, get_node_with_retry, resolve_router_id, resolve_with_node,
  auto_detect_router_id, default_router_id_pool, retry_fuel,
}

-- The loop of getNodeWithRetry returns within 302 rounds, whatever the API server answers, however late the
-- timers fire, and ends as `Ends` says: with the first node that has an address; past the deadline of five
-- minutes with a node that has none, or by the timeout if Get failed; or by the context.
pub retry_returns :
    (env : Surroundings) (now : ℕ)
    → (r : Fetch) × (at : ℕ) × (last : ℕ) × (retry env
          (now + max_startup_retry_time)
          retry_fuel
          0
          now
          initial_retry_delay
        ≡ some (r, at, last))
      × (last ≤ 0 + 301)
      × Ends env (now + max_startup_retry_time) 0 r at last
retry_returns env now =
    retry_ends env (now + max_startup_retry_time) 301 0 now initial_retry_delay
      (record { least = omega arith; most = omega arith }) (omega arith)

-- A result, of whichever kind.
abbrev pub Returns : {A : Type 0} → Option A → Type 0
Returns {A} o = (a : A) × (o ≡ some a)

keep_fetched-Returns :
    (cache : Option NodeCache) (name : String) (r : Fetch) (at last : ℕ)
    → Returns (Resolve.keep_fetched cache name (some (r, at, last)))
unfolding Resolve.keep_fetched
keep_fetched-Returns cache name (fetched node) at last = (_, refl)
keep_fetched-Returns cache name timed_out at last = (_, refl)
keep_fetched-Returns cache name cancelled_fetch at last = (_, refl)

fetch_node-Returns :
    (env : Surroundings) (now : ℕ) (name : String) (cache : Option NodeCache)
    → Returns (Resolve.fetch_node env now name cache)
unfolding Resolve.fetch_node
fetch_node-Returns env now name cache =
    let (r, at, last, run, bound, ends) = retry_returns env now in
    rw run (keep_fetched-Returns cache name r at last)

get_node_with_retry-Returns :
    (env : Surroundings) (now : ℕ) (name : String) (cache : Option NodeCache)
    → Returns (get_node_with_retry env now name cache)
unfolding get_node_with_retry
get_node_with_retry-Returns env now name none = fetch_node-Returns env now name none
get_node_with_retry-Returns env now name (some c) =
    elim (Option-cases (NodeCache.get c now name).0) [
      | inl miss ↦
          rw (miss, get_node_with_retry)
            (fetch_node-Returns env now name (some (NodeCache.get c now name).1))
      | inr (node, hit) ↦ rw (hit, get_node_with_retry) (_, refl)
    ]

module _ (parse_ipv6 : List ℕ → Option (List ℕ)) (parse_cidr : String → Option IpNet) where
  with_fetch-Returns :
      (name : String) (spec : Crd.GlobalSpec) (r : Fetch) (c : Option NodeCache)
      → Returns (Resolve.with_fetch parse_ipv6 parse_cidr name spec (some (r, c)))
  unfolding Resolve.with_fetch
  with_fetch-Returns name spec (fetched node) c = (_, refl)
  with_fetch-Returns name spec timed_out c = (_, refl)
  with_fetch-Returns name spec cancelled_fetch c = (_, refl)

  -- ResolveRouterID returns, a router ID or an error, whatever the API server answers and however late the
  -- timers fire: the fuel of its retry loop suffices.
  pub resolve_router_id-Returns :
      (env : Surroundings) (now : ℕ) (name : String) (spec : Crd.GlobalSpec)
      (cache : Option NodeCache)
      → Returns (resolve_router_id parse_ipv6 parse_cidr env now name spec cache)
  unfolding resolve_router_id
  resolve_router_id-Returns env now name spec cache =
      elim (Bool-cases (ltb max_router_id_length (length (utf8 spec.router_id)))) [
        | inl long ↦ rw long (_, refl)
        | inr fits ↦
            rw fits
              (elim (Bool-cases (
                not (spec.router_id == "")
                && not (Resolve.has_template_prefix (utf8 spec.router_id)))) [
                  | inl literal ↦ rw literal (_, refl)
                  | inr sought ↦
                      let ((r, c), run) = get_node_with_retry-Returns env now name cache in
                      rw sought (rw run (with_fetch-Returns name spec r c))
                ])
      ]
