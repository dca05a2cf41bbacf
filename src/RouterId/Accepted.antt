-- ===== src/RouterId/Accepted.antt =====
-- controllers/router_id_resolution.go: where the router IDs come from that ResolveRouterID returns.
use k8gobgp.Prelude.{
  ℕ, ◌≡◌, refl, ◌⊎◌, inl, inr, String, ◌&&◌, not, Option, none, some, List, ◌==◌, string_eq, nat_eq,
  if◌then◌else◌, ltb, length, Bool-cases, Option-cases, ap,
}
use mathlib.Core.Path.{subst}
use k8gobgp.Prelude.Text.{utf8}
use k8gobgp.Crd
use k8gobgp.RouterId.{
  IpNet, validate_router_id_format, validate_ipv4_address, first_ipv4, internal_ip,
  generate_router_id, Generated, generated, refused, max_router_id_length,
}
use k8gobgp.RouterId.Dotted.{print_ipv4}
use k8gobgp.RouterId.NodeCache.{Node, NodeCache}
use k8gobgp.RouterId.Backoff.{Surroundings, Fetch, fetched, timed_out, cancelled_fetch}
use k8gobgp.RouterId.Template.{Template, value, template_error, resolve_router_id_template}
use k8gobgp.RouterId.Resolve
use k8gobgp.RouterId.Resolve.{
  Source, explicit, template, node_ipv4, hash_from_node_name, RouterIdResolution, Resolved,
  resolved, unresolved, get_node_with_retry, resolve_router_id, resolve_with_node,
  auto_detect_router_id, default_router_id_pool,
}
use k8gobgp.RouterId.Addresses.{format-ipv4, HasAddress, first_ipv4_lem}

module _ (parse_ipv6 : List ℕ → Option (List ℕ)) (parse_cidr : String → Option IpNet) where
  -- Where the ID came from, by the source that is reported: the resource's own text, which passes the
  -- checks; the value of its template, which passes them too; an internal address of the node that is an
  -- IPv4 address fit for use; or, for a node without one, the address generated from the node's name.
  abbrev pub IsFrom : Crd.GlobalSpec → Node → List ℕ → Source → Type 0
  IsFrom spec node id explicit =
      (id ≡ utf8 spec.router_id) × (validate_ipv4_address parse_ipv6 id ≡ none)
  IsFrom spec node id template =
      (resolve_router_id_template parse_ipv6 (utf8 spec.router_id) node ≡ value id)
      × (validate_ipv4_address parse_ipv6 id ≡ none)
  IsFrom spec node id node_ipv4 =
      HasAddress parse_ipv6 internal_ip node.addresses id
      × (validate_ipv4_address parse_ipv6 id ≡ none)
  IsFrom spec node id hash_from_node_name =
      (first_ipv4 parse_ipv6 internal_ip node.addresses ≡ none)
      × ((n : ℕ) × (generate_router_id node.name (
              parse_cidr
                (if spec.router_id_pool == "" then default_router_id_pool else spec.router_id_pool))
            ≡ generated n)
          × (id ≡ print_ipv4 n))

  -- The same of a whole result, which names the node's own name.
  abbrev IsResolved : String → Crd.GlobalSpec → Node → RouterIdResolution → Type 0
  IsResolved name spec node r = (r.node_name ≡ name) × IsFrom spec node r.router_id r.source

  as_resolved :
      (name : String) (spec : Crd.GlobalSpec) (node : Node) (x r : RouterIdResolution)
      → IsResolved name spec node x
      → resolved x ≡ resolved r
      → IsResolved name spec node r
  as_resolved name spec node x r f h =
      let p : x ≡ r = cc in subst (λ (y : RouterIdResolution). IsResolved name spec node y) p f

  hashed_lem :
      (name : String) (spec : Crd.GlobalSpec) (node : Node) (r : RouterIdResolution) (g : Generated)
      → first_ipv4 parse_ipv6 internal_ip node.addresses ≡ none
      → generate_router_id node.name (
          parse_cidr
            (if spec.router_id_pool == "" then default_router_id_pool else spec.router_id_pool))
        ≡ g
      → Resolve.hashed parse_ipv6 parse_cidr name g ≡ resolved r
      → IsResolved name spec node r
  unfolding Resolve.hashed
  hashed_lem name spec node r (refused e) no_address hg h = absurd (cc)
  hashed_lem name spec node r (generated n) no_address hg h =
      as_resolved name spec node _ r (refl, (no_address, (n, hg, refl))) h

  detected_lem :
      (name : String) (spec : Crd.GlobalSpec) (node : Node) (r : RouterIdResolution)
      → auto_detect_router_id parse_ipv6 parse_cidr name spec.router_id_pool node ≡ resolved r
      → IsResolved name spec node r
  unfolding auto_detect_router_id Resolve.detected
  detected_lem name spec node r h =
      elim (Option-cases (first_ipv4 parse_ipv6 internal_ip node.addresses)) [
        | inl no_address ↦ hashed_lem name spec node r _ no_address refl (rw no_address at h)
        | inr (a, found) ↦
            as_resolved name spec node _ r
              (refl, first_ipv4_lem parse_ipv6 internal_ip node.addresses a found) (rw found at h)
      ]

  from_template_lem :
      (name : String) (spec : Crd.GlobalSpec) (node : Node) (r : RouterIdResolution) (t : Template)
      → resolve_router_id_template parse_ipv6 (utf8 spec.router_id) node ≡ t
      → Resolve.from_template parse_ipv6 parse_cidr name t ≡ resolved r
      → IsResolved name spec node r
  unfolding Resolve.from_template Resolve.checked_template
  from_template_lem name spec node r (template_error e) ht h = absurd (cc)
  from_template_lem name spec node r (value id) ht h =
      elim (Option-cases (validate_router_id_format parse_ipv6 id)) [
        | inl good ↦
            as_resolved name spec node _ r (refl, (ht, format-ipv4 parse_ipv6 id good))
              (rw good at h)
        | inr (e, bad) ↦ let no = rw bad at h in absurd (cc)
      ]

  -- Whatever ResolveRouterID makes of a node.
  resolve_with_node_lem :
      (name : String) (spec : Crd.GlobalSpec) (node : Node) (r : RouterIdResolution)
      → resolve_with_node parse_ipv6 parse_cidr name spec node ≡ resolved r
      → IsResolved name spec node r
  unfolding resolve_with_node
  resolve_with_node_lem name spec node r h =
      elim (Bool-cases (Resolve.has_template_prefix (utf8 spec.router_id))) [
        | inl t ↦ from_template_lem name spec node r _ refl (rw t at h)
        | inr a ↦ detected_lem name spec node r (rw a at h)
      ]

  with_fetch_lem :
      (name : String) (spec : Crd.GlobalSpec) (r : RouterIdResolution)
      (f : Option (Fetch × Option NodeCache)) (c : Option NodeCache)
      → Resolve.with_fetch parse_ipv6 parse_cidr name spec f ≡ some (resolved r, c)
      → (node : Node) × (f ≡ some (fetched node, c)) × IsResolved name spec node r
  unfolding Resolve.with_fetch
  with_fetch_lem name spec r none c h = absurd (cc)
  with_fetch_lem name spec r (some (fetched node, c')) c h =
      let e : resolve_with_node parse_ipv6 parse_cidr name spec node ≡ resolved r = cc in
      let k : c' ≡ c = cc in
      (node, ap (λ x. some (fetched node, x)) k, resolve_with_node_lem name spec node r e)
  with_fetch_lem name spec r (some (timed_out, c')) c h = absurd (cc)
  with_fetch_lem name spec r (some (cancelled_fetch, c')) c h = absurd (cc)

  -- The resource's own text, which is an IPv4 address fit for use.
  abbrev pub IsLiteral : Crd.GlobalSpec → RouterIdResolution → Type 0
  IsLiteral spec r =
      (r.source ≡ explicit)
      × (r.router_id ≡ utf8 spec.router_id)
      × (validate_ipv4_address parse_ipv6 r.router_id ≡ none)

  literal_lem :
      (name : String) (spec : Crd.GlobalSpec) (r : RouterIdResolution)
      → Resolve.checked_explicit parse_ipv6 parse_cidr name
          (utf8 spec.router_id)
          (validate_router_id_format parse_ipv6 (utf8 spec.router_id))
        ≡ resolved r
      → (r.node_name ≡ name) × IsLiteral spec r
  unfolding Resolve.checked_explicit
  literal_lem name spec r h =
      elim (Option-cases (validate_router_id_format parse_ipv6 (utf8 spec.router_id))) [
        | inl good ↦
            let p : RouterIdResolution = record {
              router_id = utf8 spec.router_id;
              source = explicit;
              node_name = name;
            } in
            let e : p ≡ r = let k = rw good at h in cc in
            subst (λ (y : RouterIdResolution). (y.node_name ≡ name) × IsLiteral spec y) e
              (refl, (refl, refl, format-ipv4 parse_ipv6 (utf8 spec.router_id) good))
        | inr (e, bad) ↦ let no = rw bad at h in absurd (cc)
      ]

  -- What a successful ResolveRouterID returns has the node's name and, either, the text of the resource,
  -- with the source `explicit`, an IPv4 address that is no loopback, link-local or unspecified one; or it
  -- was made of the node that getNodeWithRetry gave, as `IsFrom` says for its source.
  pub resolve_router_id_lem :
      (env : Surroundings) (now : ℕ) (name : String) (spec : Crd.GlobalSpec)
      (cache : Option NodeCache) (r : RouterIdResolution) (cache' : Option NodeCache)
      → resolve_router_id parse_ipv6 parse_cidr env now name spec cache ≡ some (resolved r, cache')
      → (r.node_name ≡ name)
        × (IsLiteral spec r
            ⊎ ((node : Node) × (get_node_with_retry env now name cache
                  ≡ some (fetched node, cache'))
                × IsFrom spec node r.router_id r.source))
  unfolding resolve_router_id
  resolve_router_id_lem env now name spec cache r cache' h =
      elim (Bool-cases (ltb max_router_id_length (length (utf8 spec.router_id)))) [
        | inl long ↦ let no = rw long at h in absurd (cc)
        | inr fits ↦
            let h' = rw fits at h in
            elim (Bool-cases (
              not (spec.router_id == "")
              && not (Resolve.has_template_prefix (utf8 spec.router_id)))) [
                | inl own ↦
                    let h'' = rw own at h' in let l = literal_lem name spec r (cc) in (l.0, inl l.1)
                | inr other ↦
                    let (node, f, (n, from)) =
                      with_fetch_lem name spec r (get_node_with_retry env now name cache) cache'
                        (rw other at h') in
                    (n, inr (node, f, from))
              ]
      ]
