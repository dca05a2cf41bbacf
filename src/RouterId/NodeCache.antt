-- ===== src/RouterId/NodeCache.antt =====
-- controllers/router_id_resolution.go: the node object, as far as it is read, and nodeCache. A time is a
-- number of nanoseconds. The lock makes each operation one step.
use k8gobgp.Prelude.{
  ℕ, ◌-◌, ◌*◌, Bool, true, false, Option, none, some, List, [], ◌∷◌, String, string_eq, nat_eq,
  list_eq, if◌then◌else◌, ltb,
}
use k8gobgp.Prelude.GoMap.{GoMap, lookup, insert, erase}
use k8gobgp.RouterId.{NodeAddress}

pub record Node : Type 0 where
  pub name : List ℕ
  pub addresses : List NodeAddress
  pub annotations : List (List ℕ × List ℕ)

abbrev pub is_empty : {A : Type 0} → List A → Bool
is_empty [] = true
is_empty (a ∷ as') = false

pub record CachedNode : Type 0 where
  pub node : Node
  pub fetched_at : ℕ

pub record NodeCache : Type 0 where
  pub cache : GoMap CachedNode
  pub ttl : ℕ

abbrev pub second : ℕ
second = 1000000000

abbrev pub node_cache_ttl : ℕ
node_cache_ttl = 300 * second

-- newNodeCache
unfoldable pub new_node_cache : ℕ → NodeCache
new_node_cache ttl = record { cache = []; ttl = ttl }

-- get, after the look-up: what it returns, and the cache with an expired entry taken out.
read_entry : NodeCache → ℕ → String → Option CachedNode → Option Node × NodeCache
read_entry c now name none = (none, c)
read_entry c now name (some cached) =
    if ltb c.ttl (now - cached.fetched_at)
    then (none, record c { cache = erase name c.cache })
    else (some cached.node, c)

-- nodeCache.get, at the time `now`.
unfoldable pub get : NodeCache → ℕ → String → Option Node × NodeCache
unfolding read_entry
get c now name = read_entry c now name (lookup name c.cache)

-- nodeCache.set
unfoldable pub set : NodeCache → ℕ → String → Node → NodeCache
set c now name node = record c {
  cache = insert name (record { node = node; fetched_at = now }) c.cache;
}

-- nodeCache.invalidate
unfoldable pub invalidate : NodeCache → String → NodeCache
invalidate c name = record c { cache = erase name c.cache }
