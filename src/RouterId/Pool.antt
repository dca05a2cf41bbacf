-- ===== src/RouterId/Pool.antt =====
-- controllers/router_id_resolution.go: the place of the generated router ID in its pool.
use native.Mathlib.Nat.{
  pow-le-pow_right, mod-lt, div-lt_iff_lt-mul, mul-le-mul_right, two-pow-succ, add-mul, zero-add,
}
use mathlib.Core.Path.{subst}
use k8gobgp.Prelude.{
  ℕ, zero, suc, ◌+◌, ◌-◌, ◌*◌, ◌/◌, ◌%◌, ◌^◌, ◌≤◌, ◌<◌, ◌≡◌, refl, sym, ap, ◌∙◌, ◌≢◌, inl, inr,
  arith, none, some, List, ltb, ◌↔◌, Bool-cases, [], ◌∷◌,
}
use k8gobgp.RouterId.{
  net4, generated, masked, pool_size, pool_offset, fnv32a, generate_router_id,
  validate_router_id_pool, min_router_id_pool_size,
}

-- The address lies in the pool of `size` addresses from `base` on, and is neither the first of them,
-- which names the network, nor the last, its broadcast address.
pub record IsHost (base size id : ℕ) : Type 0 where
  pub above_network : base < id
  pub below_broadcast : id + 1 < base + size
  pub fits : id < 2 ^ 32

power_split : (m n : ℕ) → 2 ^ (m + n) ≡ 2 ^ m * 2 ^ n
power_split zero n = ap (λ x. 2 ^ x) (zero-add n) ∙ omega arith
power_split (suc m) n =
    let shift : suc m + n ≡ suc (m + n) = omega arith in
    ap (λ x. 2 ^ x) shift
    ∙ two-pow-succ (m + n)
    ∙ rw (two-pow-succ m, add-mul (2 ^ m) (2 ^ m) (2 ^ n), power_split m n) refl

-- A network of 2 ^ n addresses ends within those of m + n bits.
network_end : (m n ip : ℕ) → ip < 2 ^ (m + n) → ip / 2 ^ n * 2 ^ n + 2 ^ n ≤ 2 ^ (m + n)
network_end m n ip bound =
    let positive : 1 ≤ 2 ^ n =
      pow-le-pow_right {n = 2} (omega arith) {i = 0} {j = n} (omega arith) in
    let blocks : ip / 2 ^ n < 2 ^ m =
      (div-lt_iff_lt-mul positive).1 (subst (λ x. ip < x) (power_split m n) bound) in
    let grown : (ip / 2 ^ n + 1) * 2 ^ n ≤ 2 ^ m * 2 ^ n = mul-le-mul_right (2 ^ n) (omega arith) in
    rw (power_split m n)
      (subst (λ x. x ≤ 2 ^ m * 2 ^ n) (add-mul (ip / 2 ^ n) 1 (2 ^ n) ∙ omega arith) grown)

-- `poolSize - 2` in uint32 is two less than the size, also where the size 2 ^ 32 wraps to 0.
modulus_lem :
    (size : ℕ) → 256 ≤ size → size ≤ 2 ^ 32 → (size % 2 ^ 32 + 2 ^ 32 - 2) % 2 ^ 32 ≡ size - 2
modulus_lem size low high = omega arith

size_bounds : (ones : ℕ) → ones ≤ 24 → (256 ≤ 2 ^ (32 - ones)) × (2 ^ (32 - ones) ≤ 2 ^ 32)
size_bounds ones h = (
  pow-le-pow_right {n = 2} (omega arith) {i = 8} {j = 32 - ones} (omega arith),
  pow-le-pow_right {n = 2} (omega arith) {i = 32 - ones} {j = 32} (omega arith),
)

pool_offset_bounds :
    (hash ones : ℕ)
    → ones ≤ 24
    → (1 ≤ pool_offset hash ones) × (pool_offset hash ones + 1 < 2 ^ (32 - ones))
unfolding pool_offset pool_size
pool_offset_bounds hash ones h =
    let (low, high) = size_bounds ones h in
    let below = mod-lt hash {m = 2 ^ (32 - ones) - 2} (omega arith) in
    rw (modulus_lem (2 ^ (32 - ones)) low high) (omega arith, omega arith)

-- Whatever the node's name, a pool that is an IPv4 network with at most 24 leading bits, the prefix of
-- 0 bits included, gives a router ID that is a host of that pool: neither its network address nor its
-- broadcast address, and below 2 ^ 32 with no wrap.
pub generate_router_id-IsHost :
    (name : List ℕ) (ip ones : ℕ)
    → ip < 2 ^ 32
    → ones ≤ 24
    → (id : ℕ) × (generate_router_id name (some (net4 ip ones)) ≡ generated id)
      × IsHost (masked ones ip) (2 ^ (32 - ones)) id
unfolding generate_router_id
generate_router_id-IsHost name ip ones ip_fits h =
    let hash = fnv32a name in
    let (above, below) = pool_offset_bounds hash ones h in
    let bits : ones + (32 - ones) ≡ 32 = omega arith in
    let end : masked ones ip + 2 ^ (32 - ones) ≤ 2 ^ 32 =
      subst (λ b. masked ones ip + 2 ^ (32 - ones) ≤ 2 ^ b) bits
        (network_end ones (32 - ones) ip (subst (λ b. ip < 2 ^ b) (sym bits) ip_fits)) in
    let id = (masked ones ip + pool_offset hash ones) % 2 ^ 32 in
    (
      id,
      ground (arith),
      record { above_network = omega arith; below_broadcast = omega arith; fits = omega arith },
    )

-- A pool that the validation accepts and that parses as an IPv4 network never fails in the
-- generation, and one that the generation refuses is refused by the validation.
pub validate_router_id_pool-generates :
    (name text : List ℕ) (ip ones : ℕ)
    → text ≢ []
    → (validate_router_id_pool text (some (net4 ip ones)) ≡ none)
      ↔ ((id : ℕ) × (generate_router_id name (some (net4 ip ones)) ≡ generated id))
unfolding generate_router_id validate_router_id_pool
validate_router_id_pool-generates name [] ip ones h = absurd (h refl)
validate_router_id_pool-generates name (c ∷ cs) ip ones h =
    elim (Bool-cases (ltb min_router_id_pool_size ones)) [
      | inl small ↦ rw small ((λ e. absurd (cc)), λ p. let (x, q) = p in absurd (cc))
      | inr fine ↦ rw fine ((λ e. (_, refl)), λ p. refl)
    ]
