-- ===== src/RouterId.antt =====
-- controllers/router_id_resolution.go: the checks on a router ID and its pool, the choice of a node
-- address, and the generated router ID. Texts are their bytes.
pub mod Pool
pub mod NodeCache
pub mod Backoff
pub mod Retry
pub mod Dotted
pub mod Template
pub mod Resolve
pub mod Sound
pub mod Addresses
pub mod Accepted
use Prim.Native.Nat.{bit_xor}
use k8gobgp.Prelude.{
  ℕ, ◌+◌, ◌-◌, ◌*◌, ◌/◌, ◌%◌, ◌^◌, Bool, true, false, ◌&&◌, ◌||◌, Option, none, some, List, [], ◌∷◌,
  ◌==◌, nat_eq, list_eq, if◌then◌else◌, leb, ltb, length,
}
use k8gobgp.Net.{Ip, parse_ip, to4}

pub data RouterIdError : Type 0 where
  empty_router_id : RouterIdError
  too_long : RouterIdError
  not_an_ip : RouterIdError
  not_ipv4 : RouterIdError
  loopback : RouterIdError
  link_local : RouterIdError
  unspecified : RouterIdError
  invalid_cidr : RouterIdError
  pool_not_ipv4 : RouterIdError
  pool_too_small : RouterIdError
  no_internal_ipv4 : RouterIdError
  no_external_ipv4 : RouterIdError

abbrev pub max_router_id_length : ℕ
max_router_id_length = 256

abbrev pub min_router_id_pool_size : ℕ
min_router_id_pool_size = 24

-- The address part of validateIPv4Address; `none` is a nil error.
check_quad : ℕ × ℕ × ℕ × ℕ → Option RouterIdError
check_quad (a, b, c, d) =
    if a == 127
    then some loopback
    else if a == 169 && b == 254
    then some link_local
    else if a == 0 && b == 0 && c == 0 && d == 0
    then some unspecified
    else none

check_to4 : Option (ℕ × ℕ × ℕ × ℕ) → Option RouterIdError
unfolding check_quad
check_to4 none = some not_ipv4
check_to4 (some q) = check_quad q

check_ip : Option Ip → Option RouterIdError
unfolding check_to4
check_ip none = some not_an_ip
check_ip (some ip) = check_to4 (to4 ip)

-- corev1.NodeAddress, with the address types that the code asks for.
pub data AddressType : Type 0 where
  internal_ip external_ip other_address : AddressType

pub record NodeAddress : Type 0 where
  pub address_type : AddressType
  pub address : List ℕ

abbrev same_type : AddressType → AddressType → Bool
same_type internal_ip internal_ip = true
same_type external_ip external_ip = true
same_type other_address other_address = true
same_type _ _ = false

module _ (parse_ipv6 : List ℕ → Option (List ℕ)) where
  unfoldable pub validate_ipv4_address : List ℕ → Option RouterIdError
  unfolding check_ip
  validate_ipv4_address address = check_ip (parse_ip parse_ipv6 address)

  -- The two tests on the parsed address, before validateIPv4Address parses it again.
  parsed_format : Option Ip → Option RouterIdError → Option RouterIdError
  parsed_format none rest = some not_an_ip
  parsed_format (some ip) rest = elim (to4 ip) [ none ↦ some not_ipv4 | some q ↦ rest ]

  unfoldable pub validate_router_id_format : List ℕ → Option RouterIdError
  unfolding parsed_format
  validate_router_id_format router_id =
      if length router_id == 0
      then some empty_router_id
      else if ltb max_router_id_length (length router_id)
      then some too_long
      else parsed_format (parse_ip parse_ipv6 router_id) (validate_ipv4_address router_id)

  -- The loop of getNodeInternalIPv4 and getNodeExternalIPv4, for the type of address sought.
  usable : AddressType → NodeAddress → Bool
  usable t a = same_type a.address_type t && elim (parse_ip parse_ipv6 a.address) [
    | none ↦ false
    | some ip ↦ elim (to4 ip) [
      | none ↦ false
      | some q ↦ elim (validate_ipv4_address a.address) [ none ↦ true | some e ↦ false ]
    ]
  ]

  unfoldable pub first_ipv4 : AddressType → List NodeAddress → Option (List ℕ)
  unfolding usable
  first_ipv4 t [] = none
  first_ipv4 t (a ∷ rest) = if usable t a then some a.address else first_ipv4 t rest

-- One byte of FNV-1a: XOR, then the multiplication of uint32.
abbrev fnv_prime : ℕ
fnv_prime = 16777619

fnv_step : ℕ → ℕ → ℕ
fnv_step hash byte = bit_xor hash byte * fnv_prime % 2 ^ 32

fnv_from : ℕ → List ℕ → ℕ
unfolding fnv_step
fnv_from hash [] = hash
fnv_from hash (b ∷ bs) = fnv_from (fnv_step hash b) bs

unfoldable pub fnv32a : List ℕ → ℕ
unfolding fnv_from
fnv32a bytes = fnv_from 2166136261 bytes

-- net.ParseCIDR, as its caller sees it: the base address and the prefix length of an IPv4 network; of
-- an IPv6 one, whether the base maps an IPv4 address, and the prefix length.
pub data IpNet : Type 0 where
  net4 : ℕ → ℕ → IpNet
  net6 : Bool → ℕ → IpNet

-- The pool's address as a number, with `ones` leading bits kept: the base of the network.
abbrev pub masked : ℕ → ℕ → ℕ
masked ones ip = ip / 2 ^ (32 - ones) * 2 ^ (32 - ones)

-- `uint32(1 << (bits - ones))`, which is 0 for a prefix length of 0.
unfoldable pub pool_size : ℕ → ℕ
pool_size ones = 2 ^ (32 - ones) % 2 ^ 32

-- `(hash % (poolSize - 2)) + 1` in uint32.
unfoldable pub pool_offset : ℕ → ℕ → ℕ
unfolding pool_size
pool_offset hash ones = (hash % ((pool_size ones + 2 ^ 32 - 2) % 2 ^ 32) + 1) % 2 ^ 32

pub data Generated : Type 0 where
  generated : ℕ → Generated
  refused : RouterIdError → Generated

-- GenerateRouterIDFromNodeName after its ParseCIDR; the result is the address as a number.
unfoldable pub generate_router_id : List ℕ → Option IpNet → Generated
unfolding pool_offset
generate_router_id node_name none = refused invalid_cidr
generate_router_id node_name (some (net6 maps ones)) = refused pool_not_ipv4
generate_router_id node_name (some (net4 ip ones)) =
    if ltb min_router_id_pool_size ones
    then refused pool_too_small
    else generated ((masked ones ip + pool_offset (fnv32a node_name) ones) % 2 ^ 32)

-- ValidateRouterIDPool after its ParseCIDR; the empty pool is accepted before it.
unfoldable pub validate_router_id_pool : List ℕ → Option IpNet → Option RouterIdError
validate_router_id_pool [] net = none
validate_router_id_pool (c ∷ cs) none = some invalid_cidr
validate_router_id_pool (c ∷ cs) (some (net6 false ones)) = some pool_not_ipv4
validate_router_id_pool (c ∷ cs) (some (net6 true ones)) =
    if ltb min_router_id_pool_size ones then some pool_too_small else none
validate_router_id_pool (c ∷ cs) (some (net4 ip ones)) =
    if ltb min_router_id_pool_size ones then some pool_too_small else none
