-- ===== src/Sync/Key.antt =====
-- controllers/bgpconfiguration_controller.go: neighborKey and neighborKeyFromCRD, the keys by which
-- peers are compared.
use Prim.Native.String.{◌++◌}
use k8gobgp.Prelude.{String, Option, none, some, ◌!=◌, string_eq, if◌then◌else◌}
use k8gobgp.Crd
use k8gobgp.Api.{PeerConf}

-- The interface of an unnumbered peer, marked as one, else the address.
abbrev pub key_for : String → String → String
key_for interface address = if interface != "" then "iface:" ++ interface else address

-- neighborKey of a peer's Conf. The daemon reports one for each peer; on a nil the code panics, and
-- the model has the empty key.
unfoldable pub neighbor_key : Option PeerConf → String
neighbor_key none = ""
neighbor_key (some conf) = key_for conf.neighbor_interface conf.neighbor_address

unfoldable pub neighbor_key_from_crd : Crd.NeighborConfig → String
neighbor_key_from_crd cfg = key_for cfg.neighbor_interface cfg.neighbor_address
