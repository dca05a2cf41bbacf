-- ===== src/Lib.antt =====
-- k8gobgp is a Kubernetes operator that runs beside gobgpd on each node. It reads one BGPConfiguration
-- resource and brings gobgpd, over gRPC, to what the resource asks for. The model follows the
-- controller; a path is from the repository's root.
--
-- Parts and files:
--   Crd          api/v1/types.go: the resource, a record for each struct. A pointer is an Option.
--   Api          the messages of gobgp's API that the controller sends and reads (vendored).
--   Owner        electOwningConfig of controllers/bgpconfiguration_controller.go: which resource may
--                program gobgpd. The other parts of that file are
--   Reconcile    Reconcile, rejectDuplicateConfig, deleteIgnoredConfig and the frame of
--                reconcileDelete: a call is the list of its effects with its reply,
--   Cleanup      the calls of reconcileDelete and the finalizer,
--   Status       updateStatusCondition,
--   Global       reconcileGlobal: the effective router ID with the entry kept for it
--                (resolveEffectiveRouterID) until reconcileDelete drops it, the checks before gobgpd is called, the start of BGP, the
--                report of what needs a restart,
--   Sync         reconcileNeighbors, reconcilePeerGroups, reconcileDynamicNeighbors and, in
--                Sync.Policies, reconcileDefinedSets, reconcilePolicies,
--                reconcileGlobalPolicyAssignment and reconcileVrfs. Each walks the map of what gobgpd
--                has and the map of what is desired (Sync, the shape they share), and makes calls;
--                Sync.Table is the table that the calls act on,
--   Netlink      reconcileNetlink and reconcileVrfNetlink,
--   Compare      peerConfigEqual and the other comparators, by which Sync decides on an update,
--   Convert      the conversions from Crd to Api, by which Sync builds the desired objects: peers and
--                peer groups, defined sets and policies (Convert.Policies), VRFs (Convert.Vrfs, with
--                formatRouteDistinguisher of controllers/bgpnodestatus_reporter.go).
--   NodeStatus   api/v1/bgpnodestatus_types.go and controllers/bgpnodestatus_reporter.go: what the
--                reporter collects for the node's BGPNodeStatus object (collectStatus), when a status
--                counts as healthy or as changed, and its write.
--   Health       controllers/gobgpd_health.go: the readiness check of gobgpd.
--   Net          net.ParseIP of an IPv4 text, and the text functions of the standard library.
--   Validation   controllers/validation.go, with the sanitizer of log messages, and
--                validateConfiguration (Validation.Config).
--   RouterId     controllers/router_id_resolution.go: the checks of router IDs and pools, the choice of
--                a node address, the generated router ID, the cache of nodes (RouterId.NodeCache), the
--                retry with its delays (RouterId.Backoff), templates and ResolveRouterID itself.
--   Prelude      shared names, Boolean tests, equality as an instance, Go's maps, text order.
--   Examples     the theorems at concrete inputs.
--
-- State is passed explicitly. A Go map is an association list with one entry for a key; the order of
-- `range` is a parameter (Sync.RangeOrder). Times are seconds, and nanoseconds in the retry; numbers
-- are natural numbers, with the wrap of uint32 written out where the code computes (RouterId). Texts
-- are Strings, or lists of their bytes or code points where the code looks inside. Loops are structural recursion,
-- but for the retry of getNodeWithRetry, which runs on 302 rounds of fuel: a round that is followed by
-- another one takes a second at least, and none starts after the deadline of 300 seconds.
--
-- Parameters: the answers of the API server and of gobgpd, per round of the retry too, with the time
-- each takes; the label matching of Kubernetes, Secrets, net/netip, net.ParseCIDR, the parser of IPv6
-- addresses; the texts of errors. In Reconcile, the functions of the chain are stages that may change
-- the status and fail.
--
-- Not modelled: logs, events and metrics, which decide nothing, with the annotation of the pod; the
-- reporter's walks over the RIB, the netlink imports and exports and the VRFs, whose results are given;
-- the manager's start; generated and vendored code.
mod Prelude
pub mod Crd
pub mod Api
pub mod Compare
pub mod Convert
pub mod Owner
pub mod Net
pub mod Validation
pub mod RouterId
pub mod Sync
pub mod Global
pub mod Health
pub mod NodeStatus
pub mod Netlink
pub mod Status
pub mod Cleanup
pub mod Reconcile
mod Examples
