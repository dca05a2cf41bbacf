-- ===== src/Health.antt =====
-- controllers/gobgpd_health.go: GoBGPDChecker, the readiness check of gobgpd. A check runs under the lock, so it
-- is one step. grpc.NewClient and GetBgp are given by whether they succeed.
use k8gobgp.Prelude.{
  ℕ, String, ◌≡◌, refl, Bool, true, false, ◌&&◌, Option, none, some, List, ◌++◌, ◌==◌, string_eq,
  if◌then◌else◌,
}
use k8gobgp.Prelude.Text.{codes}
use k8gobgp.RouterId.Template.{after_prefix}

abbrev default_gobgp_endpoint : String
default_gobgp_endpoint = "localhost:50051"

-- The client of a checker is there once it is made; `gauge` is the connection status last recorded.
pub record GobgpdChecker : Type 0 where
  pub endpoint : String
  pub has_client : Bool
  pub gauge : Option Bool

unfoldable pub new_gobgpd_checker : String → GobgpdChecker
new_gobgpd_checker endpoint = record {
  endpoint = if endpoint == "" then default_gobgp_endpoint else endpoint;
  has_client = false;
  gauge = none;
}

-- The target that is dialed.
unfoldable pub target : String → List ℕ
unfolding after_prefix
target endpoint = elim (after_prefix (codes "unix://") (codes endpoint)) [
  | none ↦ codes endpoint
  | some rest ↦ codes "unix:" ++ rest
]

-- With whether there is a client.
unfoldable pub client_locked : (List ℕ → Bool) → GobgpdChecker → GobgpdChecker × Bool
unfolding target
client_locked dials c =
    if c.has_client
    then (c, true)
    else (record c { has_client = dials (target c.endpoint) }, dials (target c.endpoint))

-- The gauge is what the check answers.
checked : Bool → GobgpdChecker × Bool → GobgpdChecker × Bool
checked serves (c, has_client) =
    (record c { gauge = some (has_client && serves) }, has_client && serves)

unfoldable pub check : (List ℕ → Bool) → Bool → GobgpdChecker → GobgpdChecker × Bool
unfolding client_locked checked
check dials serves c = checked serves (client_locked dials c)

unfoldable pub close : GobgpdChecker → GobgpdChecker
close c = record c { has_client = false }

-- The status that a check records is the one that it answers.
pub gauge-check :
    (dials : List ℕ → Bool) (serves : Bool) (c : GobgpdChecker)
    → (check dials serves c).0.gauge ≡ some (check dials serves c).1
unfolding check checked
gauge-check dials serves c = refl
