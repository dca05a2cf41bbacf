-- ===== src/Sync.antt =====
-- controllers/bgpconfiguration_controller.go: the reconcile functions that bring what gobgpd holds to
-- what the resource asks for. Each lists the current objects into a map, builds the desired map, walks
-- the current one for what to delete and the desired one for what to add or update. A call that fails
-- is logged and the walk goes on, so the calls made do not depend on the answers: they are a list.
-- Here is the shape that the functions share; the children have the functions, the table of objects
-- that the calls act on (Table), and where the walks lead (Settled and the Converges modules).
pub mod Table
pub mod Settled
pub mod Key
pub mod Neighbors
pub mod Groups
pub mod Keyed
pub mod Desired
pub mod Converges
pub mod Idle
pub mod GroupsConverge
pub mod RangesConverge
pub mod Policies
pub mod PoliciesConverge
pub mod SetsEqual
pub mod SetListings
pub mod SetsInSync
pub mod Reports
use k8gobgp.Prelude.{
  ℕ, String, ◌≡◌, Bool, false, Option, none, some, List, [], ◌∷◌, ◌++◌, ◌==◌, string_eq, ◌||◌,
}
use k8gobgp.Prelude.GoMap.{GoMap, lookup, keys}

-- A loop that makes the calls of its body for each key.
unfoldable pub each : {C : Type 0} → (String → List C) → List String → List C
each body [] = []
each body (k ∷ ks) = body k ++ each body ks

unfoldable pub listed : String → List String → Bool
listed k [] = false
listed k (j ∷ js) = j == k || listed k js

-- The order in which `range` visits a map's keys: any, and another one in each loop.
abbrev pub RangeOrder : Type 0
RangeOrder = ℕ → List String → List String

-- Each key of the map is visited, and no other.
abbrev pub VisitsAll : RangeOrder → Type 0
VisitsAll visit = (n : ℕ) (k : String) (ks : List String) → listed k (visit n ks) ≡ listed k ks

module _ {C V : Type 0} where
  -- The body of the walk over the current objects, with the calls that delete one: `desired` and
  -- `current` are what the maps have at the key.
  unfoldable pub unwanted_of : (V → List C) → Option V → Option V → List C
  unwanted_of delete (some d) current = []
  unwanted_of delete none none = []
  unwanted_of delete none (some c) = delete c

  unfoldable pub unwanted : (String → V → List C) → GoMap V → GoMap V → String → List C
  unfolding unwanted_of
  unwanted delete current desired k = unwanted_of (delete k) (lookup k desired) (lookup k current)

  -- The body of the walk over the desired objects, with the calls for an absent object, and for one
  -- that is there.
  unfoldable pub wanted_of : (V → List C) → (V → V → List C) → Option V → Option V → List C
  wanted_of add present none current = []
  wanted_of add present (some d) none = add d
  wanted_of add present (some d) (some c) = present d c

  unfoldable pub wanted :
      (String → V → List C) → (String → V → V → List C) → GoMap V → GoMap V → String → List C
  unfolding wanted_of
  wanted add present current desired k =
      wanted_of (add k) (present k) (lookup k desired) (lookup k current)

  unfoldable pub sync :
      RangeOrder
      → (String → V → List C)
      → (String → V → List C)
      → (String → V → V → List C)
      → GoMap V
      → GoMap V
      → List C
  unfolding each
  sync visit delete add present current desired =
      each (unwanted delete current desired) (visit 0 (keys current))
      ++ each (wanted add present current desired) (visit 1 (keys desired))
