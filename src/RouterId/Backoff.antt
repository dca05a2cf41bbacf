-- ===== src/RouterId/Backoff.antt =====
-- controllers/router_id_resolution.go: getNodeWithRetry. Times and durations are nanoseconds; the doubling
-- of a delay by a float64 factor of 2 is exact at these sizes. What the API server answers, how long it
-- takes, how late a timer fires and when the context is cancelled are given for each round.
use k8gobgp.Prelude.{ℕ, zero, suc, ◌+◌, ◌*◌, Bool, Option, none, some, if◌then◌else◌, ltb}
use k8gobgp.RouterId.NodeCache
use k8gobgp.RouterId.NodeCache.{Node, second}

abbrev pub max_startup_retry_time : ℕ
max_startup_retry_time = 300 * second

abbrev pub initial_retry_delay : ℕ
initial_retry_delay = second

abbrev pub max_retry_delay : ℕ
max_retry_delay = 30 * second

pub record Surroundings : Type 0 where
  pub answer : ℕ → Option Node
  pub get_time : ℕ → ℕ
  pub lateness : ℕ → ℕ
  pub cancelled : ℕ → Bool

pub data Fetch : Type 0 where
  fetched : Node → Fetch
  timed_out cancelled_fetch : Fetch

unfoldable pub next_delay : ℕ → ℕ
next_delay delay = if ltb max_retry_delay (delay * 2) then max_retry_delay else delay * 2

-- The select between the context and the timer: `none` goes on with the loop.
wait : Bool → Option Fetch
wait cancelled = if cancelled then some cancelled_fetch else none

-- A round up to its end, from what Get gives, whether the deadline is past, and whether the context ends
-- the wait.
unfoldable pub round_end : Option Node → Bool → Bool → Option Fetch
unfolding wait
round_end none late cancelled = if late then some timed_out else wait cancelled
round_end (some node) late cancelled =
    if NodeCache.is_empty node.addresses
    then (if late then some (fetched node) else wait cancelled)
    else some (fetched node)

module _ (env : Surroundings) (deadline : ℕ) where
  -- The loop, from a round and its time; `none` means that the fuel ran out. The result has the time at
  -- which the last Get was answered, and its round.
  unfoldable pub retry : ℕ → ℕ → ℕ → ℕ → Option (Fetch × ℕ × ℕ)
  unfolding round_end next_delay
  retry zero i now delay = none
  retry (suc fuel) i now delay =
      let answered = now + env.get_time i in
      elim (round_end (env.answer i) (ltb deadline answered) (env.cancelled i)) [
        | some result ↦ some (result, answered, i)
        | none ↦ retry fuel (i + 1) (answered + delay + env.lateness i) (next_delay delay)
      ]
