-- ===== src/RouterId/Retry.antt =====
-- controllers/router_id_resolution.go: how the loop of getNodeWithRetry ends.
use k8gobgp.Prelude.{
  ℕ, zero, suc, ◌+◌, ◌*◌, ◌≤◌, ◌<◌, ◌≡◌, refl, Bool, true, false, Option, none, some, arith, ltb,
  nat_beq, Bool-cases, inl, inr, Option-cases, string_eq,
}
use mathlib.Core.Path.{subst}
use k8gobgp.RouterId.NodeCache
use k8gobgp.RouterId.NodeCache.{Node, second, NodeCache}
use k8gobgp.RouterId.Backoff.{
  Surroundings, Fetch, fetched, timed_out, cancelled_fetch, next_delay, round_end, retry,
}

-- The delay before each wait.
pub record IsDelay (delay : ℕ) : Type 0 where
  pub least : second ≤ delay
  pub most : delay ≤ 30 * second

next_delay-IsDelay : (delay : ℕ) → IsDelay delay → IsDelay (next_delay delay)
unfolding next_delay
next_delay-IsDelay delay d = ground arith

-- Get failed, or the node has no address yet.
abbrev pub Unready : Option Node → Type 0
Unready none = Unit
Unready (some node) = NodeCache.is_empty node.addresses ≡ true

-- How the loop may end: with a node that has an address, or none though the deadline is past; by the
-- timeout, with a failed Get past the deadline; by the context, during a wait begun before it.
abbrev pub EndsAs : Surroundings → ℕ → Fetch → ℕ → ℕ → Type 0
EndsAs env deadline (fetched node) at last =
    (env.answer last ≡ some node) × (Unready (some node) → deadline < at)
EndsAs env deadline timed_out at last = (env.answer last ≡ none) × (deadline < at)
EndsAs env deadline cancelled_fetch at last =
    (env.cancelled last ≡ true) × (at ≤ deadline) × Unready (env.answer last)

-- The rounds from `first` on up to the last: it ends as above, and no earlier one had a node with an
-- address.
pub record Ends (env : Surroundings) (deadline first : ℕ) (r : Fetch) (at last : ℕ) : Type 0 where
  pub in_order : first ≤ last
  pub ends_as : EndsAs env deadline r at last
  pub earlier : (j : ℕ) → first ≤ j → j < last → Unready (env.answer j)

-- A round that goes on is not past the deadline, and has no node with an address.
goes_on :
    (o : Option Node) (late cancelled : Bool)
    → round_end o late cancelled ≡ none
    → (late ≡ false) × Unready o
unfolding round_end
goes_on none late c h = ground arith
goes_on (some node) late c h = ground arith

abbrev RoundAs : Option Node → Bool → Bool → Fetch → Type 0
RoundAs o late c (fetched node) = (o ≡ some node) × (Unready (some node) → late ≡ true)
RoundAs o late c timed_out = (o ≡ none) × (late ≡ true)
RoundAs o late c cancelled_fetch = (c ≡ true) × (late ≡ false) × Unready o

round_end-RoundAs :
    (o : Option Node) (late c : Bool) (r : Fetch) → round_end o late c ≡ some r → RoundAs o late c r
unfolding round_end
round_end-RoundAs none late c (fetched node) h = ground arith
round_end-RoundAs none late c timed_out h = ground arith
round_end-RoundAs none late c cancelled_fetch h = ground arith
round_end-RoundAs (some node) late c (fetched other) h = ground arith
round_end-RoundAs (some node) late c timed_out h = ground arith
round_end-RoundAs (some node) late c cancelled_fetch h = ground arith

round_end-EndsAs :
    (env : Surroundings) (deadline at i : ℕ) (r : Fetch)
    → RoundAs (env.answer i) (ltb deadline at) (env.cancelled i) r
    → EndsAs env deadline r at i
round_end-EndsAs env deadline at i (fetched node) h = (h.0, λ u. let l = h.1 u in ground arith)
round_end-EndsAs env deadline at i timed_out h = (h.0, ground arith)
round_end-EndsAs env deadline at i cancelled_fetch h = (h.0, ground arith, h.2)

-- The rounds before the next one are this one and none before it.
one_more :
    {env : Surroundings} {deadline i : ℕ} {r : Fetch} {at last : ℕ}
    → Unready (env.answer i)
    → Ends env deadline (i + 1) r at last
    → Ends env deadline i r at last
one_more {env} {deadline} {i} {r} {at} {last} u e = record {
  in_order = omega (arith, e.in_order);
  ends_as = e.ends_as;
  earlier = λ j p q. elim (Bool-cases (nat_beq i j)) [
    | inl same ↦ let k : i ≡ j = ground arith in subst (λ x. Unready (env.answer x)) k u
    | inr other ↦ e.earlier j (ground arith) q
  ];
}

module _ (env : Surroundings) (deadline : ℕ) where
  abbrev pub Result : ℕ → ℕ → ℕ → ℕ → Type 0
  Result fuel i now delay =
      (r : Fetch) × (at : ℕ) × (last : ℕ) × (retry env deadline (suc fuel) i now delay
        ≡ some (r, at, last))
      × (last ≤ i + fuel)
      × Ends env deadline i r at last

  stops_here :
      (fuel i now delay : ℕ) (r : Fetch)
      → round_end (env.answer i) (ltb deadline (now + env.get_time i)) (env.cancelled i) ≡ some r
      → Result fuel i now delay
  unfolding retry
  stops_here fuel i now delay r h = (
    r,
    now + env.get_time i,
    i,
    rw (h, retry) refl,
    omega arith,
    record {
      in_order = omega arith;
      ends_as =
          round_end-EndsAs env deadline (now + env.get_time i) i r (round_end-RoundAs _ _ _ r h);
      earlier = λ j p q. absurd (omega arith);
    },
  )

  goes_further :
      (f i now delay : ℕ)
      → round_end (env.answer i) (ltb deadline (now + env.get_time i)) (env.cancelled i) ≡ none
      → Result f (i + 1) (now + env.get_time i + delay + env.lateness i) (next_delay delay)
      → Result (suc f) i now delay
  unfolding retry
  goes_further f i now delay h (r, at, last, run, bound, ends) =
      (r, at, last, rw (h, retry) run, omega arith, one_more (goes_on _ _ _ h).1 ends)

  -- Enough fuel: the time left until the deadline, in seconds, and one round more.
  pub retry_ends :
      (fuel i now delay : ℕ)
      → IsDelay delay
      → deadline < now + fuel * second
      → Result fuel i now delay
  retry_ends zero i now delay d enough =
      elim (Option-cases
        (round_end (env.answer i) (ltb deadline (now + env.get_time i)) (env.cancelled i))) [
          | inr (r, h) ↦ stops_here zero i now delay r h
          | inl h ↦ let early = (goes_on _ _ _ h).0 in absurd (ground arith)
        ]
  retry_ends (suc f) i now delay d enough =
      let answered = now + env.get_time i in
      elim (Option-cases (round_end (env.answer i) (ltb deadline answered) (env.cancelled i))) [
        | inr (r, h) ↦ stops_here (suc f) i now delay r h
        | inl h ↦
            let early = (goes_on _ _ _ h).0 in
            goes_further f i now delay h (
              retry_ends f (i + 1) (answered + delay + env.lateness i) (next_delay delay)
                (next_delay-IsDelay delay d) (ground (arith, d.least)))
      ]
