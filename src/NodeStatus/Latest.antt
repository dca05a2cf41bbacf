-- ===== src/NodeStatus/Latest.antt =====
-- controllers/bgpnodestatus_reporter.go: the node's BGPNodeStatus object after a write.
use mathlib.Core.Option.{some-injective}
use k8gobgp.Prelude.{
  ◌≢◌, sym, ap, ◌∙◌, ◌-◌, ◌<◌, ◌≡◌, ◌⊎◌, refl, Bool, true, false, ◌&&◌, Option, none, some, List,
  [], ◌∷◌, Bool-cases, Option-cases, inl, inr, ltb, ltb_iff, if◌then◌else◌, is_some, and_split,
}
use k8gobgp.NodeStatus.{NodeStatusData}
use k8gobgp.NodeStatus.Health.{Messages}
use k8gobgp.NodeStatus.Equal.{same_data, same_pointers, status_equal}
use k8gobgp.NodeStatus.Equal.Itself.{same_data-Refl}
use k8gobgp.NodeStatus.Write.{
  World, Reporter, Attempt, UpdateAnswer, update_accepted, update_refused, answer_lost, end_write,
  Event, initial_collection, tick, configure, stamp, skips, store, write_status, counted,
  collect_and_write, handle_event, handle_events,
}
use k8gobgp.NodeStatus.Collect.{Answers}

same_data-stamp :
    (a : Attempt) (r : Reporter) (s : NodeStatusData) → same_data (stamp a r s) s ≡ true
unfolding same_data stamp
same_data-stamp a r s = same_data-Refl s

-- A property of every attempt of the events.
abbrev pub AllAttempts : (Attempt → Type 0) → List Event → Type 0
AllAttempts P [] = Unit
AllAttempts P (initial_collection a answers ∷ es) = P a × AllAttempts P es
AllAttempts P (tick a answers ∷ es) = P a × AllAttempts P es
AllAttempts P (configure change ∷ es) = AllAttempts P es

-- The attempt is one of those of the events.
abbrev pub Made : Attempt → List Event → Type 0
Made a [] = ⊥
Made a (initial_collection b answers ∷ es) = (b ≡ a) ⊎ Made a es
Made a (tick b answers ∷ es) = (b ≡ a) ⊎ Made a es
Made a (configure change ∷ es) = Made a es

AllAttempts-Made :
    (P : Attempt → Type 0) (es : List Event) → ((a : Attempt) → Made a es → P a) → AllAttempts P es
AllAttempts-Made P [] h = tt
AllAttempts-Made P (initial_collection a answers ∷ es) h =
    (h a (inl refl), AllAttempts-Made P es (λ b made. h b (inr made)))
AllAttempts-Made P (tick a answers ∷ es) h =
    (h a (inl refl), AllAttempts-Made P es (λ b made. h b (inr made)))
AllAttempts-Made P (configure change ∷ es) h = AllAttempts-Made P es h

-- An attempt whose update, if it is applied, is answered.
abbrev pub IsAnswered : Attempt → Type 0
IsAnswered a = a.update ≢ answer_lost

-- What the reporter takes for written is what the object shows, and was written by an attempt with the
-- property, when the reporter says.
abbrev WrittenBy : (Attempt → Type 0) → World → NodeStatusData → Type 0
WrittenBy P w s =
    (w.object ≡ some s)
    × ((a : Attempt) × P a
        × (s.last_updated ≡ some a.stamped)
        × (w.reporter.last_write_time ≡ a.finished))

abbrev Synced : (Attempt → Type 0) → World → Type 0
Synced P w = (s : NodeStatusData) → w.reporter.last_written_status ≡ some s → WrittenBy P w s

module _ (P : Attempt → Type 0) where
  end_write-Synced :
      (u : UpdateAnswer) (a : Attempt) (s : NodeStatusData) (w : World)
      → u ≢ answer_lost
      → P a
      → s.last_updated ≡ some a.stamped
      → Synced P w
      → Synced P (end_write u a s w).0
  unfolding end_write
  end_write-Synced update_accepted a s w answered holds stamped synced = λ kept h.
      let same : s ≡ kept = some-injective s kept h in
      (h, (a, holds, ap (λ (x : NodeStatusData). x.last_updated) (sym same) ∙ stamped, refl))
  end_write-Synced update_refused a s w answered holds stamped synced = synced
  end_write-Synced answer_lost a s w answered holds stamped synced = absurd (answered refl)

  store-Synced :
      (a : Attempt) (s : NodeStatusData) (w : World)
      → IsAnswered a
      → P a
      → s.last_updated ≡ some a.stamped
      → Synced P w
      → Synced P (store a s w).0
  unfolding store
  store-Synced a s w answered holds stamped synced =
      elim (Bool-cases (a.get_works && is_some w.object)) [
        | inr lost ↦ rw (lost, store) synced
        | inl found ↦
            rw (found, store) (end_write-Synced a.update a s w answered holds stamped synced)
      ]

  write_status-Synced :
      (a : Attempt) (s : NodeStatusData) (w : World)
      → IsAnswered a
      → P a
      → Synced P w
      → Synced P (write_status a s w).0
  unfolding write_status stamp
  write_status-Synced a s w answered holds synced = elim (Bool-cases (skips a w.reporter s)) [
    | inl same ↦ rw (same, write_status) synced
    | inr other ↦
        rw (other, write_status)
          (store-Synced a (stamp a w.reporter s) w answered holds refl synced)
  ]

  counted-Synced : (r : World × Bool) → Synced P r.0 → Synced P (counted r)
  unfolding counted
  counted-Synced (w, true) synced = synced
  counted-Synced (w, false) synced = synced

  collect_and_write-Synced :
      (texts : Messages) (a : Attempt) (answers : Option Answers) (w : World)
      → IsAnswered a
      → P a
      → Synced P w
      → Synced P (collect_and_write texts a answers w)
  unfolding collect_and_write
  collect_and_write-Synced texts a none w answered holds synced = synced
  collect_and_write-Synced texts a (some answers) w answered holds synced =
      counted-Synced (write_status a _ w) (write_status-Synced a _ w answered holds synced)

  either-Synced : (b : Bool) (x y : World) → Synced P x → Synced P y → Synced P (if b then x else y)
  either-Synced true x y p q = p
  either-Synced false x y p q = q

  handle_events-Synced :
      (texts : Messages) (es : List Event) (w : World)
      → AllAttempts IsAnswered es
      → AllAttempts P es
      → Synced P w
      → Synced P (handle_events texts es w)
  unfolding handle_events handle_event
  handle_events-Synced texts [] w answered holds synced = synced
  handle_events-Synced texts (initial_collection a answers ∷ es) w answered holds synced =
      handle_events-Synced texts es (collect_and_write texts a answers w) answered.1 holds.1
        (collect_and_write-Synced texts a answers w answered.0 holds.0 synced)
  handle_events-Synced texts (tick a answers ∷ es) w answered holds synced =
      handle_events-Synced texts es _ answered.1 holds.1 (
        either-Synced w.reporter.config.enabled (collect_and_write texts a answers w) w
          (collect_and_write-Synced texts a answers w answered.0 holds.0 synced) synced)
  handle_events-Synced texts (configure change ∷ es) w answered holds synced =
      handle_events-Synced texts es _ answered holds synced

-- The object shows the status: one that statusEqual does not tell from it, and that was written now, or by an
-- earlier attempt with the property whose update ended less than a heartbeat ago.
pub record Shows (P : Attempt → Type 0) (a : Attempt) (before : World) (s : NodeStatusData)
    (after : World) : Type 0 where
  pub kept : NodeStatusData
  pub is_there : after.object ≡ some kept
  pub agrees : same_data kept s ≡ true
  pub is_fresh :
      (kept.last_updated ≡ some a.stamped)
      ⊎ ((earlier : Attempt) × P earlier
          × (kept.last_updated ≡ some earlier.stamped)
          × (a.now - earlier.finished < before.reporter.config.heartbeat_seconds))

module _ (P : Attempt → Type 0) where
  end_write-Shows :
      (u : UpdateAnswer) (a : Attempt) (s : NodeStatusData) (w : World)
      → (end_write u a (stamp a w.reporter s) w).1 ≡ true
      → Shows P a w s (end_write u a (stamp a w.reporter s) w).0
  unfolding end_write stamp
  end_write-Shows update_accepted a s w ok = record {
    kept = stamp a w.reporter s;
    is_there = refl;
    agrees = same_data-stamp a w.reporter s;
    is_fresh = inl refl;
  }
  end_write-Shows update_refused a s w ok = absurd (cc)
  end_write-Shows answer_lost a s w ok = absurd (cc)

  store-Shows :
      (a : Attempt) (s : NodeStatusData) (w : World)
      → (store a (stamp a w.reporter s) w).1 ≡ true
      → Shows P a w s (store a (stamp a w.reporter s) w).0
  unfolding store
  store-Shows a s w ok = elim (Bool-cases (a.get_works && is_some w.object)) [
    | inr lost ↦ let no = rw (lost, store) at ok in absurd (cc)
    | inl found ↦ rw (found, store) (end_write-Shows a.update a s w (rw (found, store) at ok))
  ]

  skipped-Shows :
      (a : Attempt) (s : NodeStatusData) (w : World)
      → Synced P w
      → skips a w.reporter s ≡ true
      → Shows P a w s w
  unfolding skips status_equal same_pointers
  skipped-Shows a s w synced skipped =
      let (same, young) =
        and_split (status_equal w.reporter.last_written_status (some s))
          (ltb (a.now - w.reporter.last_write_time) w.reporter.config.heartbeat_seconds) skipped in
      elim (Option-cases w.reporter.last_written_status) [
        | inl never ↦ let no = rw never at same in absurd (cc)
        | inr (kept, last) ↦
            let (there, (earlier, holds, stamped, written)) = synced kept last in
            record {
              kept = kept;
              is_there = there;
              agrees = rw last at same;
              is_fresh =
                  inr (earlier, holds, stamped, (let h = (ltb_iff _ _).0 young in rw written at h));
            }
      ]

-- From any state in which nothing was written yet, after the initial collection, any ticks, failures
-- included but no update that is applied and whose answer is lost, and any changes of the settings, a
-- writeStatus that returns without an error leaves the object with a status that statusEqual does not
-- tell from the one collected, written by this call, or by an earlier attempt whose update ended less
-- than a heartbeat before it.
pub write_status-Shows :
    (texts : Messages) (es : List Event) (start : World) (a : Attempt) (s : NodeStatusData)
    → start.reporter.last_written_status ≡ none
    → AllAttempts IsAnswered es
    → (write_status a s (handle_events texts es start)).1 ≡ true
    → Shows
        (λ earlier. Made earlier es)
        a
        (handle_events texts es start)
        s
        (write_status a s (handle_events texts es start)).0
unfolding write_status
write_status-Shows texts es start a s unwritten answered ok =
    let P : Attempt → Type 0 = λ earlier. Made earlier es in
    let w = handle_events texts es start in
    let synced =
      handle_events-Synced P texts es start answered (AllAttempts-Made P es (λ b made. made))
        (λ kept h. absurd (cc)) in
    elim (Bool-cases (skips a w.reporter s)) [
      | inl same ↦ rw (same, write_status) (skipped-Shows P a s w synced same)
      | inr other ↦ rw (other, write_status) (store-Shows P a s w (rw (other, write_status) at ok))
    ]
