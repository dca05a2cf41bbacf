-- ===== src/Sync/GroupsConverge.antt =====
-- controllers/bgpconfiguration_controller.go: what reconcilePeerGroups makes of gobgpd's peer groups.
use mathlib.Core.Path.{subst}
use k8gobgp.Prelude.{
  String, ◌≡◌, refl, sym, ap, ◌∙◌, Bool, true, false, Option, none, some, List, [], ◌∷◌, string_eq,
  if◌then◌else◌, value_or, Bool-cases, inl, inr, ◌⊎◌,
}
use k8gobgp.Prelude.GoMap.{GoMap, lookup}
use k8gobgp.Crd
use k8gobgp.Api.{PeerGroup}
use k8gobgp.Convert.{crd_to_api_peer_group}
use k8gobgp.Compare.{peer_group_config_equal}
use k8gobgp.Sync.{RangeOrder, VisitsAll, wanted, unwanted, wanted_of, unwanted_of}
use k8gobgp.Sync.Table.{Table, run, settle, OnKey}
use k8gobgp.Sync.Settled.{view-sync, unwanted-OnKey, wanted-OnKey}
use k8gobgp.Sync.Keyed.{
  Keyed, nil-Keyed, insert-Keyed, rounds-invariant, and_then_done, done-injective,
}
use k8gobgp.Sync.Groups.{
  Cluster, done, by_key, group_name, GroupCall, add_peer_group, update_peer_group,
  delete_peer_group, choose_group, add_desired_group, desired_peer_groups, group_calls,
  reconcile_peer_groups, for_this_node, resolve_auth_password,
}

-- The entry of gobgpd's table that a call is for, and what it leaves there.
unfoldable pub group_call_key : GroupCall → String
group_call_key (add_peer_group g) = group_name g
group_call_key (update_peer_group g) = group_name g
group_call_key (delete_peer_group name) = name

unfoldable pub group_call_value : GroupCall → Option PeerGroup
group_call_value (add_peer_group g) = some g
group_call_value (update_peer_group g) = some g
group_call_value (delete_peer_group name) = none

-- A desired group is there, as it was sent or with nothing to update, and any other is gone.
abbrev pub GroupSettled : Option PeerGroup → Option PeerGroup → Type 0
GroupSettled none after = after ≡ none
GroupSettled (some d) after =
    (g : PeerGroup) × (after ≡ some g) × ((g ≡ d) ⊎ (peer_group_config_equal d g ≡ true))

delete_group : String → PeerGroup → List GroupCall
delete_group name c = delete_peer_group name ∷ []

update_group : String → PeerGroup → PeerGroup → List GroupCall
update_group name d c = if peer_group_config_equal d c then [] else update_peer_group d ∷ []

add_group : String → PeerGroup → List GroupCall
add_group name d = add_peer_group d ∷ []

GroupSettled-of :
    (k : String) (d c : Option PeerGroup)
    → GroupSettled d (
        settle group_call_value
          (wanted_of (add_group k) (update_group k) d c)
          (settle group_call_value (unwanted_of (delete_group k) d c) c))
unfolding settle group_call_value unwanted_of wanted_of delete_group update_group add_group
GroupSettled-of k none none = refl
GroupSettled-of k none (some c) = refl
GroupSettled-of k (some d) none = (d, refl, inl refl)
GroupSettled-of k (some d) (some c) = elim (Bool-cases (peer_group_config_equal d c)) [
  | inl same ↦ rw same (c, refl, inr same)
  | inr differs ↦ rw differs (d, refl, inl refl)
]

update_group-OnKey :
    (k : String) (d c : PeerGroup) → group_name d ≡ k → OnKey group_call_key k (update_group k d c)
unfolding update_group group_call_key
update_group-OnKey k d c keyed = elim (Bool-cases (peer_group_config_equal d c)) [
  | inl same ↦ rw same tt
  | inr differs ↦ rw differs (keyed, tt)
]

choose_group-Keyed :
    (pg : Crd.PeerGroup) (here : Option Bool) (password : Option (Option String))
    (m m' : GoMap PeerGroup)
    → Keyed group_name m
    → choose_group pg here password m ≡ done m'
    → Keyed group_name m'
unfolding choose_group
choose_group-Keyed pg none password m m' keyed h = absurd (cc)
choose_group-Keyed pg (some false) password m m' keyed h =
    subst (Keyed group_name) (done-injective h) keyed
choose_group-Keyed pg (some true) none m m' keyed h = absurd (cc)
choose_group-Keyed pg (some true) (some p) m m' keyed h =
    subst (Keyed group_name) (done-injective h) (
      insert-Keyed group_name pg.config.peer_group_name (crd_to_api_peer_group pg (value_or "" p)) m
        keyed (unfold group_name crd_to_api_peer_group in refl))

group_calls_settle :
    {S : Type 0} (table : Table group_call_key group_call_value S) (s : S) (visit : RangeOrder)
    (current desired : GoMap PeerGroup)
    → VisitsAll visit
    → Keyed group_name desired
    → ((k : String) → table.view s k ≡ lookup k current)
    → (k : String)
    → GroupSettled
        (lookup k desired)
        (table.view (run table s (group_calls visit current desired)) k)
unfolding group_calls group_call_key wanted unwanted delete_group update_group add_group
group_calls_settle table s visit current desired visits keyed listing k =
    let moved =
      view-sync table visit visits delete_group add_group update_group current desired
        (unwanted-OnKey table delete_group current desired (λ j c held. (refl, tt)))
        (wanted-OnKey table add_group update_group current desired
          (λ j d there. (keyed j d there, tt))
          (λ j d c there. update_group-OnKey j d c (keyed j d there)))
        s k in
    subst (GroupSettled (lookup k desired))
      (sym (
        moved
        ∙ ap
            (λ x.
              settle group_call_value (wanted add_group update_group current desired k)
                (settle group_call_value (unwanted delete_group current desired k) x))
            (listing k)))
      (GroupSettled-of k (lookup k desired) (lookup k current))

-- Where gobgpd's peer groups are those of the listing, the calls of a reconcilePeerGroups that ends
-- without an error, all of them succeeding and in any order of the walks, leave every desired group in
-- gobgpd, as it was sent or with nothing to update in it, and no other group.
pub reconcile_peer_groups_settles :
    {S : Type 0} (table : Table group_call_key group_call_value S) (s : S) (cluster : Cluster)
    (visit : RangeOrder) (received : List PeerGroup) (config : Crd.BgpConfiguration)
    (calls : List GroupCall) (desired : GoMap PeerGroup)
    → VisitsAll visit
    → ((k : String) → table.view s k ≡ lookup k (by_key group_name [] received))
    → reconcile_peer_groups cluster visit (some received) config ≡ done (calls, desired)
    → (k : String) → GroupSettled (lookup k desired) (table.view (run table s calls) k)
unfolding reconcile_peer_groups desired_peer_groups add_desired_group
reconcile_peer_groups_settles table s cluster visit received config calls desired visits listing h
      k =
    let current = by_key group_name [] received in
    let (built, built_by, result) =
      and_then_done (desired_peer_groups cluster config)
        (λ d. done (group_calls visit current d, d)) h in
    let keyed =
      rounds-invariant (add_desired_group cluster config.namespace) (Keyed group_name)
        config.spec.peer_groups
        (λ pg m m' listed held round.
          choose_group-Keyed pg (for_this_node cluster pg.node_selector)
            (resolve_auth_password cluster config.namespace (some pg.config.auth_password)
              pg.config.auth_password_secret_ref)
            m m' held round)
        [] built (nil-Keyed group_name) built_by in
    subst
      (λ (r : List GroupCall × GoMap PeerGroup).
        GroupSettled (lookup k r.1) (table.view (run table s r.0) k))
      (done-injective result)
      (group_calls_settle table s visit current built visits keyed listing k)
