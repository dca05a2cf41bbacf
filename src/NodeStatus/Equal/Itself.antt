-- ===== src/NodeStatus/Equal/Itself.antt =====
-- controllers/bgpnodestatus_reporter.go: statusEqual of a status and itself.
use k8gobgp.Prelude.{
  pass_test, ℕ, ◌≡◌, refl, Bool, true, false, not, ◌&&◌, none, some, List, [], ◌∷◌, ◌==◌, ◌!=◌, Eq,
  string_eq, nat_eq, bool_eq, list_eq, option_eq, Bool-cases, inl, inr, length, if◌then◌else◌,
  ==_refl, !=_of_eq, and_join,
}
use k8gobgp.Global.{sort}
use k8gobgp.NodeStatus.Equal
use k8gobgp.NodeStatus.Equal.{
  same_at_each, same_slices, same_pointers, same_bfd, same_neighbor, neighbors_equal,
  import_status_equal, string_slices_equal, rib_routes_equal, rib_status_equal, export_status_equal,
  vrfs_equal, same_data, status_equal, sort_slice,
}

-- A comparison that says yes of a value and itself.
abbrev Refl : {A : Type 0} → (A → A → Bool) → Type 0
Refl same = (a : _) → same a a ≡ true

same_at_each-Refl : {A : Type 0} (same : A → A → Bool) → Refl same → Refl (same_at_each same)
unfolding same_at_each
same_at_each-Refl same own [] = refl
same_at_each-Refl same own (a ∷ as') = rw (own a) (same_at_each-Refl same own as')

same_slices-Refl : {A : Type 0} (same : A → A → Bool) → Refl same → Refl (same_slices same)
unfolding same_slices
same_slices-Refl same own as' =
    rw (!=_of_eq {A = ℕ} (refl {a = length as'})) (same_at_each-Refl same own as')

same_pointers-Refl : {A : Type 0} (same : A → A → Bool) → Refl same → Refl (same_pointers same)
unfolding same_pointers
same_pointers-Refl same own none = refl
same_pointers-Refl same own (some a) = own a

-- The shape of neighborsEqual, ribRoutesEqual and stringSlicesEqual.
sorted_refl :
    {A : Type 0} (as' : List A) (rest : Bool)
    → rest ≡ true
    → (if length as' == 0 && length as' == 0
        then true
        else if length as' != length as'
        then false
        else rest)
      ≡ true
sorted_refl as' rest own = elim (Bool-cases (length as' == 0)) [
  | inl empty ↦ rw empty refl
  | inr full ↦ rw (full, !=_of_eq {A = ℕ} (refl {a = length as'})) own
]

itself {ℓ} : {A : Type ℓ} ⦃e : Eq A⦄ (a : A) → (a != a) ≡ false
itself a = !=_of_eq (refl {a = a})

held : {b : Bool} → b ≡ true → not b ≡ false
held p = rw p refl

same_bfd-Refl : Refl same_bfd
unfolding same_bfd
same_bfd-Refl b =
    and_join
      (and_join
        (and_join (and_join (==_refl b.session_state) (==_refl b.remote_session_state))
          (==_refl b.local_diagnostic_code))
        (==_refl b.remote_diagnostic_code))
      (==_refl b.failure_transitions)

same_neighbor-Refl : Refl same_neighbor
unfolding same_neighbor
same_neighbor-Refl n = pass_test (itself n.address) (
    pass_test (itself n.peer_asn) (
      pass_test (itself n.local_asn) (
        pass_test (itself n.state) (
          pass_test (itself n.prefixes_sent) (
            pass_test (itself n.prefixes_received) (
              pass_test (itself n.description) (
                pass_test (itself n.last_error) (
                  pass_test (itself n.session_up_since) (
                    pass_test (held (same_pointers-Refl same_bfd same_bfd-Refl n.bfd)) refl)))))))))

neighbors_equal-Refl : Refl neighbors_equal
unfolding neighbors_equal
neighbors_equal-Refl ns =
    sorted_refl ns _
      (same_at_each-Refl same_neighbor same_neighbor-Refl (sort_slice (λ n. n.address) ns))

same_import-Refl : Refl Equal.same_import
unfolding Equal.same_import Equal.same_interface Equal.same_address
same_import-Refl i = pass_test (itself i.enabled) (
    pass_test (itself i.vrf) (
      pass_test (itself i.total_imported) (
        pass_test (itself i.truncated) (
          pass_test
            (held (
              same_slices-Refl Equal.same_interface
                (λ a.
                  and_join (and_join (==_refl a.name) (==_refl a.exists)) (==_refl a.oper_state))
                i.interfaces))
            (pass_test
              (held (
                same_slices-Refl Equal.same_address
                  (λ a.
                    and_join (and_join (==_refl a.address) (==_refl a.interface))
                      (==_refl a.in_rib))
                  i.imported_addresses))
              refl)))))

string_slices_equal-Refl : Refl string_slices_equal
unfolding string_slices_equal
string_slices_equal-Refl ss = sorted_refl ss _ (==_refl (sort ss))

same_route-Refl : Refl Equal.same_route
unfolding Equal.same_route
same_route-Refl r = pass_test (itself r.prefix) (
    pass_test (itself r.next_hop) (
      pass_test (itself r.from_peer) (
        pass_test (itself r.advertised_to_count) (
          pass_test (held (string_slices_equal-Refl r.advertised_to))
            (pass_test (held (string_slices_equal-Refl r.communities)) refl)))))

rib_routes_equal-Refl : Refl rib_routes_equal
unfolding rib_routes_equal
rib_routes_equal-Refl rs =
    sorted_refl rs _
      (same_at_each-Refl Equal.same_route same_route-Refl (sort_slice (λ r. r.prefix) rs))

same_rib-Refl : Refl Equal.same_rib
unfolding Equal.same_rib
same_rib-Refl r = pass_test (itself r.local_route_count) (
    pass_test (itself r.received_route_count) (
      pass_test (itself r.truncated) (
        pass_test (held (rib_routes_equal-Refl r.local_routes))
          (pass_test (held (rib_routes_equal-Refl r.received_routes)) refl))))

same_export-Refl : Refl Equal.same_export
unfolding Equal.same_export Equal.same_rule Equal.same_exported
same_export-Refl x = pass_test (itself x.enabled) (
    pass_test (itself x.protocol) (
      pass_test (itself x.total_exported) (
        pass_test (itself x.truncated) (
          pass_test
            (held (
              same_slices-Refl Equal.same_rule
                (λ a. and_join (and_join (==_refl a.name) (==_refl a.metric)) (==_refl a.table_id))
                x.rules))
            (pass_test
              (held (
                same_slices-Refl Equal.same_exported
                  (λ a.
                    and_join
                      (and_join
                        (and_join (and_join (==_refl a.prefix) (==_refl a.table))
                          (==_refl a.metric))
                        (==_refl a.installed))
                      (==_refl a.reason))
                  x.exported_routes))
              refl)))))

vrfs_equal-Refl : Refl vrfs_equal
unfolding vrfs_equal Equal.same_vrf
vrfs_equal-Refl vs = elim (Bool-cases (length vs == 0)) [
  | inl empty ↦ rw empty refl
  | inr full ↦ rw full (
      same_slices-Refl Equal.same_vrf
        (λ a.
          and_join
            (and_join (and_join (==_refl a.name) (==_refl a.rd)) (==_refl a.imported_route_count))
            (==_refl a.exported_route_count))
        vs)
]

pub same_data-Refl : Refl same_data
unfolding same_data import_status_equal rib_status_equal export_status_equal
same_data-Refl s = pass_test (itself s.node_name) (
    pass_test (itself s.router_id) (
      pass_test (itself s.router_id_source) (
        pass_test (itself s.asn) (
          pass_test (itself s.neighbor_count) (
            pass_test (itself s.healthy) (
              pass_test (held (neighbors_equal-Refl s.neighbors)) (
                pass_test
                  (held (same_pointers-Refl Equal.same_import same_import-Refl s.netlink_import))
                  (pass_test (held (same_pointers-Refl Equal.same_rib same_rib-Refl s.rib)) (
                    pass_test
                      (held
                        (same_pointers-Refl Equal.same_export same_export-Refl s.netlink_export))
                      (pass_test (held (vrfs_equal-Refl s.vrfs)) refl))))))))))
