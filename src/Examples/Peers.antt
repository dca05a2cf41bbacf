-- ===== src/Examples/Peers.antt =====
-- The comparison of peers at the deployed neighbor whose report was captured.
use k8gobgp.Prelude.{◌≡◌, refl, ◌↔◌, true, none, inl}
use k8gobgp.Convert.{
  crd_to_api_neighbor, crd_to_api_afi_safis, crd_to_api_family, crd_to_api_apply_policy,
  crd_to_api_timers, crd_to_api_transport, crd_to_api_graceful_restart, crd_to_api_route_reflector,
  crd_to_api_ebgp_multihop, crd_to_api_bfd, ptr_if_set, crd_to_api_remove_private_ptr,
  crd_to_api_send_community,
}
use k8gobgp.Compare.{peer_config_equal, bfd_with_defaults}
use k8gobgp.Compare.InSync.{PeerAgrees, peer_config_equal_iff}
use k8gobgp.Compare.ReadBack.{ConfReadBack, BlocksReadBack, ReadBack, no_update_on_ReadBack}
use k8gobgp.Examples.Samples.{neighbor, sent_conf, reported_conf, reported}

peer_config_equal_iff_example :
    (peer_config_equal (crd_to_api_neighbor neighbor none) reported ≡ true)
    ↔ PeerAgrees (crd_to_api_neighbor neighbor none) sent_conf reported reported_conf
unfolding crd_to_api_neighbor ptr_if_set crd_to_api_remove_private_ptr crd_to_api_send_community
peer_config_equal_iff_example =
    peer_config_equal_iff (crd_to_api_neighbor neighbor none) reported refl refl

sample_conf : ConfReadBack 64515 sent_conf reported_conf
sample_conf = record {
  address = λ h. refl;
  local_asn = λ x h. absurd (cc);
  peer_asn = λ h. refl;
  description = λ x h. h;
  peer_group = refl;
  admin_down = refl;
  neighbor_interface = refl;
  vrf = refl;
  allow_own_asn = λ x h. absurd (cc);
  replace_peer_asn = λ x h. absurd (cc);
  allow_aspath_loop_local = λ x h. absurd (cc);
  send_software_version = λ x h. absurd (cc);
  remove_private = λ h. refl;
  send_community = λ h. refl;
}

sample_blocks : BlocksReadBack sent_conf (crd_to_api_neighbor neighbor none) reported
unfolding crd_to_api_neighbor bfd_with_defaults crd_to_api_afi_safis crd_to_api_family
    crd_to_api_apply_policy crd_to_api_timers crd_to_api_transport crd_to_api_graceful_restart
    crd_to_api_route_reflector crd_to_api_ebgp_multihop crd_to_api_bfd
sample_blocks = record {
  afi_safis = λ h. refl;
  import_policy = λ own. (refl, refl);
  export_policy = λ own. (refl, refl);
  timers = λ own. refl;
  transport = λ own. ("2001:470:b8f3:251:be24:11ff:fe9b:a72b", inl refl, refl);
  graceful_restart = λ own. (0, 0, inl refl, refl);
  route_reflector = λ own. ("invalid IP", inl refl, refl);
  ebgp_multihop = λ own. refl;
  bfd = λ own. refl;
}

pub sample-ReadBack : ReadBack 64515 (crd_to_api_neighbor neighbor none) reported
unfolding crd_to_api_neighbor ptr_if_set crd_to_api_remove_private_ptr crd_to_api_send_community
sample-ReadBack = record {
  sent_conf = sent_conf;
  reported_conf = reported_conf;
  was_sent = refl;
  is_reported = refl;
  conf = sample_conf;
  blocks = sample_blocks;
}

no_update_on_ReadBack_example :
    peer_config_equal (crd_to_api_neighbor neighbor none) reported ≡ true
no_update_on_ReadBack_example = no_update_on_ReadBack neighbor none 64515 reported sample-ReadBack
