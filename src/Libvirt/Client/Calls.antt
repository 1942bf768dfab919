-- ===== src/Libvirt/Client/Calls.antt =====
-- The calls of internal/libvirt/libvirtconn.go on domains, leases and snapshots.
use kite_kvm.Libvirt.Client.Documents.{
  FmtLib, format_uuid, lease_xml, map_state, old_lease_xml, parse_vnc, snapshot_info, snapshot_xml,
}
use kite_kvm.Libvirt.Client.{
  Call, Client, DomainRef, Rpc, add_last, answer, delete_host, ensure, failure, lookup,
  no_domain_snapshot, operation_invalid, rpc, rpc_result,
}
use kite_kvm.Libvirt.{DomainState, SnapshotInfo}
use kite_kvm.Prelude.Effects.{Exec, attempt, lift, pure, raise, ◌>>=◌, ◌>>◌}
use kite_kvm.Prelude.{String, List, [], err, map, ok, other, str_eq, ℕ, ◌∷◌}

module _ {L Pool Vol Net Snap : Type 0} (lib : Rpc L Pool Vol Net Snap) (fmt : FmtLib)
    (uri : String) where
  -- l, dom, err := c.lookup(…), and one call with the domain
  abbrev pub with_domain : {A : Type 0} → (DomainRef → Call L A) → String → Exec (Client L) A
  with_domain m name = do dom ← lookup lib uri name; rpc (m dom)

  unfoldable pub define_domain : String → Exec (Client L) String
  define_domain xml = do
    ensure lib uri
    dom ← rpc (lib.domain_define_xml xml)
    pure (format_uuid fmt dom.uuid)

  unfoldable pub start_domain : String → Exec (Client L) (Unit {0})
  start_domain = with_domain lib.domain_create

  unfoldable pub shutdown_domain : String → Exec (Client L) (Unit {0})
  shutdown_domain = with_domain lib.domain_shutdown

  unfoldable pub reboot_domain : String → Exec (Client L) (Unit {0})
  reboot_domain = with_domain lib.domain_reboot

  unfoldable pub destroy_domain : String → Exec (Client L) (Unit {0})
  destroy_domain = with_domain lib.domain_destroy

  unfoldable pub suspend_domain : String → Exec (Client L) (Unit {0})
  suspend_domain = with_domain lib.domain_suspend

  unfoldable pub resume_domain : String → Exec (Client L) (Unit {0})
  resume_domain = with_domain lib.domain_resume

  unfoldable pub undefine_domain : String → Exec (Client L) (Unit {0})
  undefine_domain = with_domain lib.domain_undefine

  unfoldable pub domain_state : String → Exec (Client L) DomainState
  domain_state name = do st ← with_domain lib.domain_get_state name; pure (map_state lib.codes st)

  unfoldable pub list_domains : Exec (Client L) (List String)
  list_domains = do
    ensure lib uri
    doms ← rpc lib.list_all_domains
    pure (map {A = DomainRef} (λ d. d.name) doms)

  unfoldable pub domain_xml : String → Exec (Client L) String
  domain_xml = with_domain lib.domain_get_xml_desc

  unfoldable pub update_interface : String → String → Exec (Client L) (Unit {0})
  update_interface domain xml = with_domain (λ dom. lib.domain_update_device dom xml) domain

  unfoldable pub domain_vnc_address : String → Exec (Client L) (String × ℕ)
  domain_vnc_address name = do
    desc ← with_domain lib.domain_get_xml_desc name
    lift (parse_vnc fmt desc)

  -- lookupNetwork
  unfoldable pub lookup_network : String → Exec (Client L) Net
  lookup_network name = do ensure lib uri; rpc (lib.network_lookup_by_name name)

  unfoldable pub add_dhcp_host : String → String → String → String → Exec (Client L) (Unit {0})
  add_dhcp_host network mac name ip = do
    net ← lookup_network network
    rpc (lib.network_update net add_last (lease_xml mac name ip))

  -- a lease that is not there is no error
  unfoldable pub remove_dhcp_host : String → String → Exec (Client L) (Unit {0})
  remove_dhcp_host network mac = do
    net ← lookup_network network
    gone ← rpc_result (lib.network_update net delete_host (old_lease_xml mac))
    elim gone [ answer u ↦ pure tt | failure operation_invalid ↦ pure tt | failure e ↦ raise other ]

  unfoldable pub create_snapshot : String → String → String → Exec (Client L) (Unit {0})
  create_snapshot domain name description =
      with_domain (λ dom. lib.snapshot_create_xml dom (snapshot_xml fmt name description)) domain

  -- the time and the state of a snapshot, where its description can be read
  unfoldable pub snapshot_infos :
      String → List (String × Snap) → Exec (Client L) (List SnapshotInfo)
  snapshot_infos current [] = pure []
  snapshot_infos current ((name, snap) ∷ snaps) = do
    desc ← attempt (rpc (lib.snapshot_get_xml_desc snap))
    rest ← snapshot_infos current snaps
    pure (snapshot_info fmt name (str_eq name current) desc ∷ rest)

  unfoldable pub list_snapshots : String → Exec (Client L) (List SnapshotInfo)
  list_snapshots domain = do
    dom ← lookup lib uri domain
    snaps ← rpc (lib.list_all_snapshots dom)
    current ← attempt (rpc (lib.snapshot_current dom))
    snapshot_infos (elim current [ ok name ↦ name | err e ↦ "" ]) snaps

  -- a snapshot that is not there is no error
  unfoldable pub delete_snapshot : String → String → Exec (Client L) (Unit {0})
  delete_snapshot domain name = do
    dom ← lookup lib uri domain
    found ← rpc_result (lib.snapshot_lookup_by_name dom name)
    elim found [
      | answer snap ↦ rpc (lib.snapshot_delete snap)
      | failure no_domain_snapshot ↦ pure tt
      | failure e ↦ raise other
    ]

  unfoldable pub revert_snapshot : String → String → Exec (Client L) (Unit {0})
  revert_snapshot domain name = do
    dom ← lookup lib uri domain
    snap ← rpc (lib.snapshot_lookup_by_name dom name)
    rpc (lib.revert_to_snapshot snap)
