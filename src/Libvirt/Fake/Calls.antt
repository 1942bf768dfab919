-- ===== src/Libvirt/Fake/Calls.antt =====
-- The other calls of internal/libvirt/fake.go, and the Conn that they make up.
use kite_kvm.Store.Table.{find}
use kite_kvm.Libvirt.Fake.{
  Fake, FakeDomain, define_domain, domain_key, read_domain, require_domain, set_at, set_state,
  sort_named, undefine_domain, update_interface,
}
use kite_kvm.Libvirt.{
  Conn, DomainState, DomainStats, HostInfo, SeedFile, SnapshotInfo, StorageVolSpec, state_paused,
  state_running, state_shutoff, state_unknown, zero_stats,
}
use kite_kvm.Prelude.Effects.{Exec}
use Prim.Native.String.{◌++◌ as str_append}
use kite_kvm.Prelude.{
  String, Bool, List, [], domain_not_found, err, false, if◌then◌else◌, keep, map, none, not, ok,
  other, some, str_eq, true, ℕ, ◌*◌, ◌++◌, ◌^◌, ◌||◌, ◌∷◌,
}

-- HostInfo
unfoldable pub fake_host : HostInfo
fake_host = record {
  hostname = "fake-host";
  cpus = 8;
  memory_total_bytes = 16 * 2 ^ 30;
  memory_free_bytes = 8 * 2 ^ 30;
  storage_bytes = 500 * 2 ^ 30;
  storage_free_bytes = 400 * 2 ^ 30;
  libvirt_version = "0.0.0";
}

-- ListDomains
unfoldable pub list_domains : Exec Fake (List String)
list_domains f = (ok (sort_named (λ name. name) (map (λ d. d.name) f.domains)), f)

-- pool + "/" + name
abbrev pub volume_key : String → String → String
volume_key pool name = str_append pool (str_append "/" name)

-- CreateVolume, with filepath.Join
unfoldable pub create_volume : (String → String → String) → StorageVolSpec → Exec Fake String
create_volume join_path spec f =
    let path = join_path f.base_dir spec.name in
    (ok path, record f { volumes = set_at (volume_key spec.pool spec.name) (some path) f.volumes })

-- DeleteVolume
unfoldable pub delete_volume : String → String → Exec Fake (Unit {0})
delete_volume pool name f =
    (ok tt, record f { volumes = set_at (volume_key pool name) none f.volumes })

-- ResizeVolume
unfoldable pub resize_volume : String → String → ℕ → Exec Fake (Unit {0})
resize_volume pool name bytes f = elim (f.volumes (volume_key pool name)) [
  | none ↦ (err other, f)
  | some path ↦ (ok tt, f)
]

-- what AllDomainStats reports of one domain
abbrev pub stats_entry : Fake → FakeDomain → DomainStats
stats_entry f d = elim (f.stats d.name) [
  | some st ↦ record st { name = d.name; state = d.state }
  | none ↦ record zero_stats { name = d.name; state = d.state }
]

-- AllDomainStats
unfoldable pub all_domain_stats : Exec Fake (List DomainStats)
all_domain_stats f = (ok (sort_named (λ st. st.name) (map (stats_entry f) f.domains)), f)

-- AddDHCPHost
unfoldable pub add_dhcp_host : String → String → String → String → Exec Fake (Unit {0})
add_dhcp_host network mac name ip f =
    let hosts = set_at mac (some (record { name = name; ip = ip })) (f.dhcp network) in
    (ok tt, record f { dhcp = set_at network hosts f.dhcp })

-- RemoveDHCPHost
unfoldable pub remove_dhcp_host : String → String → Exec Fake (Unit {0})
remove_dhcp_host network mac f =
    (ok tt, record f { dhcp = set_at network (set_at mac none (f.dhcp network)) f.dhcp })

-- DomainState.String
abbrev pub state_text : DomainState → String
state_text state_running = "running"
state_text state_shutoff = "shutoff"
state_text state_paused = "paused"
state_text state_unknown = "unknown"

-- CreateSnapshot: the new snapshot is the current one, and no other is
unfoldable pub create_snapshot : String → String → String → Exec Fake (Unit {0})
create_snapshot domain name description f = elim (find domain_key domain f.domains) [
  | none ↦ (err domain_not_found, f)
  | some d ↦
      let snap : SnapshotInfo = record {
        name = name;
        state = state_text d.state;
        creation_time = f.clock;
        current = true;
      } in
      let older = map {A = SnapshotInfo} (λ s. record s { current = false }) (f.snapshots domain) in
      (ok tt, record f { snapshots = set_at domain (older ++ snap ∷ []) f.snapshots })
]

-- ListSnapshots
unfoldable pub list_snapshots : String → Exec Fake (List SnapshotInfo)
list_snapshots domain = read_domain (λ d f. f.snapshots domain) domain

-- DeleteSnapshot
unfoldable pub delete_snapshot : String → String → Exec Fake (Unit {0})
delete_snapshot domain name f =
    let kept = keep (λ s. not (str_eq s.name name)) (f.snapshots domain) in
    (ok tt, record f { snapshots = set_at domain kept f.snapshots })

unfoldable pub has_snapshot : String → List SnapshotInfo → Bool
has_snapshot name [] = false
has_snapshot name (s ∷ snaps) = str_eq s.name name || has_snapshot name snaps

-- RevertSnapshot
unfoldable pub revert_snapshot : String → String → Exec Fake (Unit {0})
revert_snapshot domain name f =
    if has_snapshot name (f.snapshots domain) then (ok tt, f) else (err other, f)

-- what NewFake gives as a Conn; the seed image and os.Remove act on files beside it
unfoldable pub fake_conn :
    (String → String → String)
    → (String → List SeedFile → Exec Fake (Unit {0}))
    → (String → Exec Fake (Unit {0}))
    → Conn Fake
fake_conn join_path build_seed remove = record {
  ping = λ f. (elim (f.ping_err) [ none ↦ ok tt | some e ↦ err e ], f);
  host_info = λ pool f. (ok fake_host, f);
  define_domain = define_domain;
  start_domain = set_state state_running;
  shutdown_domain = set_state state_shutoff;
  reboot_domain = λ name. require_domain name (λ d. d);
  destroy_domain = set_state state_shutoff;
  suspend_domain = set_state state_paused;
  resume_domain = set_state state_running;
  undefine_domain = undefine_domain;
  update_interface = update_interface;
  domain_state = read_domain (λ d f. d.state);
  list_domains = list_domains;
  domain_xml = read_domain (λ d f. d.xml);
  domain_vnc_address = read_domain (λ d f. ("127.0.0.1", 5901));
  create_volume = create_volume join_path;
  delete_volume = delete_volume;
  resize_volume = resize_volume;
  all_domain_stats = all_domain_stats;
  add_dhcp_host = add_dhcp_host;
  remove_dhcp_host = remove_dhcp_host;
  create_snapshot = create_snapshot;
  list_snapshots = list_snapshots;
  delete_snapshot = delete_snapshot;
  revert_snapshot = revert_snapshot;
  build_seed_iso = build_seed;
  remove_file = remove;
}
