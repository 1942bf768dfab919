-- ===== src/Vm/Provisioning.antt =====
-- The runners that build a VM's disk, seed and domain: runCreate of service.go, runReseed of
-- suspend.go, runRebuild and runResize of internal/vm, and provision.Prepare.
pub mod Prefix
pub mod VmsTable
pub mod GivesUp
pub mod Failure
use kite_kvm.Provision.CloudInit.{CloudInit, NetworkConfig, files}
use kite_kvm.Vm.Links.{build_domain_spec, flavor_bandwidth, or_teardown, volume_name}
use kite_kvm.Vm.{Env, Fresh, gib_bytes, or_fail}
use kite_kvm.Node.{Node, on_db, on_host}
use kite_kvm.Network.Strategy.{Attachment, mask_prefix, network_allocate}
use kite_kvm.Config.{Image, catalog_image, network_by_id}
use kite_kvm.DomainXml.{Spec, render}
use kite_kvm.Libvirt.{DomainState, map_power_state, StorageVolSpec}
use kite_kvm.Store.Vms.{get_vm, update_vm}
use kite_kvm.Model.{PowerState, Vm, VmStatus, is_bridge, is_power_running}
use kite_kvm.Prelude.Effects.{Exec, attempt, lift, pure, raise, ◌>>=◌, ◌>>◌}
use Prim.Native.String.{◌++◌ as str_append}
use kite_kvm.Prelude.{
  String, Bool, List, Result, [], err, false, if◌then◌else◌, none, ok, other, some, str_eq, true, ℕ,
  ◌-◌, ◌/◌,
}

pub record PrepareRequest : Type 0 where
  pub id : String
  pub hostname : String
  pub default_user : String
  pub password : String
  pub ssh_keys : List String
  pub backing_path : String
  pub disk_bytes : ℕ
  pub network : NetworkConfig

pub record Artifacts : Type 0 where
  pub disk_path : String
  pub seed_path : String

-- the Spec literal of runCreate
unfoldable pub create_spec : ℕ → Vm → Attachment → Spec
create_spec bandwidth v att = record {
  name = v.domain_name;
  uuid = "";
  vcpus = v.vcpus;
  memory_mb = v.memory_mb;
  disk_path = v.disk_path;
  seed_path = v.seed_path;
  mac = att.mac;
  network = record { mode = att.mode; source = att.source; vlan = att.vlan };
  bandwidth_mbps = bandwidth;
  link_down = v.network_blocked;
  vnc_listen = "";
}

-- v.MAC = att.MAC, and so on
abbrev pub wired : Attachment → Vm → Vm
wired att v = record v { mac = att.mac; ip = att.ip; gateway = att.gateway; netmask = att.netmask }

abbrev pub built : Artifacts → Vm → Vm
built art v = record v { disk_path = art.disk_path; seed_path = art.seed_path }

abbrev pub now_running : Vm → Vm
now_running v = record v { status = VmStatus.running; power_state = PowerState.running }

abbrev pub now_off : Vm → Vm
now_off v = record v { status = VmStatus.stopped; power_state = PowerState.shutoff }

module _ {H : Type 0} (env : Env H) where
  -- prefixFromNetmask of suspend.go
  unfoldable pub stored_prefix : String → String
  stored_prefix nm = if str_eq nm "" then "32" else mask_prefix env.net nm

  -- networkConfigFor
  unfoldable pub network_config_for : Vm → NetworkConfig
  network_config_for v =
      let plain : NetworkConfig = record {
        mac = v.mac;
        static = false;
        address_cidr = "";
        gateway = "";
        nameservers = [];
      } in
      if is_bridge v.network_mode
      then record plain {
        static = true;
        gateway = v.gateway;
        address_cidr = str_append v.ip (str_append "/" (stored_prefix v.netmask));
        nameservers = elim (network_by_id v.network_id env.config.networks) [
          | some n ↦ n.dns
          | none ↦ []
        ];
      }
      else plain

  abbrev pub overlay_of : PrepareRequest → StorageVolSpec
  overlay_of req = record {
    pool = env.config.storage_pool;
    name = str_append req.id ".qcow2";
    capacity_bytes = req.disk_bytes;
    backing_path = req.backing_path;
    backing_fmt = "qcow2";
  }

  abbrev pub seed_of : PrepareRequest → CloudInit
  seed_of req = record {
    instance_id = req.id;
    hostname = req.hostname;
    default_user = req.default_user;
    password = req.password;
    ssh_keys = req.ssh_keys;
    network = req.network;
  }

  abbrev pub seed_path_of : PrepareRequest → String
  seed_path_of req = env.join_path env.config.instance_dir (str_append req.id "-seed.iso")

  abbrev pub artifacts : String → String → Artifacts
  artifacts disk seed = record { disk_path = disk; seed_path = seed }

  -- Prepare, with CreateOverlay
  unfoldable pub prepare : PrepareRequest → Exec (Node H) Artifacts
  prepare req = do
    disk ← on_host (env.conn.create_volume (overlay_of req))
    on_host (env.conn.build_seed_iso (seed_path_of req) (files (seed_of req)))
    pure (artifacts disk (seed_path_of req))

  abbrev pub prepare_request : Vm → Image → NetworkConfig → PrepareRequest
  prepare_request v image network = record {
    id = v.id;
    hostname = v.hostname;
    default_user = image.default_user;
    password = v.password;
    ssh_keys = v.ssh_keys;
    backing_path = image.base_path;
    disk_bytes = gib_bytes v.disk_gb;
    network = network;
  }

  abbrev pub image_of : Vm → Exec (Node H) Image
  image_of v = elim (catalog_image v.image_id env.config.images) [
    | none ↦ raise other
    | some image ↦ pure image
  ]

  -- what cloud-init is told of a new attachment
  abbrev pub attached : Attachment → NetworkConfig
  attached att = record {
    mac = att.mac;
    static = att.static;
    address_cidr = att.address_cidr;
    gateway = att.gateway;
    nameservers = att.nameservers;
  }

  unfoldable pub run_create : Fresh → String → Exec (Node H) (Unit {0})
  run_create fresh id = do
    v ← on_db (get_vm id)
    image ← or_fail v (image_of v)
    att ← or_fail v (
        network_allocate env.net env.conn env.fuel env.config.networks v.network_id fresh.mac v.id
          v.hostname)
    let v1 = wired att v
    _ ← attempt (on_db (update_vm v1))
    art ← or_teardown env v1 att.mac (prepare (prepare_request v1 image (attached att)))
    let v2 = built art v1
    xml ←
        or_teardown env v2 att.mac
          (lift (render env.marshal (create_spec (flavor_bandwidth env v2.flavor_id) v2 att)))
    uuid ← or_teardown env v2 att.mac (on_host (env.conn.define_domain xml))
    let v3 = record v2 { domain_uuid = uuid }
    or_teardown env v3 att.mac (on_host (env.conn.start_domain v3.domain_name))
    on_db (update_vm (now_running v3))

  abbrev pub reseed_of : String → Image → Vm → CloudInit
  reseed_of nonce image v = record {
    instance_id = str_append v.id (str_append "-" nonce);
    hostname = v.hostname;
    default_user = image.default_user;
    password = v.password;
    ssh_keys = v.ssh_keys;
    network = network_config_for v;
  }

  -- reseedVM
  unfoldable pub reseed_vm : String → Vm → Exec (Node H) (Unit {0})
  reseed_vm nonce v = do
    image ← image_of v
    if str_eq v.seed_path ""
        then raise other
        else on_host (env.conn.build_seed_iso v.seed_path (files (reseed_of nonce image v)))

  unfoldable pub run_reseed : Fresh → String → Exec (Node H) (Unit {0})
  run_reseed fresh id = do v ← on_db (get_vm id); reseed_vm fresh.nonce v

  unfoldable pub run_rebuild : String → Exec (Node H) (Unit {0})
  run_rebuild id = do
    v ← on_db (get_vm id)
    image ← or_fail v (image_of v)
    _ ← attempt (on_host (env.conn.destroy_domain v.domain_name))
    or_fail v (on_host (env.conn.delete_volume env.config.storage_pool (volume_name v)))
    art ← or_fail v (prepare (prepare_request v image (network_config_for v)))
    let v1 = built art v
    xml ← or_fail v1 (lift (render env.marshal (build_domain_spec env v1)))
    _ ← or_fail v1 (on_host (env.conn.define_domain xml))
    or_fail v1 (on_host (env.conn.start_domain v1.domain_name))
    on_db (update_vm (now_running v1))

  abbrev pub is_live : Result DomainState → Bool
  is_live (err e) = false
  is_live (ok st) = is_power_running (map_power_state st)

  unfoldable pub run_resize : Fresh → String → Exec (Node H) (Unit {0})
  run_resize fresh id = do
    v ← on_db (get_vm id)
    live ← attempt (on_host (env.conn.domain_state v.domain_name))
    let was_running = is_live live
    if was_running then or_fail v (on_host (env.conn.destroy_domain v.domain_name)) else pure tt
    or_fail v (
        on_host
          (env.conn.resize_volume env.config.storage_pool (volume_name v) (gib_bytes v.disk_gb)))
    or_fail v (reseed_vm fresh.nonce v)
    xml ← or_fail v (lift (render env.marshal (build_domain_spec env v)))
    _ ← or_fail v (on_host (env.conn.define_domain xml))
    if was_running
        then (do
          or_fail v (on_host (env.conn.start_domain v.domain_name))
          on_db (update_vm (now_running v)))
        else on_db (update_vm (now_off v))
