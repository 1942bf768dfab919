-- ===== src/Vm/Links.antt =====
-- The domain document of a stored VM, its network link, and the teardown of its resources:
-- service.go and traffic.go of internal/vm.
use Prim.Native.String.{◌++◌ as str_append}
use kite_kvm.Prelude.{Error, String, err, if◌then◌else◌, none, ok, some, str_eq, ℕ}
use kite_kvm.Prelude.Effects.{Exec, attempt, pure, ◌>>=◌, ◌>>◌, lift}
use kite_kvm.Model.{NetworkMode, Vm, is_bridge, is_power_running}
use kite_kvm.Libvirt.{map_power_state}
use kite_kvm.DomainXml.{NetworkAttachment, Spec, render_interface}
use kite_kvm.Config.{catalog_flavor, network_by_id}
use kite_kvm.Network.Strategy.{network_release}
use kite_kvm.Node.{Node, on_host}
use kite_kvm.Vm.{Env, fail_vm}

abbrev pub volume_name : Vm → String
volume_name v = str_append v.id ".qcow2"

module _ {H : Type 0} (env : Env H) where
  -- flavorBandwidth
  unfoldable pub flavor_bandwidth : String → ℕ
  flavor_bandwidth id = elim (catalog_flavor id env.config.flavors) [
    | some f ↦ f.bandwidth_mbps
    | none ↦ 0
  ]

  -- networkAttachmentFor
  unfoldable pub network_attachment_for : Vm → NetworkAttachment
  network_attachment_for v =
      let found = network_by_id v.network_id env.config.networks in
      if is_bridge v.network_mode
      then elim found [
        | some n ↦ record { mode = NetworkMode.bridge; source = n.bridge; vlan = n.vlan }
        | none ↦ record { mode = NetworkMode.bridge; source = ""; vlan = 0 }
      ]
      else elim found [
        | some n ↦ record { mode = NetworkMode.nat; source = n.libvirt_network; vlan = 0 }
        | none ↦ record { mode = NetworkMode.nat; source = ""; vlan = 0 }
      ]

  -- buildDomainSpec
  unfoldable pub build_domain_spec : Vm → Spec
  build_domain_spec v = record {
    name = v.domain_name;
    uuid = "";
    vcpus = v.vcpus;
    memory_mb = v.memory_mb;
    disk_path = v.disk_path;
    seed_path = v.seed_path;
    mac = v.mac;
    network = network_attachment_for v;
    bandwidth_mbps = flavor_bandwidth v.flavor_id;
    link_down = v.network_blocked;
    vnc_listen = "";
  }

  -- the Spec literal of applyLink
  unfoldable pub link_spec : Vm → Spec
  link_spec v = record {
    name = "";
    uuid = "";
    vcpus = 0;
    memory_mb = 0;
    disk_path = "";
    seed_path = "";
    mac = v.mac;
    network = network_attachment_for v;
    bandwidth_mbps = flavor_bandwidth v.flavor_id;
    link_down = v.network_blocked;
    vnc_listen = "";
  }

  -- the second half of applyLink, for a domain that runs
  unfoldable pub update_link : Vm → Exec (Node H) (Unit {0})
  update_link v = do
    xml ← lift (render_interface env.marshal (link_spec v))
    on_host (env.conn.update_interface v.domain_name xml)

  -- applyLink: nothing is done for a domain that does not run, or whose state is not known
  unfoldable pub apply_link : Vm → Exec (Node H) (Unit {0})
  apply_link v = do
    live ← attempt (on_host (env.conn.domain_state v.domain_name))
    elim live [
      | err e ↦ pure tt
      | ok st ↦ if is_power_running (map_power_state st) then update_link v else pure tt
    ]

  -- teardownPartial: every error is dropped
  unfoldable pub teardown_partial : Vm → String → Exec (Node H) (Unit {0})
  teardown_partial v mac = do
    _ ← attempt (on_host (env.conn.destroy_domain v.domain_name))
    _ ← attempt (on_host (env.conn.undefine_domain v.domain_name))
    _ ← attempt (on_host (env.conn.delete_volume env.config.storage_pool (volume_name v)))
    _ ←
        if str_eq v.seed_path ""
        then pure (ok tt)
        else attempt (on_host (env.conn.remove_file v.seed_path))
    _ ←
        attempt
          (network_release env.net env.conn env.fuel env.config.networks v.network_id v.id mac)
    pure tt

  -- failCreate
  unfoldable pub fail_create : {A : Type 0} → Vm → String → Error → Exec (Node H) A
  fail_create v mac cause = do teardown_partial v mac; fail_vm v cause

  -- the steps `if err := f(); err != nil { return s.failCreate(…) }`
  unfoldable pub or_teardown : {A : Type 0} → Vm → String → Exec (Node H) A → Exec (Node H) A
  or_teardown v mac m n = elim ((m n).0) [
    | ok a ↦ (ok a, (m n).1)
    | err e ↦ fail_create v mac e ((m n).1)
  ]
