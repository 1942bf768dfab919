-- ===== src/Examples/Creation.antt =====
-- A creation whose domain cannot be started.
use kite_kvm.DomainXml.{render, validate, validate_interface}
use kite_kvm.Store.Ips.{allocate_ip, first_free, release_ip_by_vm, taken_ips, without_vm}
use kite_kvm.Store.Table.{find, update_at}
use kite_kvm.Store.Vms.{get_vm, update_vm, vm_row}
use kite_kvm.Config.{Image, catalog_image}
use kite_kvm.Network.Pool.{add, add_hosts, entry_hosts, expand_pool, pool_loop}
use kite_kvm.Network.Strategy.{
  Attachment, bridge_allocate, bridge_attachment, bridge_release, last_network, network_allocate,
  network_release,
}
use kite_kvm.Vm.Provisioning.Failure.{run_create-gives_up}
use kite_kvm.Vm.Provisioning.GivesUp.{IsGivenUp}
use kite_kvm.Vm.Provisioning.{prepare, run_create, create_spec}
use kite_kvm.Vm.Links.{fail_create, or_teardown, teardown_partial}
use kite_kvm.Vm.{Env, Fresh, fail_vm, or_fail}
use kite_kvm.Node.{Node}
use kite_kvm.Examples.Vms.{bridged, env, host, node, vm}
use kite_kvm.Prelude.{[], contains, err, none, ok, other, refl, some, ◌∷◌, ◌≡◌}
use kite_kvm.Libvirt.{DomainState}

abbrev debian : Image
debian = record {
  id = "debian";
  name = "Debian";
  os_variant = "debian12";
  base_path = "/images/debian.qcow2";
  default_user = "debian";
}

abbrev refusing : Env DomainState
refusing = record {
  conn = record host { start_domain = λ name h. (err other, h) };
  marshal = env.marshal;
  net = record (env.net) { parse_ip = λ s. some none };
  join_path = env.join_path;
  fuel = env.fuel;
  config = record (env.config) { images = debian ∷ [] };
}

abbrev fresh_mac : Fresh
fresh_mac = record { mac = ok "52:54:00:00:00:02"; nonce = "abcd" }

abbrev free_node : Node DomainState
free_node = record (node []) { db = record ((node []).db) { ip_allocations = [] } }

abbrev wired_to : Attachment
wired_to =
    bridge_attachment refusing.net refusing.conn refusing.fuel bridged "52:54:00:00:00:02"
      "10.0.0.5"

free_stored : vm_row "vm1" free_node.db ≡ some vm
unfolding vm_row find
free_stored = refl

in_catalog : catalog_image "debian" refusing.config.images ≡ some debian
unfolding catalog_image
in_catalog = refl

on_lan : last_network "lan" refusing.config.networks ≡ some bridged
unfolding last_network
on_lan = refl

allocates :
    (network_allocate refusing.net refusing.conn refusing.fuel refusing.config.networks "lan"
      fresh_mac.mac "vm1" "web" free_node).0
    ≡ ok wired_to
unfolding network_allocate last_network bridge_allocate expand_pool pool_loop entry_hosts add_hosts
    add contains allocate_ip first_free taken_ips
allocates = refl

start_refused : (run_create refusing fresh_mac "vm1" free_node).0 ≡ err other
unfolding run_create or_fail get_vm find catalog_image network_allocate last_network bridge_allocate
    expand_pool pool_loop entry_hosts add_hosts add contains allocate_ip first_free taken_ips
    update_vm update_at or_teardown prepare render validate validate_interface fail_create fail_vm
    teardown_partial network_release bridge_release release_ip_by_vm without_vm create_spec
start_refused = refl

run_create-gives_up_example : IsGivenUp "vm1" (run_create refusing fresh_mac "vm1" free_node).1
run_create-gives_up_example =
    run_create-gives_up refusing fresh_mac vm debian wired_to bridged on_lan free_node other refl
      free_stored in_catalog allocates start_refused
