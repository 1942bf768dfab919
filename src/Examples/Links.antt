-- ===== src/Examples/Links.antt =====
-- A VM whose domain runs, on a host whose state is whether the link of that domain is down.
use kite_kvm.Vm.{Env}
use kite_kvm.Node.{Node}
use kite_kvm.Examples.Vms.{env, node}
use kite_kvm.Libvirt.{Conn, state_running}
use kite_kvm.Prelude.{
  Bool, Option, Result, String, [], err, false, none, ok, other, some, str_eq, ◌∷◌,
}

abbrev done : Bool → Result (Unit {0}) × Bool
done h = (ok tt, h)

abbrev host : Conn Bool
host = record {
  ping = done;
  host_info = λ pool h. (err other, h);
  define_domain = λ xml h. (ok "uuid", h);
  start_domain = λ name. done;
  shutdown_domain = λ name. done;
  reboot_domain = λ name. done;
  destroy_domain = λ name. done;
  suspend_domain = λ name. done;
  resume_domain = λ name. done;
  undefine_domain = λ name. done;
  update_interface = λ name xml h. (ok tt, str_eq xml "down");
  domain_state = λ name h. (ok state_running, h);
  list_domains = λ h. (ok ("kvm-vm1" ∷ []), h);
  domain_xml = λ name h. (ok "<domain/>", h);
  domain_vnc_address = λ name h. (ok ("127.0.0.1", 5900), h);
  create_volume = λ spec h. (ok "/pool/vm1.qcow2", h);
  delete_volume = λ pool name. done;
  resize_volume = λ pool name size. done;
  all_domain_stats = λ h. (ok [], h);
  add_dhcp_host = λ network mac name ip. done;
  remove_dhcp_host = λ network mac. done;
  create_snapshot = λ domain name text. done;
  list_snapshots = λ domain h. (ok [], h);
  delete_snapshot = λ domain name. done;
  revert_snapshot = λ domain name. done;
  build_seed_iso = λ path files. done;
  remove_file = λ path. done;
}

abbrev interface_text : Option String → String
interface_text none = "up"
interface_text (some link) = link

abbrev linked : Env Bool
linked = record {
  conn = host;
  marshal = record { domain = λ d. ok "<domain/>"; interface = λ i. ok (interface_text i.link) };
  net = env.net;
  join_path = env.join_path;
  fuel = env.fuel;
  config = env.config;
}

abbrev up_node : Node Bool
up_node = record { db = (node []).db; host = false; traffic_last = [] }
