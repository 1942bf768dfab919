-- ===== src/Examples/Vms.antt =====
-- VMs on a host of one domain, whose state is the state of the domain.
use kite_kvm.Vm.Dispatch.Reconciled.{reconcile_on_start-settles}
use kite_kvm.Vm.Provisioning.Prefix.{stored_prefix-agrees, stored_prefix_diverges}
use kite_kvm.Vm.Provisioning.{stored_prefix}
use kite_kvm.Job.Outcome.{KeepsJobs}
use kite_kvm.Vm.Dispatch.JobsTable.RunJob.{run_job-KeepsJobs}
use kite_kvm.Vm.Dispatch.{run_job, reconcile_on_start}
use kite_kvm.Vm.Traffic.Counters.{Span, goes_on, restarts}
use kite_kvm.Vm.Lifecycle.Teardown.{fail_create-frees, run_terminate-frees}
use kite_kvm.Vm.Lifecycle.Retry.{run_suspend_forgets}
use kite_kvm.Vm.Lifecycle.Suspension.{resumed}
use kite_kvm.Vm.Lifecycle.Restored.{power_of, run_unsuspend-run_suspend}
use kite_kvm.Vm.Lifecycle.{ended, run_suspend, run_terminate, run_unsuspend}
use kite_kvm.Vm.Links.{fail_create}
use kite_kvm.Vm.{Env}
use kite_kvm.Network.Strategy.{last_network, prefix_from_netmask, slash_prefix}
use kite_kvm.Config.{ConfigNetwork}
use kite_kvm.Node.{NetCounters, Node}
use kite_kvm.Libvirt.{
  Conn, DomainState, map_power_state, state_paused, state_running, state_shutoff,
}
use kite_kvm.Store.Ips.Ownership.{holds}
use kite_kvm.Store.Vms.{set_columns, vm_row}
use kite_kvm.Store.Table.{find}
use kite_kvm.Model.{
  BlockReason, IpAllocation, NetworkMode, PowerState, Vm, VmStatus, is_power_on, is_provisioning,
}
use kite_kvm.Prelude.{
  String, Bool, List, Result, [], db_failed, err, false, none, ok, other, refl, some, true, ◌∷◌,
  ◌≡◌, All, if◌then◌else◌,
}

abbrev done : DomainState → Result (Unit {0}) × DomainState
done h = (ok tt, h)

abbrev pub host : Conn DomainState
host = record {
  ping = done;
  host_info = λ pool h. (err other, h);
  define_domain = λ xml h. (ok "uuid", h);
  start_domain = λ name h. (ok tt, state_running);
  shutdown_domain = λ name h. (ok tt, state_shutoff);
  reboot_domain = λ name. done;
  destroy_domain = λ name h. (ok tt, state_shutoff);
  suspend_domain = λ name h. (ok tt, state_paused);
  resume_domain = λ name h. (ok tt, state_running);
  undefine_domain = λ name. done;
  update_interface = λ name xml. done;
  domain_state = λ name h. (ok h, h);
  list_domains = λ h. (ok ("kvm-vm1" ∷ []), h);
  domain_xml = λ name h. (ok "<domain/>", h);
  domain_vnc_address = λ name h. (ok ("127.0.0.1", 5900), h);
  create_volume = λ spec h. (ok "/pool/vm1.qcow2", h);
  delete_volume = λ pool name. done;
  resize_volume = λ pool name size. done;
  all_domain_stats = λ h. (ok [], h);
  add_dhcp_host = λ network mac name ip. done;
  remove_dhcp_host = λ network mac. done;
  create_snapshot = λ domain name text. done;
  list_snapshots = λ domain h. (ok [], h);
  delete_snapshot = λ domain name. done;
  revert_snapshot = λ domain name. done;
  build_seed_iso = λ path files. done;
  remove_file = λ path. done;
}

abbrev pub bridged : ConfigNetwork
bridged = record {
  id = "lan";
  mode = NetworkMode.bridge;
  is_default = true;
  libvirt_network = "";
  subnet = "";
  bridge = "br0";
  ip_pool = "10.0.0.5" ∷ [];
  gateway = "10.0.0.1";
  netmask = "/24";
  dns = [];
  vlan = 0;
}

abbrev pub env : Env DomainState
env = record {
  conn = host;
  marshal = record { domain = λ d. ok "<domain/>"; interface = λ i. ok "<interface/>" };
  net = record {
    parse_cidr = λ s. none;
    parse_ip = λ s. none;
    ip_string = λ a. "";
    mask_ones = λ a. 24;
    itoa = λ n. "24";
    trim_space = λ s. s;
  };
  join_path = λ a b. b;
  fuel = 10;
  config = record {
    networks = bridged ∷ [];
    flavors = [];
    images = [];
    storage_pool = "default";
    instance_dir = "/var";
  };
}

abbrev pub vm : Vm
vm = record {
  id = "vm1";
  domain_name = "kvm-vm1";
  domain_uuid = "uuid";
  hostname = "web";
  flavor_id = "s1";
  image_id = "debian";
  vcpus = 1;
  memory_mb = 1024;
  disk_gb = 10;
  network_id = "lan";
  network_mode = NetworkMode.bridge;
  mac = "52:54:00:00:00:01";
  ip = "10.0.0.5";
  gateway = "10.0.0.1";
  netmask = "/24";
  status = VmStatus.running;
  power_state = PowerState.running;
  prev_power_state = PowerState.unknown;
  disk_path = "/pool/vm1.qcow2";
  seed_path = "/var/vm1-seed.iso";
  password = "";
  ssh_keys = [];
  traffic_quota_bytes = 100;
  traffic_used_bytes = 150;
  traffic_period_start = 0;
  network_blocked = false;
  network_block_reason = BlockReason.unset;
  created_at = 1;
  updated_at = 1;
}

abbrev address : IpAllocation
address = record {
  network_id = "lan";
  ip = "10.0.0.5";
  vm_id = "vm1";
  mac = "52:54:00:00:00:01";
  created_at = 1;
}

-- the node that holds `vm`, with statements that fail as told
abbrev pub node : List Bool → Node DomainState
node faults = record {
  db = record {
    vms = vm ∷ [];
    jobs = [];
    idempotency_keys = [];
    ip_allocations = address ∷ [];
    clock = 1000;
    faults = faults;
  };
  host = state_running;
  traffic_last = [];
}

stored : vm_row "vm1" (node []).db ≡ some vm
unfolding vm_row find
stored = refl

stored_faulty : vm_row "vm1" (node (false ∷ true ∷ [])).db ≡ some vm
unfolding vm_row find
stored_faulty = refl

configured : last_network "lan" env.config.networks ≡ some bridged
unfolding last_network
configured = refl

abbrev baseline : NetCounters
baseline = record { rx = 10; tx = 0 }

-- the domain is made anew in the second interval
abbrev spans : List Span
spans = (goes_on 5, goes_on 1) ∷ (restarts 2 3, restarts 0 4) ∷ []

abbrev sampled_node : Node DomainState
sampled_node = record (node []) { traffic_last = ("kvm-vm1", baseline) ∷ [] }

run_unsuspend-run_suspend_example :
    let middle = run_suspend env "vm1" (node []) in
    let after = run_unsuspend env "vm1" middle.1 in
    (middle.0 ≡ ok tt)
    × (is_power_on (power_of (λ st. st) middle.1) ≡ false)
    × (after.0 ≡ ok tt)
    × (after.1.host
        ≡ (if is_power_on (map_power_state state_running) then state_running else state_running))
    × (vm_row "vm1" after.1.db
        ≡ some (set_columns 1000 (resumed (is_power_on (map_power_state state_running)) vm) vm))
run_unsuspend-run_suspend_example =
    run_unsuspend-run_suspend env vm (λ st. st) (λ h. (refl, refl)) (λ h. (refl, refl))
      (λ h off. (refl, refl)) (node []) refl stored refl

runs : is_power_on (map_power_state state_running) ≡ true
unfolding map_power_state
runs = refl

run_suspend_forgets_example :
    let first = run_suspend env "vm1" (node (false ∷ true ∷ [])) in
    let second = run_suspend env "vm1" first.1 in
    let after = run_unsuspend env "vm1" second.1 in
    (first.0 ≡ err db_failed)
    × (second.0 ≡ ok tt)
    × (after.0 ≡ ok tt)
    × (vm_row "vm1" after.1.db ≡ some (set_columns 1000 (resumed false vm) vm))
run_suspend_forgets_example =
    run_suspend_forgets env vm (node (false ∷ true ∷ [])) state_running refl stored_faulty refl refl
      runs (λ h. refl) (λ h. refl) (λ h. refl)

run_terminate-frees_example :
    let after = run_terminate env "vm1" (node []) in
    (after.0 ≡ ok tt)
    × (vm_row "vm1" after.1.db ≡ some (set_columns 1000 (ended env vm) vm))
    × ((network ip : String) → holds network ip "vm1" after.1.db.ip_allocations ≡ false)
run_terminate-frees_example =
    run_terminate-frees env vm bridged (node []) refl stored refl configured

torn_down :
    let after = fail_create env {A = Unit {0}} vm "52:54:00:00:00:01" other (node []) in
    (after.0 ≡ err other)
    × (vm_row "vm1" after.1.db ≡ some (set_columns 1000 (record vm { status = VmStatus.error }) vm))
    × ((network ip : String) → holds network ip "vm1" after.1.db.ip_allocations ≡ false)
torn_down =
    fail_create-frees env vm vm "52:54:00:00:00:01" other bridged (node []) refl stored configured

run_job-KeepsJobs_example :
    KeepsJobs (λ j. run_job env (record { mac = ok "52:54:00:00:00:02"; nonce = "abcd" }) j)
run_job-KeepsJobs_example =
    run_job-KeepsJobs env λ j. record { mac = ok "52:54:00:00:00:02"; nonce = "abcd" }

slashed : slash_prefix "/24" ≡ some "24"
unfolding slash_prefix
slashed = refl

prefixes_differ : (prefix_from_netmask env.net "/24" ≡ "24") × (stored_prefix env "/24" ≡ "32")
prefixes_differ = stored_prefix_diverges env "/24" "24" refl slashed refl

unslashed : slash_prefix "255.255.255.0" ≡ none
unfolding slash_prefix
unslashed = refl

same_prefix : stored_prefix env "255.255.255.0" ≡ prefix_from_netmask env.net "255.255.255.0"
same_prefix = stored_prefix-agrees env "255.255.255.0" refl unslashed

abbrev stuck_node : Node DomainState
stuck_node = record (node []) {
  db = record ((node []).db) { vms = record vm { status = VmStatus.provisioning } ∷ vm ∷ [] };
}

reconciled :
    All (λ v. is_provisioning v.status ≡ false) (reconcile_on_start env stuck_node).1.db.vms
reconciled = reconcile_on_start-settles env stuck_node refl
