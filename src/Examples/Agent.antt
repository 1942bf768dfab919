-- ===== src/Examples/Agent.antt =====
-- An agent with one network, one flavor and one image, on a hypervisor whose state is not looked at.
use kite_kvm.Vm.Requests.Completion.{create_request-completes}
use kite_kvm.Vm.Requests.Accepted.{IsAccepted, create_request-IsAccepted}
use kite_kvm.Vm.Requests.Admission.{admit, committed, committed_from}
use kite_kvm.Vm.Requests.Validation.{
  byte_length, has_control, has_line_break, host_labels, validate_hostname, validate_password,
  validate_ssh_keys,
}
use kite_kvm.Vm.Requests.Create.{
  CreateRequest, Drawn, check_create, create_request, hostname_of, new_vm, quota_of,
  resolve_network,
}
use kite_kvm.Vm.Requests.{RequestEnv, new_job, submit}
use kite_kvm.Store.Table.{find}
use kite_kvm.Store.Jobs.{create_job, job_row}
use kite_kvm.Store.Vms.{create_vm, list_vms}
use kite_kvm.Vm.{Env}
use kite_kvm.Job.Outcome.{KeepsJobs}
use kite_kvm.Job.Retries.{calls, rounds}
use kite_kvm.Job.{Queue, enqueue, is_canceled, is_done}
use kite_kvm.Node.{Node}
use kite_kvm.Libvirt.{Conn}
use kite_kvm.Config.{catalog_flavor, catalog_image, default_network, flagged_network}
use kite_kvm.Model.{Job, JobState, JobType, NetworkMode}
use kite_kvm.Prelude.Effects.{Exec}
use kite_kvm.Prelude.{
  pos, Error, Result, [], arith, domain_not_found, err, false, none, ok, other, refl, some, true,
  ◌∷◌, ◌≡◌, ◌≤◌, keep,
}

abbrev done : Unit {0} → Result (Unit {0}) × Unit {0}
done h = (ok tt, h)

-- a hypervisor without domains
abbrev no_host : Conn (Unit {0})
no_host = record {
  ping = done;
  host_info = λ pool h. (err other, h);
  define_domain = λ xml h. (err other, h);
  start_domain = λ name. done;
  shutdown_domain = λ name. done;
  reboot_domain = λ name. done;
  destroy_domain = λ name. done;
  suspend_domain = λ name. done;
  resume_domain = λ name. done;
  undefine_domain = λ name. done;
  update_interface = λ name xml. done;
  domain_state = λ name h. (err domain_not_found, h);
  list_domains = λ h. (ok [], h);
  domain_xml = λ name h. (err domain_not_found, h);
  domain_vnc_address = λ name h. (err domain_not_found, h);
  create_volume = λ spec h. (err other, h);
  delete_volume = λ pool name. done;
  resize_volume = λ pool name size. done;
  all_domain_stats = λ h. (ok [], h);
  add_dhcp_host = λ network mac name ip. done;
  remove_dhcp_host = λ network mac. done;
  create_snapshot = λ domain name text. done;
  list_snapshots = λ domain h. (ok [], h);
  delete_snapshot = λ domain name. done;
  revert_snapshot = λ domain name. done;
  build_seed_iso = λ path files. done;
  remove_file = λ path. done;
}

abbrev env : Env (Unit {0})
env = record {
  conn = no_host;
  marshal = record { domain = λ d. ok ""; interface = λ i. ok "" };
  net = record {
    parse_cidr = λ s. none;
    parse_ip = λ s. none;
    ip_string = λ a. "";
    mask_ones = λ a. 24;
    itoa = λ n. "24";
    trim_space = λ s. s;
  };
  join_path = λ a b. b;
  fuel = 10;
  config = record {
    networks =
        record {
          id = "lan";
          mode = NetworkMode.bridge;
          is_default = true;
          libvirt_network = "";
          subnet = "";
          bridge = "br0";
          ip_pool = "10.0.0.5" ∷ [];
          gateway = "10.0.0.1";
          netmask = "/24";
          dns = [];
          vlan = 0;
        }
        ∷ [];
    flavors =
        record {
          id = "s1";
          name = "small";
          vcpus = 1;
          memory_mb = 1024;
          disk_gb = 10;
          bandwidth_mbps = 0;
          traffic_quota_gb = 5;
        }
        ∷ [];
    images =
        record {
          id = "debian";
          name = "Debian";
          os_variant = "debian12";
          base_path = "/images/debian.qcow2";
          default_user = "debian";
        }
        ∷ [];
    storage_pool = "default";
    instance_dir = "/var";
  };
}

-- without limits
abbrev pub renv : RequestEnv (Unit {0})
renv = record {
  env = env;
  capacity = record {
    cpu_overcommit = 0;
    mem_overcommit = 0;
    reserved_memory_mb = pos 0;
    max_vms = pos 0;
  };
  floats = record {
    of_nat = λ n. n;
    add = λ a b. a;
    sub = λ a b. a;
    mul = λ a b. a;
    div = λ a b. a;
    less = λ a b. false;
    leq = λ a b. true;
  };
  parses_key = λ k. true;
}

abbrev pub drawn : Drawn
drawn = record { vm_id = "5f0c2a9e-01"; job_id = "j1" }

abbrev pub wanted : CreateRequest
wanted = record {
  flavor_id = "s1";
  image_id = "debian";
  hostname = "web-1.example";
  password = "secret";
  ssh_keys = "ssh-ed25519 AAAA" ∷ [];
  network = record { network_id = ""; mode = "bridge" };
  traffic_quota_gb = none;
}

abbrev pub queue : Queue (Unit {0})
queue = record {
  node = record {
    db = record {
      vms = [];
      jobs = [];
      idempotency_keys = [];
      ip_allocations = [];
      clock = 1000;
      faults = [];
    };
    host = tt;
    traffic_last = [];
  };
  scheduled = [];
}

abbrev the_job : Job
the_job = record {
  id = "j1";
  typ = JobType.create;
  vm_id = "5f0c2a9e-01";
  state = JobState.queued;
  error = none;
  idempotency_key = "";
  payload = [];
  attempts = 0;
  created_at = 0;
  started_at = none;
  finished_at = none;
}

created : (create_request renv drawn wanted queue).0 ≡ ok the_job
unfolding create_request check_create catalog_flavor catalog_image resolve_network default_network
    flagged_network validate_password byte_length has_control validate_ssh_keys has_line_break admit
    committed committed_from list_vms hostname_of validate_hostname host_labels quota_of new_vm
    create_vm find submit enqueue create_job new_job keep
created = refl

create_request-IsAccepted_example :
    IsAccepted renv drawn wanted queue (create_request renv drawn wanted queue).1
create_request-IsAccepted_example =
    create_request-IsAccepted renv drawn wanted queue the_job created

abbrev failing : Job → Exec (Node (Unit {0})) (Unit {0})
failing j n = (err other, n)

failing_keeps : KeepsJobs failing
failing_keeps = record { jobs = λ j n. refl; faults = λ j n h. h }

failing_plain :
    (j : Job) (n : Node (Unit {0})) (e : Error) → (failing j n).0 ≡ err e → is_canceled e ≡ false
failing_plain j n e h = ground arith

create_request-completes_example :
    let accepted = (create_request renv drawn wanted queue).1 in
    (calls failing 4 "j1" accepted ≤ 3)
    × (last : Job) × (job_row "j1" (rounds failing 4 "j1" accepted).node.db ≡ some last)
    × (is_done last.state ≡ true)
create_request-completes_example =
    create_request-completes renv failing drawn wanted queue the_job 4 failing_keeps failing_plain
      refl created (omega arith)
