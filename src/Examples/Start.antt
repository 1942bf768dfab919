-- ===== src/Examples/Start.antt =====
-- A crash between a request and its job, and the start after it.

use kite_kvm.Network.Strategy.{bridge_release, nat_release, network_release, last_network}
use kite_kvm.Vm.Links.{teardown_partial}
use kite_kvm.Vm.Dispatch.{reconcile_all, reconcile_on_start, reconcile_vm}
use kite_kvm.Store.Ips.{release_ip_by_vm, without_vm}
use kite_kvm.Store.Vms.{list_vms, update_vm}
use kite_kvm.Store.Table.{find, update_at, in_order, insert_by}
use kite_kvm.Store.Jobs.{job_row, list_jobs_by_state, update_job}
use kite_kvm.Job.Recovery.{is_queued_job, is_running_job, scheduled_ids}
use kite_kvm.Job.{Queue, fail_running, recover}
use kite_kvm.Model.{
  BlockReason, Job, JobState, JobType, NetworkMode, PowerState, Vm, VmStatus, is_provisioning,
}
use kite_kvm.Agent.Start.{start_agent-settles}
use kite_kvm.Agent.{start_agent}
use kite_kvm.Examples.Agent.{queue, renv}
use kite_kvm.Prelude.{All, String, [], contains, false, keep, map, none, refl, some, true, ◌∷◌, ◌≡◌}

abbrev crashed_job : Job
crashed_job = record {
  id = "j0";
  typ = JobType.start;
  vm_id = "old";
  state = JobState.running;
  error = none;
  idempotency_key = "";
  payload = [];
  attempts = 0;
  created_at = 0;
  started_at = some 900;
  finished_at = none;
}

abbrev requested : Vm
requested = record {
  id = "vm1";
  domain_name = "kvm-vm1";
  domain_uuid = "";
  hostname = "web";
  flavor_id = "s1";
  image_id = "debian";
  vcpus = 1;
  memory_mb = 1024;
  disk_gb = 10;
  network_id = "lan";
  network_mode = NetworkMode.bridge;
  mac = "";
  ip = "";
  gateway = "";
  netmask = "";
  status = VmStatus.provisioning;
  power_state = PowerState.shutoff;
  prev_power_state = PowerState.unknown;
  disk_path = "";
  seed_path = "";
  password = "";
  ssh_keys = [];
  traffic_quota_bytes = 100;
  traffic_used_bytes = 150;
  traffic_period_start = 0;
  network_blocked = false;
  network_block_reason = BlockReason.unset;
  created_at = 1;
  updated_at = 1;
}

-- a VM was requested, and its job has not been taken up
abbrev crashed_queue : Queue (Unit {0})
crashed_queue = record {
  node = record (queue.node) {
    db = record (queue.node.db) {
      vms = requested ∷ [];
      jobs =
          crashed_job
          ∷ record crashed_job {
            id = "j1";
            typ = JobType.create;
            vm_id = "vm1";
            state = JobState.queued;
            started_at = none;
          }
          ∷ [];
    };
  };
  scheduled = [];
}

start_agent-settles_example :
    All (λ r. is_running_job r ≡ false) (start_agent renv.env crashed_queue).node.db.jobs
    × ((id : String) (j : Job)
        → job_row id (start_agent renv.env crashed_queue).node.db ≡ some j
        → is_queued_job j ≡ true
        → contains id (scheduled_ids (start_agent renv.env crashed_queue).scheduled) ≡ true)
    × All (λ v. is_provisioning v.status ≡ false) (start_agent renv.env crashed_queue).node.db.vms
start_agent-settles_example = start_agent-settles renv.env crashed_queue refl

-- the VM whose job waits is given up
waiting_blamed :
    ((start_agent renv.env crashed_queue).scheduled ≡ ("j1", 0) ∷ [])
    × (map (λ v. v.status) (start_agent renv.env crashed_queue).node.db.vms ≡ VmStatus.error ∷ [])
unfolding start_agent recover fail_running list_jobs_by_state update_job keep find update_at
    reconcile_on_start list_vms reconcile_all reconcile_vm teardown_partial update_vm
    network_release bridge_release nat_release release_ip_by_vm without_vm last_network in_order
    insert_by
waiting_blamed = (refl, refl)
