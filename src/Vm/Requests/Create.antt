-- ===== src/Vm/Requests/Create.antt =====
-- Create of internal/vm/service.go, with resolveNetwork.
use kite_kvm.Vm.Requests.Admission.{admit}
use kite_kvm.Vm.Requests.Validation.{validate_hostname, validate_password, validate_ssh_keys}
use kite_kvm.Network.Strategy.{first_chars}
use kite_kvm.Store.Vms.{create_vm}
use kite_kvm.Vm.{gib_bytes}
use kite_kvm.Job.{Queue}
use kite_kvm.Node.{Node, on_db}
use kite_kvm.Config.Settings.{trimmed}
use kite_kvm.Config.{
  ConfigNetwork, Flavor, Image, catalog_flavor, catalog_image, default_network, network_by_id,
}
use kite_kvm.Prelude.Effects.{Exec, lift, ◌>>=◌, ◌>>◌}
use Prim.Native.String.{◌++◌ as str_append}
use kite_kvm.Model.{NetworkMode, BlockReason, Job, JobType, PowerState, Vm, VmStatus}
use kite_kvm.Prelude.{
  pos, negsuc, String, Error, List, Option, Result, [], err, false, flavor_not_found, if◌then◌else◌,
  image_not_found, invalid_request, keep, network_not_found, none, not, ok, some, str_eq, ℕ, ℤ,
}
use kite_kvm.Vm.Requests.{RequestEnv, new_job, on_node, submit}

pub record NetworkRequest : Type 0 where
  pub network_id : String
  pub mode : String

pub record CreateRequest : Type 0 where
  pub flavor_id : String
  pub image_id : String
  pub hostname : String
  pub password : String
  pub ssh_keys : List String
  pub network : NetworkRequest
  pub traffic_quota_gb : Option ℤ

-- the ids of the VM and of the job, which uuid.NewString draws
pub record Drawn : Type 0 where
  pub vm_id : String
  pub job_id : String

abbrev pub mode_text : NetworkMode → String
mode_text NetworkMode.nat = "nat"
mode_text NetworkMode.bridge = "bridge"

-- the networks of a mode
abbrev pub of_mode : String → List ConfigNetwork → List ConfigNetwork
of_mode mode = keep (λ n. str_eq (mode_text n.mode) mode)

abbrev pub or_network_not_found : Option ConfigNetwork → Result ConfigNetwork
or_network_not_found none = err network_not_found
or_network_not_found (some n) = ok n

-- The loop over the networks of a mode returns the first that is marked as the default, and
-- otherwise the first.
unfoldable pub resolve_network : NetworkRequest → List ConfigNetwork → Result ConfigNetwork
resolve_network req networks =
    if not (str_eq req.network_id "")
    then or_network_not_found (network_by_id req.network_id networks)
    else if not (str_eq req.mode "")
    then or_network_not_found (default_network (of_mode req.mode networks))
    else or_network_not_found (default_network networks)

-- quotaGB: that of the request, where it has one
unfoldable pub quota_of : Option ℤ → Flavor → Result ℕ
quota_of none flavor = ok flavor.traffic_quota_gb
quota_of (some (pos n)) flavor = ok n
quota_of (some (negsuc n)) flavor = err invalid_request

abbrev pub found : {A : Type 0} → Error → Option A → Result A
found e none = err e
found e (some a) = ok a

-- "vm-" + id[:8] for a name that is blank
unfoldable pub hostname_of : String → String → Result String
hostname_of trimmed id =
    if str_eq trimmed ""
    then ok (str_append "vm-" (first_chars 8 id))
    else elim (validate_hostname trimmed) [ ok _ ↦ ok trimmed | err e ↦ err e ]

-- the row that Create inserts
unfoldable pub new_vm :
    CreateRequest → String → Flavor → Image → ConfigNetwork → String → ℕ → ℕ → Vm
new_vm req id flavor image network hostname quota_gb now = record {
  id = id;
  domain_name = str_append "kvm-" id;
  domain_uuid = "";
  hostname = hostname;
  flavor_id = flavor.id;
  image_id = image.id;
  vcpus = flavor.vcpus;
  memory_mb = flavor.memory_mb;
  disk_gb = flavor.disk_gb;
  network_id = network.id;
  network_mode = network.mode;
  mac = "";
  ip = "";
  gateway = "";
  netmask = "";
  status = VmStatus.provisioning;
  power_state = PowerState.shutoff;
  prev_power_state = PowerState.unknown;
  disk_path = "";
  seed_path = "";
  password = req.password;
  ssh_keys = req.ssh_keys;
  traffic_quota_bytes = gib_bytes quota_gb;
  traffic_used_bytes = 0;
  traffic_period_start = now;
  network_blocked = false;
  network_block_reason = BlockReason.unset;
  created_at = 0;
  updated_at = 0;
}

module _ {H : Type 0} (renv : RequestEnv H) where
  -- The checks of Create, which end with the row that is to be inserted.
  unfoldable pub check_create : String → CreateRequest → Exec (Node H) Vm
  check_create id req = do
    flavor ← lift (found flavor_not_found (catalog_flavor req.flavor_id renv.env.config.flavors))
    image ← lift (found image_not_found (catalog_image req.image_id renv.env.config.images))
    network ← lift (resolve_network req.network renv.env.config.networks)
    lift (validate_password req.password)
    lift (validate_ssh_keys renv.env.net.trim_space renv.parses_key req.ssh_keys)
    admit renv flavor
    hostname ← lift (hostname_of (renv.env.net.trim_space req.hostname) id)
    quota_gb ← lift (quota_of req.traffic_quota_gb flavor)
    λ n. (ok (new_vm req id flavor image network hostname quota_gb n.db.clock), n)

  -- Create
  unfoldable pub create_request : Drawn → CreateRequest → Exec (Queue H) Job
  create_request drawn req = do
    v ← on_node (check_create drawn.vm_id req)
    on_node (on_db (create_vm v))
    submit (new_job drawn.job_id JobType.create v.id [])
