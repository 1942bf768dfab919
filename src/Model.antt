-- ===== src/Model.antt =====
-- internal/model/model.go: the entities that the store, the services and the API share.
-- A time is the number of nanoseconds since the epoch; Go's `int` fields that the configuration
-- keeps above 0 are natural numbers.
use kite_kvm.Prelude.{Bool, Error, List, Option, String, false, true, ℕ}

-- The statuses and states are strings in the source; these are its constants.
pub data VmStatus : Type 0 where
  provisioning running stopped suspended error terminated : VmStatus

pub data PowerState : Type 0 where
  unknown running shutoff paused : PowerState

pub data NetworkMode : Type 0 where
  nat bridge : NetworkMode

pub data BlockReason : Type 0 where
  unset quota manual : BlockReason

pub record Vm : Type 0 where
  pub id : String
  pub domain_name : String
  pub domain_uuid : String
  pub hostname : String
  pub flavor_id : String
  pub image_id : String
  pub vcpus : ℕ
  pub memory_mb : ℕ
  pub disk_gb : ℕ
  pub network_id : String
  pub network_mode : NetworkMode
  pub mac : String
  pub ip : String
  pub gateway : String
  pub netmask : String
  pub status : VmStatus
  pub power_state : PowerState
  pub prev_power_state : PowerState
  pub disk_path : String
  pub seed_path : String
  pub password : String
  pub ssh_keys : List String
  pub traffic_quota_bytes : ℕ  -- uint64
  pub traffic_used_bytes : ℕ  -- uint64
  pub traffic_period_start : ℕ
  pub network_blocked : Bool
  pub network_block_reason : BlockReason
  pub created_at : ℕ
  pub updated_at : ℕ

pub data JobType : Type 0 where
  create start shutdown reboot stop suspend unsuspend password hostname rebuild resize : JobType
  snapshot_create snapshot_delete snapshot_revert net_block net_unblock : JobType
  traffic_reset terminate : JobType

pub data JobState : Type 0 where
  queued running succeeded failed : JobState

pub record Job : Type 0 where
  pub id : String
  pub typ : JobType
  pub vm_id : String
  pub state : JobState
  pub error : Option Error
  pub idempotency_key : String
  pub payload : List (String × String)
  pub attempts : ℕ
  pub created_at : ℕ
  pub started_at : Option ℕ
  pub finished_at : Option ℕ

pub record IpAllocation : Type 0 where
  pub network_id : String
  pub ip : String
  pub vm_id : String
  pub mac : String
  pub created_at : ℕ

pub record IdempotencyRecord : Type 0 where
  pub key : String
  pub job_id : String
  pub request_hash : String
  pub response : List ℕ
  pub status_code : ℕ
  pub created_at : ℕ
  pub expires_at : ℕ

abbrev pub is_terminated : VmStatus → Bool
is_terminated VmStatus.terminated = true
is_terminated _ = false

abbrev pub is_suspended : VmStatus → Bool
is_suspended VmStatus.suspended = true
is_suspended _ = false

abbrev pub is_provisioning : VmStatus → Bool
is_provisioning VmStatus.provisioning = true
is_provisioning _ = false

abbrev pub is_running : VmStatus → Bool
is_running VmStatus.running = true
is_running _ = false

-- v.PowerState == model.PowerRunning
abbrev pub is_power_running : PowerState → Bool
is_power_running PowerState.running = true
is_power_running _ = false

-- running or paused: there is a process to stop, or one to start again
abbrev pub is_power_on : PowerState → Bool
is_power_on PowerState.running = true
is_power_on PowerState.paused = true
is_power_on _ = false

abbrev pub is_quota : BlockReason → Bool
is_quota BlockReason.quota = true
is_quota _ = false

abbrev pub is_bridge : NetworkMode → Bool
is_bridge NetworkMode.bridge = true
is_bridge _ = false
