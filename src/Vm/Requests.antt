-- ===== src/Vm/Requests.antt =====
-- The requests of the VM service, which run before a job is stored: enqueueOp, enqueueVMJob,
-- Terminate, PasswordReset, SetHostname, Rebuild, Resize and those of snapshots. The state is the
-- queue; a job's id is drawn by uuid.NewString.
pub mod Validation
pub mod Admission
pub mod Create
pub mod Listing
pub mod Submission
pub mod Chosen
pub mod Accepted
pub mod Completion
pub mod KeyTable
use kite_kvm.Vm.Requests.Validation.{validate_hostname, validate_password, validate_ssh_keys}
use kite_kvm.Network.Strategy.{first_chars, is_host_char}
use kite_kvm.Store.Vms.{get_vm, update_vm}
use kite_kvm.Vm.{Env, load_operable}
use kite_kvm.Job.{Queue, enqueue}
use kite_kvm.Node.{Node, on_db, on_host}
use kite_kvm.Libvirt.{SnapshotInfo, map_power_state}
use kite_kvm.Config.Settings.{Capacity}
use kite_kvm.Config.{Flavor, Image, catalog_flavor, catalog_image}
use kite_kvm.Model.{Job, JobState, JobType, Vm, VmStatus, is_power_running}
use kite_kvm.Prelude.Floats.{FloatLib}
use kite_kvm.Prelude.Effects.{Exec, lift, pure, raise, ◌>>=◌, ◌>>◌}
use Prim.Native.Char.{code}
use Prim.Native.String.{◌++◌ as str_append}
use kite_kvm.Prelude.{
  String, Bool, Error, List, Option, [], err, false, flavor_not_found, if◌then◌else◌,
  image_not_found, invalid_request, ltb, none, not, not_found, ok, some, str_eq, true, vm_not_found,
  vm_not_running, ℕ, ◌&&◌, ◌==◌, ◌||◌, ◌∷◌,
}

-- what the requests use besides the service's environment
pub record RequestEnv (H : Type 0) : Type 0 where
  pub env : Env H
  pub capacity : Capacity
  pub floats : FloatLib
  pub parses_key : String → Bool  -- ssh.ParseAuthorizedKey gives no error

-- job.New, and the payload
unfoldable pub new_job : String → JobType → String → List (String × String) → Job
new_job id typ vm_id payload = record {
  id = id;
  typ = typ;
  vm_id = vm_id;
  state = JobState.queued;
  error = none;
  idempotency_key = "";
  payload = payload;
  attempts = 0;
  created_at = 0;
  started_at = none;
  finished_at = none;
}

module _ {H : Type 0} where
  -- a call that does not touch the queue
  abbrev pub on_node : {A : Type 0} → Exec (Node H) A → Exec (Queue H) A
  on_node m q = ((m q.node).0, record q { node = (m q.node).1 })

  -- if err := s.queue.Enqueue(ctx, j); err != nil { return nil, err }; return j, nil
  unfoldable pub submit : Job → Exec (Queue H) Job
  submit j = do enqueue j; pure j

  -- enqueueOp, and enqueueVMJob, whose job has the id of the request: it is that of the row
  unfoldable pub enqueue_op : String → String → JobType → Exec (Queue H) Job
  enqueue_op job_id id typ = do v ← on_node (load_operable id); submit (new_job job_id typ v.id [])

  -- if errors.Is(err, store.ErrNotFound) { return nil, ErrVMNotFound }
  unfoldable pub vm_or_not_found : String → Exec (Node H) Vm
  vm_or_not_found id n =
      let got = on_db (get_vm id) n in
      elim (got.0) [
        | err Error.not_found ↦ (err vm_not_found, got.1)
        | err e ↦ (err e, got.1)
        | ok v ↦ (ok v, got.1)
      ]

  -- Terminate
  unfoldable pub terminate : String → String → Exec (Queue H) Job
  terminate job_id id = do
    on_node (vm_or_not_found id)
    submit (new_job job_id JobType.terminate id [])

  -- PasswordReset, with enqueueReseed
  unfoldable pub password_reset : String → String → String → Exec (Queue H) Job
  password_reset job_id id password = if str_eq password "" then raise invalid_request else do
    lift (validate_password password)
    v ← on_node (load_operable id)
    on_node (on_db (update_vm (record v { password = password })))
    submit (new_job job_id JobType.password v.id [])

-- the runes that sanitizeName keeps
abbrev pub is_name_char : ℕ → Bool
is_name_char r = is_host_char r || r == b'_' || r == b'.'

-- sanitizeName
unfoldable pub sanitize_name : String → String
sanitize_name String.[] = ""
sanitize_name (String.◌∷◌ c s) =
    let rest = sanitize_name s in if is_name_char (code c) then String.◌∷◌ c rest else rest

-- RebuildRequest; `ssh_keys` is none for nil
pub record RebuildRequest : Type 0 where
  pub image_id : String
  pub password : String
  pub ssh_keys : Option (List String)

abbrev pub keys_of : Option (List String) → List String
keys_of none = []
keys_of (some keys) = keys

abbrev pub keep_or : Option (List String) → List String → List String
keep_or none keys = keys
keep_or (some given) keys = given

-- if req.ImageID != "" { if _, ok := s.catalog.Image(…) … }
unfoldable pub known_image : String → List Image → Bool
known_image id images = elim (catalog_image id images) [ none ↦ false | some i ↦ true ]

module _ {H : Type 0} (renv : RequestEnv H) where
  -- SetHostname, with enqueueReseed
  unfoldable pub set_hostname : String → String → String → Exec (Queue H) Job
  set_hostname job_id id given = do
    let name = renv.env.net.trim_space given
    lift (validate_hostname name)
    v ← on_node (load_operable id)
    on_node (on_db (update_vm (record v { hostname = name })))
    submit (new_job job_id JobType.hostname v.id [])

  -- the record that Rebuild writes
  abbrev pub rebuilt : RebuildRequest → Vm → Vm
  rebuilt req v = record v {
    image_id = if str_eq req.image_id "" then v.image_id else req.image_id;
    password = if str_eq req.password "" then v.password else req.password;
    ssh_keys = keep_or req.ssh_keys v.ssh_keys;
    status = VmStatus.provisioning;
  }

  -- Rebuild
  unfoldable pub rebuild : String → String → RebuildRequest → Exec (Queue H) Job
  rebuild job_id id req = do
    lift (validate_password req.password)
    lift (validate_ssh_keys renv.env.net.trim_space renv.parses_key (keys_of req.ssh_keys))
    v ← on_node (load_operable id)
    if not (str_eq req.image_id "") && not (known_image req.image_id renv.env.config.images)
        then raise image_not_found
        else do
          on_node (on_db (update_vm (rebuilt req v)))
          submit (new_job job_id JobType.rebuild id [])

  -- the record that Resize writes
  abbrev pub resized : Flavor → Vm → Vm
  resized f v = record v {
    flavor_id = f.id;
    vcpus = f.vcpus;
    memory_mb = f.memory_mb;
    disk_gb = f.disk_gb;
    status = VmStatus.provisioning;
  }

  -- Resize
  unfoldable pub resize : String → String → String → Exec (Queue H) Job
  resize job_id id flavor_id = do
    v ← on_node (load_operable id)
    elim (catalog_flavor flavor_id renv.env.config.flavors) [
      | none ↦ raise flavor_not_found
      | some f ↦ if ltb f.disk_gb v.disk_gb then raise invalid_request else do
        on_node (on_db (update_vm (resized f v)))
        submit (new_job job_id JobType.resize id [])
    ]

  -- SnapshotList
  unfoldable pub snapshot_list : String → Exec (Node H) (List SnapshotInfo)
  snapshot_list id = do v ← load_operable id; on_host (renv.env.conn.list_snapshots v.domain_name)

  -- "snap-" + uuid.NewString()[:8] for a name that is blank
  abbrev pub snapshot_name : String → String → String
  snapshot_name given drawn =
      if str_eq (sanitize_name given) ""
      then str_append "snap-" (first_chars 8 drawn)
      else sanitize_name given

  -- SnapshotCreate, with enqueueSnapshotJob
  unfoldable pub snapshot_create : String → String → String → String → String → Exec (Queue H) Job
  snapshot_create job_id drawn id name description = do
    v ← on_node (load_operable id)
    submit (
        new_job job_id JobType.snapshot_create v.id
          (("name", snapshot_name name drawn) ∷ ("description", description) ∷ []))

  -- SnapshotDelete and SnapshotRevert
  unfoldable pub snapshot_op : String → JobType → String → String → Exec (Queue H) Job
  snapshot_op job_id typ id name = do
    v ← on_node (load_operable id)
    if str_eq name ""
        then raise invalid_request
        else submit (new_job job_id typ v.id (("name", name) ∷ []))

  -- ConsoleEndpoint
  unfoldable pub console_endpoint : String → Exec (Node H) (String × ℕ)
  console_endpoint id = do
    v ← load_operable id
    st ← on_host (renv.env.conn.domain_state v.domain_name)
    if not (is_power_running (map_power_state st))
        then raise vm_not_running
        else on_host (renv.env.conn.domain_vnc_address v.domain_name)
