-- ===== src/Vm/Requests/Listing.antt =====
-- List, Get and Status of internal/vm/service.go: what is read, with the power state that libvirt
-- reports and that is not stored.

use kite_kvm.Store.Vms.{list_vms}
use kite_kvm.Node.{Node, on_db, on_host}
use kite_kvm.Libvirt.{DomainState, DomainStats, map_power_state}
use kite_kvm.Model.{PowerState, Vm, VmStatus, is_terminated}
use kite_kvm.Prelude.Effects.{Exec, attempt, pure, ◌>>=◌}
use kite_kvm.Prelude.{
  pos, negsuc, zero, suc, String, Bool, List, Option, [], drop, err, if◌then◌else◌, keep, length,
  min, none, ok, some, str_eq, take, ℕ, ℤ, ◌&&◌, ◌||◌, ◌∷◌,
}
use kite_kvm.Vm.Requests.{RequestEnv, vm_or_not_found}

pub record ListOptions : Type 0 where
  pub limit : ℤ
  pub offset : ℤ
  pub status : String
  pub network_id : String

pub record ListResult : Type 0 where
  pub vms : List Vm
  pub total : ℕ
  pub limit : ℕ
  pub offset : ℕ

pub record StatusInfo : Type 0 where
  pub id : String
  pub status : VmStatus
  pub power_state : PowerState

abbrev pub status_text : VmStatus → String
status_text VmStatus.provisioning = "provisioning"
status_text VmStatus.running = "running"
status_text VmStatus.stopped = "stopped"
status_text VmStatus.suspended = "suspended"
status_text VmStatus.error = "error"
status_text VmStatus.terminated = "terminated"

-- the two tests of the loop of List
abbrev pub is_listed : ListOptions → Vm → Bool
is_listed opts v =
    (str_eq opts.status "" || str_eq (status_text v.status) opts.status)
    && (str_eq opts.network_id "" || str_eq v.network_id opts.network_id)

-- a limit that is not above 0 is 100, and none is above 500
abbrev pub limit_of : ℤ → ℕ
limit_of (pos zero) = 100
limit_of (pos (suc n)) = min (suc n) 500
limit_of (negsuc n) = 100

abbrev pub offset_of : ℤ → ℕ
offset_of (pos n) = n
offset_of (negsuc n) = 0

-- filtered[offset:end], or no rows from an offset that is too high
unfoldable pub page_of : ℕ → ℕ → List Vm → List Vm
page_of limit offset filtered = take limit (drop offset filtered)

-- byName[v.DomainName]: a later entry of a name replaces an earlier one
unfoldable pub state_of : String → List DomainStats → Option DomainState
state_of name [] = none
state_of name (st ∷ stats) = elim (state_of name stats) [
  | some later ↦ some later
  | none ↦ if str_eq st.name name then some st.state else none
]

abbrev pub with_state : Option DomainState → Vm → Vm
with_state none v = v
with_state (some st) v = record v { power_state = map_power_state st }

-- the loop of batchReconcilePower
unfoldable pub with_states : List DomainStats → List Vm → List Vm
with_states stats [] = []
with_states stats (v ∷ vms) =
    let rest = with_states stats vms in
    if is_terminated v.status then v ∷ rest else with_state (state_of v.domain_name stats) v ∷ rest

module _ {H : Type 0} (renv : RequestEnv H) where
  -- batchReconcilePower
  unfoldable pub batch_reconcile_power : List Vm → Exec (Node H) (List Vm)
  batch_reconcile_power [] = pure []
  batch_reconcile_power (v ∷ vms) = do
    stats ← attempt (on_host renv.env.conn.all_domain_stats)
    elim stats [ err e ↦ pure (v ∷ vms) | ok found ↦ pure (with_states found (v ∷ vms)) ]

  -- List
  unfoldable pub list_page : ListOptions → Exec (Node H) ListResult
  list_page opts = do
    all ← on_db list_vms
    let filtered = keep (is_listed opts) all
    page ← batch_reconcile_power (page_of (limit_of opts.limit) (offset_of opts.offset) filtered)
    pure (record {
      vms = page;
      total = length filtered;
      limit = limit_of opts.limit;
      offset = offset_of opts.offset;
    })

  -- reconcilePower
  unfoldable pub reconcile_power : Vm → Exec (Node H) Vm
  reconcile_power v = if is_terminated v.status then pure v else do
    live ← attempt (on_host (renv.env.conn.domain_state v.domain_name))
    elim live [ err e ↦ pure v | ok st ↦ pure (record v { power_state = map_power_state st }) ]

  -- Get
  unfoldable pub get_request : String → Exec (Node H) Vm
  get_request id = do v ← vm_or_not_found id; reconcile_power v

  -- Status
  unfoldable pub status_request : String → Exec (Node H) StatusInfo
  status_request id = do
    v ← get_request id
    pure (record { id = v.id; status = v.status; power_state = v.power_state })
