-- ===== src/Vm/Dispatch/Reconciled.antt =====
-- What ReconcileOnStart of internal/vm/reconcile.go leaves in the table `vms`.
use kite_kvm.Vm.Dispatch.JobsTable.Runners.{teardown_partial-Keeps}
use kite_kvm.Vm.Lifecycle.Teardown.{teardown_partial-ok}
use kite_kvm.Store.Vms.Rows.{vms-release_ip_by_vm, faults-update_vm}
use kite_kvm.Store.Vms.{set_columns, update_vm, vm_key, list_vms}
use kite_kvm.Store.Table.{update_at, update_at-missing, column, contains-in_order, in_order}
use kite_kvm.Store.Db.{Db}
use kite_kvm.Model.{PowerState, Vm, is_provisioning, VmStatus}
use kite_kvm.Node.{Node}
use kite_kvm.Libvirt.{DomainState, map_power_state}
use kite_kvm.Network.Strategy.{bridge_release, nat_release, network_release}
use kite_kvm.Vm.Dispatch.{reconcile_vm, status_found, reconcile_all, reconcile_on_start}
use kite_kvm.Vm.Links.{teardown_partial}
use kite_kvm.Vm.{Env}
use mathlib.Core.Path.{subst}
use kite_kvm.Prelude.{
  String, All, Bool, Bool-cases, List, Result, [], arith, contains, contains_self, eq_iff, err,
  false, inl, inr, keep, ok, refl, str_eq, sym, true, ℕ, ◌∷◌, ◌≡◌, ◌∙◌,
}

abbrev ids : List Vm → List String
ids = column (λ v. v.id)

abbrev is_stuck : Vm → Bool
is_stuck v = is_provisioning v.status

-- every VM that is provisioning is still to be resolved
abbrev Todo : List String → List Vm → Type 0
Todo todo = All (λ r. is_stuck r ≡ true → contains r.id todo ≡ true)

Todo-update_at :
    (todo : List String) (now : ℕ) (v : Vm) (rows : List Vm)
    → is_stuck v ≡ false
    → Todo (v.id ∷ todo) rows
    → Todo todo (update_at vm_key v.id (set_columns now v) rows)
unfolding update_at contains
Todo-update_at todo now v [] settled h = tt
Todo-update_at todo now v (r ∷ rows) settled h = (
  ground (arith, h.0, settled, eq_iff r.id v.id, eq_iff v.id r.id),
  Todo-update_at todo now v rows settled h.1,
)

Todo-cons :
    (id : String) (todo : List String) (rows : List Vm) → Todo todo rows → Todo (id ∷ todo) rows
unfolding contains
Todo-cons id todo [] h = tt
Todo-cons id todo (r ∷ rows) h = (λ e. ground (arith, h.0 e), Todo-cons id todo rows h.1)

Todo-keep : (rows : List Vm) → Todo (ids (keep is_stuck rows)) rows
unfolding keep contains
Todo-keep [] = tt
Todo-keep (r ∷ rows) = elim (Bool-cases (is_stuck r)) [
  | inl stuck ↦
      let e : ids (keep is_stuck (r ∷ rows)) ≡ r.id ∷ ids (keep is_stuck rows) = rw stuck in
      subst (λ t. Todo t (r ∷ rows)) (sym e)
        (
          λ _. contains_self r.id (ids (keep is_stuck rows)),
          Todo-cons r.id (ids (keep is_stuck rows)) rows (Todo-keep rows),
        )
  | inr rests ↦
      let e : ids (keep is_stuck (r ∷ rows)) ≡ ids (keep is_stuck rows) = rw rests in
      subst (λ t. Todo t (r ∷ rows)) (sym e) (λ stuck. cc (stuck, rests), Todo-keep rows)
]

-- the rows in the order in which they are listed
abbrev listed_vms : List Vm → List Vm
listed_vms = in_order (λ v. v.created_at)

Todo-same :
    (todo todo' : List String) (rows : List Vm)
    → ((id : String) → contains id todo' ≡ contains id todo)
    → Todo todo rows
    → Todo todo' rows
Todo-same todo todo' [] same h = tt
Todo-same todo todo' (r ∷ rows) same h =
    (λ e. same r.id ∙ h.0 e, Todo-same todo todo' rows same h.1)

Todo-listed : (rows : List Vm) → Todo (ids (keep is_stuck (listed_vms rows))) rows
Todo-listed rows =
    Todo-same (ids (keep is_stuck rows)) (ids (keep is_stuck (listed_vms rows))) rows
      (λ id. contains-in_order (λ v. v.created_at) (λ v. v.id) is_stuck id rows) (Todo-keep rows)

None-stuck : (rows : List Vm) → Todo [] rows → All (λ r. is_stuck r ≡ false) rows
unfolding contains
None-stuck [] h = tt
None-stuck (r ∷ rows) h = (ground (arith, h.0), None-stuck rows h.1)

vms-update_vm :
    (v : Vm) (db : Db)
    → db.faults ≡ []
    → (update_vm v db).1.vms ≡ update_at vm_key v.id (set_columns db.clock v) db.vms
unfolding update_vm
vms-update_vm v db sound =
    ground (arith, update_at-missing vm_key v.id (set_columns db.clock v) db.vms)

-- a row that is set to a VM that is not provisioning is resolved
settled_row :
    (w : Vm) (todo : List String) (db : Db)
    → db.faults ≡ []
    → is_stuck w ≡ false
    → Todo (w.id ∷ todo) db.vms
    → Todo todo (update_vm w db).1.vms × ((update_vm w db).1.faults ≡ [])
settled_row w todo db sound settled h = (
  subst (Todo todo) (sym (vms-update_vm w db sound))
      (Todo-update_at todo db.clock w db.vms settled h),
  faults-update_vm w db sound,
)

found_settled : (p : PowerState) → is_provisioning (status_found p) ≡ false
found_settled PowerState.running = refl
found_settled PowerState.paused = refl
found_settled PowerState.shutoff = refl
found_settled PowerState.unknown = refl

module _ {H : Type 0} (env : Env H) where
  network_release_vms :
      (id vm mac : String) (n : Node H)
      → (network_release env.net env.conn env.fuel env.config.networks id vm mac n).1.db.vms
        ≡ n.db.vms
  unfolding network_release nat_release bridge_release
  network_release_vms id vm mac n = ground (arith, vms-release_ip_by_vm vm n.db)

  teardown_partial_vms :
      (v : Vm) (mac : String) (n : Node H) → (teardown_partial env v mac n).1.db.vms ≡ n.db.vms
  unfolding teardown_partial
  teardown_partial_vms v mac n = elim (Bool-cases (str_eq v.seed_path "")) [
    | inl none_built ↦ rw none_built (network_release_vms v.network_id v.id mac _)
    | inr some_built ↦ rw some_built (network_release_vms v.network_id v.id mac _)
  ]

  -- the row of a VM is set to one that is not provisioning
  reconcile_vm_row :
      (v : Vm) (todo : List String) (n : Node H)
      → n.db.faults ≡ []
      → Todo (v.id ∷ todo) n.db.vms
      → Todo todo (reconcile_vm env v n).1.db.vms × ((reconcile_vm env v n).1.db.faults ≡ [])
  unfolding reconcile_vm
  reconcile_vm_row v todo n sound h = go (env.conn.domain_state v.domain_name n.host).0 refl
    where
      go :
          (live : Result DomainState)
          → (env.conn.domain_state v.domain_name n.host).0 ≡ live
          → Todo todo (reconcile_vm env v n).1.db.vms × ((reconcile_vm env v n).1.db.faults ≡ [])
      go (err e) live =
          let n' : Node H = record n { host = (env.conn.domain_state v.domain_name n.host).1 } in
          let torn = teardown_partial env v v.mac n' in
          let done : torn.0 ≡ ok tt = teardown_partial-ok env v v.mac n' in
          let sound' : torn.1.db.faults ≡ [] =
            (teardown_partial-Keeps env v v.mac).faults n' sound in
          let left : Todo (v.id ∷ todo) torn.1.db.vms =
            subst (Todo (v.id ∷ todo)) (sym (teardown_partial_vms v v.mac n')) h in
          let w : Vm = record v { status = VmStatus.error; power_state = PowerState.shutoff } in
          rw (live, done) (settled_row w todo torn.1.db sound' refl left)
      go (ok st) live =
          let w : Vm = record v {
            status = status_found (map_power_state st);
            power_state = map_power_state st;
          } in
          rw live (settled_row w todo n.db sound (found_settled (map_power_state st)) h)

  reconcile_all-Todo :
      (vms : List Vm) (n : Node H)
      → n.db.faults ≡ []
      → Todo (ids (keep is_stuck vms)) n.db.vms
      → Todo [] (reconcile_all env vms n).db.vms
  unfolding reconcile_all keep
  reconcile_all-Todo [] n sound h = h
  reconcile_all-Todo (v ∷ vms) n sound h = elim (Bool-cases (is_stuck v)) [
    | inl stuck ↦
        let e : ids (keep is_stuck (v ∷ vms)) ≡ v.id ∷ ids (keep is_stuck vms) = rw stuck in
        let step =
          reconcile_vm_row v (ids (keep is_stuck vms)) n sound (subst (λ t. Todo t n.db.vms) e h) in
        rw (stuck, reconcile_all) (reconcile_all-Todo vms (reconcile_vm env v n).1 step.1 step.0)
    | inr rests ↦
        let e : ids (keep is_stuck (v ∷ vms)) ≡ ids (keep is_stuck vms) = rw rests in
        rw (rests, reconcile_all)
          (reconcile_all-Todo vms n sound (subst (λ t. Todo t n.db.vms) e h))
  ]

  -- After ReconcileOnStart, with a database that does not fail and whatever the hypervisor answers,
  -- no VM is left provisioning.
  pub reconcile_on_start-settles :
      (n : Node H)
      → n.db.faults ≡ []
      → All (λ v. is_provisioning v.status ≡ false) (reconcile_on_start env n).1.db.vms
  unfolding reconcile_on_start list_vms
  reconcile_on_start-settles n sound = rw sound (
      None-stuck
        (reconcile_all env (listed_vms n.db.vms)
          (record n { db = record (n.db) { faults = [] } })).db.vms
        (reconcile_all-Todo (listed_vms n.db.vms) (record n { db = record (n.db) { faults = [] } })
          refl (Todo-listed n.db.vms)))
