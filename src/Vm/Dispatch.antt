-- ===== src/Vm/Dispatch.antt =====
-- The runners of snapshots, RunJob and ReconcileOnStart of internal/vm.
pub mod Reconciled
pub mod JobsTable
use kite_kvm.Vm.Provisioning.{run_create, run_rebuild, run_reseed, run_resize}
use kite_kvm.Vm.Traffic.{run_net_block, run_net_unblock, run_traffic_reset}
use kite_kvm.Vm.Lifecycle.{
  op_reboot, op_shutdown, op_start, op_stop, run_power, run_suspend, run_terminate, run_unsuspend,
}
use kite_kvm.Vm.Links.{teardown_partial}
use kite_kvm.Vm.{Env, Fresh}
use kite_kvm.Node.{Node, on_db, on_host}
use kite_kvm.Libvirt.{map_power_state, DomainState}
use kite_kvm.Store.Vms.{get_vm, list_vms, update_vm}
use kite_kvm.Model.{Job, JobType, PowerState, Vm, VmStatus, is_provisioning}
use kite_kvm.Prelude.Effects.{Exec, attempt, pure, ◌>>=◌, ◌>>◌}
use kite_kvm.Prelude.{String, List, [], err, if◌then◌else◌, ok, str_eq, ◌∷◌}

-- j.Payload[key]
unfoldable pub payload_of : String → List (String × String) → String
payload_of key [] = ""
payload_of key ((k, value) ∷ m) = if str_eq k key then value else payload_of key m

abbrev pub status_reverted : PowerState → VmStatus → VmStatus
status_reverted PowerState.running s = VmStatus.running
status_reverted PowerState.shutoff s = VmStatus.stopped
status_reverted _ s = s

-- the statuses of ReconcileOnStart
abbrev pub status_found : PowerState → VmStatus
status_found PowerState.running = VmStatus.running
status_found PowerState.paused = VmStatus.suspended
status_found _ = VmStatus.stopped

module _ {H : Type 0} (env : Env H) where
  unfoldable pub run_snapshot_create : Job → Exec (Node H) (Unit {0})
  run_snapshot_create j = do
    v ← on_db (get_vm j.vm_id)
    on_host (
        env.conn.create_snapshot v.domain_name (payload_of "name" j.payload)
          (payload_of "description" j.payload))

  unfoldable pub run_snapshot_delete : Job → Exec (Node H) (Unit {0})
  run_snapshot_delete j = do
    v ← on_db (get_vm j.vm_id)
    on_host (env.conn.delete_snapshot v.domain_name (payload_of "name" j.payload))

  -- the record after a revert
  abbrev pub reverted : DomainState → Vm → Vm
  reverted st v = record v {
    power_state = map_power_state st;
    status = status_reverted (map_power_state st) v.status;
  }

  unfoldable pub run_snapshot_revert : Job → Exec (Node H) (Unit {0})
  run_snapshot_revert j = do
    v ← on_db (get_vm j.vm_id)
    on_host (env.conn.revert_snapshot v.domain_name (payload_of "name" j.payload))
    live ← attempt (on_host (env.conn.domain_state v.domain_name))
    elim live [ err e ↦ pure tt | ok st ↦ on_db (update_vm (reverted st v)) ]

  -- RunJob
  unfoldable pub run_job : Fresh → Job → Exec (Node H) (Unit {0})
  run_job fresh j = elim (j.typ) [
    | JobType.create ↦ run_create env fresh j.vm_id
    | JobType.start ↦ run_power env j.vm_id op_start
    | JobType.shutdown ↦ run_power env j.vm_id op_shutdown
    | JobType.reboot ↦ run_power env j.vm_id op_reboot
    | JobType.stop ↦ run_power env j.vm_id op_stop
    | JobType.terminate ↦ run_terminate env j.vm_id
    | JobType.suspend ↦ run_suspend env j.vm_id
    | JobType.unsuspend ↦ run_unsuspend env j.vm_id
    | JobType.password ↦ run_reseed env fresh j.vm_id
    | JobType.hostname ↦ run_reseed env fresh j.vm_id
    | JobType.rebuild ↦ run_rebuild env j.vm_id
    | JobType.resize ↦ run_resize env fresh j.vm_id
    | JobType.snapshot_create ↦ run_snapshot_create j
    | JobType.snapshot_delete ↦ run_snapshot_delete j
    | JobType.snapshot_revert ↦ run_snapshot_revert j
    | JobType.net_block ↦ run_net_block env j.vm_id
    | JobType.net_unblock ↦ run_net_unblock env j.vm_id
    | JobType.traffic_reset ↦ run_traffic_reset env j.vm_id
  ]

  -- one VM of ReconcileOnStart
  unfoldable pub reconcile_vm : Vm → Exec (Node H) (Unit {0})
  reconcile_vm v = do
    live ← attempt (on_host (env.conn.domain_state v.domain_name))
    elim live [
      | err e ↦ do
        teardown_partial env v v.mac
        on_db (update_vm (record v { status = VmStatus.error; power_state = PowerState.shutoff }))
      | ok st ↦ on_db (
          update_vm (record v {
            status = status_found (map_power_state st);
            power_state = map_power_state st;
          }))
    ]

  -- the loop: an error of UpdateVM is logged
  unfoldable pub reconcile_all : List Vm → Node H → Node H
  reconcile_all [] n = n
  reconcile_all (v ∷ vms) n =
      let done = if is_provisioning v.status then (reconcile_vm v n).1 else n in
      reconcile_all vms done

  unfoldable pub reconcile_on_start : Exec (Node H) (Unit {0})
  reconcile_on_start = do vms ← on_db list_vms; λ n. (ok tt, reconcile_all vms n)
