-- ===== src/Agent/Start.antt =====
-- What the start of the agent leaves behind a crash.
use kite_kvm.Store.Table.{in_order}
use kite_kvm.Vm.Dispatch.Reconciled.{reconcile_on_start-settles}
use kite_kvm.Vm.Dispatch.JobsTable.{
  Keeps, attempt-Keeps, on_host-Keeps, result-Keeps, then-Keeps, update-Keeps,
}
use kite_kvm.Store.Vms.{list_vms}
use kite_kvm.Store.Jobs.Rows.{job_row_of_jobs}
use kite_kvm.Job.Recovery.{
  is_queued_job, is_running_job, recover-faults, recover_settles, scheduled_ids,
}
use kite_kvm.Job.{Queue, recover}
use kite_kvm.Model.{Job, Vm, is_provisioning, PowerState, VmStatus}
use kite_kvm.Agent.{start_agent}
use kite_kvm.Vm.Dispatch.JobsTable.Runners.{teardown_partial-Keeps}
use kite_kvm.Vm.Dispatch.{reconcile_vm, reconcile_all, reconcile_on_start, status_found}
use kite_kvm.Vm.{Env}
use kite_kvm.Node.{Node}
use kite_kvm.Store.Jobs.{job_row}
use kite_kvm.Libvirt.{map_power_state}
use kite_kvm.Prelude.{
  All, Bool-cases, List, String, [], contains, false, inl, inr, refl, some, sym, true, ◌∙◌, ◌∷◌,
  ◌≡◌,
}

module _ {H : Type 0} (env : Env H) where
  reconcile_vm-Keeps : (v : Vm) → Keeps (reconcile_vm env v)
  unfolding reconcile_vm
  reconcile_vm-Keeps v =
      then-Keeps (attempt-Keeps (on_host-Keeps (env.conn.domain_state v.domain_name))) λ live.
        result-Keeps live
          (λ e. then-Keeps (teardown_partial-Keeps env v v.mac) λ _.
            update-Keeps (record v { status = VmStatus.error; power_state = PowerState.shutoff }))
          (λ st. update-Keeps (record v {
            status = status_found (map_power_state st);
            power_state = map_power_state st;
          }))

  reconcile_all_jobs : (vms : List Vm) (n : Node H) → (reconcile_all env vms n).db.jobs ≡ n.db.jobs
  unfolding reconcile_all
  reconcile_all_jobs [] n = refl
  reconcile_all_jobs (v ∷ vms) n = elim (Bool-cases (is_provisioning v.status)) [
    | inl h ↦
        rw (h, reconcile_all)
          (reconcile_all_jobs vms (reconcile_vm env v n).1 ∙ (reconcile_vm-Keeps v).jobs n)
    | inr h ↦ rw (h, reconcile_all) (reconcile_all_jobs vms n)
  ]

  reconcile_on_start_jobs :
      (n : Node H) → n.db.faults ≡ [] → (reconcile_on_start env n).1.db.jobs ≡ n.db.jobs
  unfolding reconcile_on_start list_vms
  reconcile_on_start_jobs n sound = rw sound (
      reconcile_all_jobs (in_order (λ v. v.created_at) n.db.vms)
        (record n { db = record (n.db) { faults = [] } }))

  -- After the start of the agent, with a database that does not fail and whatever the hypervisor
  -- answers, if no worker takes up a job meanwhile: no job is left running, every job that waits in
  -- the table is scheduled, and no VM is left provisioning.
  pub start_agent-settles :
      (q : Queue H)
      → q.node.db.faults ≡ []
      → All (λ r. is_running_job r ≡ false) (start_agent env q).node.db.jobs
        × ((id : String) (j : Job)
            → job_row id (start_agent env q).node.db ≡ some j
            → is_queued_job j ≡ true
            → contains id (scheduled_ids (start_agent env q).scheduled) ≡ true)
        × All (λ v. is_provisioning v.status ≡ false) (start_agent env q).node.db.vms
  unfolding start_agent
  start_agent-settles q sound =
      let sound' = recover-faults q sound in
      let same = reconcile_on_start_jobs (recover q).node sound' in
      let (none_running, scheduled) = recover_settles q sound in
      (
        rw same none_running,
        λ id j row waits.
            scheduled id j
              (sym (
                  job_row_of_jobs id (reconcile_on_start env (recover q).node).1.db
                    (recover q).node.db same)
                ∙ row)
              waits,
        reconcile_on_start-settles env (recover q).node sound',
      )
