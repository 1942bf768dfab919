-- ===== src/Vm/Dispatch/JobsTable/RunJob.antt =====
-- RunJob, with the runners of the network block and of snapshots: none writes the table `jobs`.
use kite_kvm.Job.Outcome.{KeepsJobs}
use kite_kvm.Vm.Dispatch.JobsTable.Provision.{
  run_create-Keeps, run_rebuild-Keeps, run_reseed-Keeps, run_resize-Keeps,
}
use kite_kvm.Vm.Dispatch.JobsTable.Runners.{
  apply_link-Keeps, run_power-Keeps, run_suspend-Keeps, run_terminate-Keeps, run_unsuspend-Keeps,
}
use kite_kvm.Vm.Dispatch.JobsTable.{
  Keeps, attempt-Keeps, get-Keeps, if-Keeps, on_host-Keeps, pure-Keeps, result-Keeps, then-Keeps,
  update-Keeps,
}
use kite_kvm.Vm.Dispatch.{
  payload_of, reverted, run_job, run_snapshot_create, run_snapshot_delete, run_snapshot_revert,
}
use kite_kvm.Vm.Traffic.{
  after_reset, blocked_for, forget_counters, has_quota_block, run_net_block, run_net_unblock,
  run_traffic_reset, unblocked,
}
use kite_kvm.Vm.Lifecycle.{op_reboot, op_shutdown, op_start, op_stop}
use kite_kvm.Vm.{Env, Fresh}
use kite_kvm.Node.{Node}
use kite_kvm.Model.{BlockReason, Job, JobType}
use kite_kvm.Prelude.{String, ap, ok, refl, ◌∙◌, ◌≡◌}

module _ {H : Type 0} (env : Env H) where
  run_net_block-Keeps : (id : String) → Keeps (run_net_block env id)
  unfolding run_net_block
  run_net_block-Keeps id = then-Keeps (get-Keeps id) λ v.
      then-Keeps (attempt-Keeps (apply_link-Keeps env (blocked_for BlockReason.manual v)))
        λ _. update-Keeps (blocked_for BlockReason.manual v)

  run_net_unblock-Keeps : (id : String) → Keeps (run_net_unblock env id)
  unfolding run_net_unblock
  run_net_unblock-Keeps id = then-Keeps (get-Keeps id) λ v.
      then-Keeps (attempt-Keeps (apply_link-Keeps env (unblocked v)))
        λ _. update-Keeps (unblocked v)

  state_only-Keeps :
      {A : Type 0} (f : Node H → A) (g : Node H → Node H)
      → ((n : Node H) → (g n).db ≡ n.db)
      → Keeps (λ n. (ok (f n), g n))
  state_only-Keeps f g same = record {
    jobs = λ n. ap (λ db. db.jobs) (same n);
    faults = λ n s. ap (λ db. db.faults) (same n) ∙ s;
  }

  run_traffic_reset-Keeps : (id : String) → Keeps (run_traffic_reset env id)
  unfolding run_traffic_reset
  run_traffic_reset-Keeps id = then-Keeps (get-Keeps id) λ v.
      then-Keeps (state_only-Keeps (λ n. n.db.clock) (λ n. n) (λ n. refl)) λ now.
        let v' = after_reset env now v in
        then-Keeps
          (if-Keeps (has_quota_block v) (attempt-Keeps (apply_link-Keeps env v'))
            (pure-Keeps (ok tt)))
          λ _.
            then-Keeps
              (state_only-Keeps (λ n. tt)
                (λ n. record n { traffic_last = forget_counters v.domain_name n.traffic_last })
                (λ n. refl))
              λ _. update-Keeps v'

  run_snapshot_create-Keeps : (j : Job) → Keeps (run_snapshot_create env j)
  unfolding run_snapshot_create
  run_snapshot_create-Keeps j = then-Keeps (get-Keeps j.vm_id) λ v. on_host-Keeps (
      env.conn.create_snapshot v.domain_name (payload_of "name" j.payload)
        (payload_of "description" j.payload))

  run_snapshot_delete-Keeps : (j : Job) → Keeps (run_snapshot_delete env j)
  unfolding run_snapshot_delete
  run_snapshot_delete-Keeps j =
      then-Keeps (get-Keeps j.vm_id)
        λ v. on_host-Keeps (env.conn.delete_snapshot v.domain_name (payload_of "name" j.payload))

  run_snapshot_revert-Keeps : (j : Job) → Keeps (run_snapshot_revert env j)
  unfolding run_snapshot_revert
  run_snapshot_revert-Keeps j = then-Keeps (get-Keeps j.vm_id) λ v.
      then-Keeps
        (on_host-Keeps (env.conn.revert_snapshot v.domain_name (payload_of "name" j.payload)))
        λ _.
          then-Keeps (attempt-Keeps (on_host-Keeps (env.conn.domain_state v.domain_name)))
            λ live. result-Keeps live (λ e. pure-Keeps tt) λ st. update-Keeps (reverted env st v)

  run_job-Keeps : (fresh : Fresh) (j : Job) → Keeps (run_job env fresh j)
  unfolding run_job run_snapshot_create run_snapshot_delete run_snapshot_revert
  run_job-Keeps fresh j = by_type (j.typ) refl
    where
      by_type : (t : JobType) → j.typ ≡ t → Keeps (run_job env fresh j)
      by_type JobType.create e = rw e (run_create-Keeps env fresh j.vm_id)
      by_type JobType.start e = rw e (run_power-Keeps env j.vm_id op_start)
      by_type JobType.shutdown e = rw e (run_power-Keeps env j.vm_id op_shutdown)
      by_type JobType.reboot e = rw e (run_power-Keeps env j.vm_id op_reboot)
      by_type JobType.stop e = rw e (run_power-Keeps env j.vm_id op_stop)
      by_type JobType.terminate e = rw e (run_terminate-Keeps env j.vm_id)
      by_type JobType.suspend e = rw e (run_suspend-Keeps env j.vm_id)
      by_type JobType.unsuspend e = rw e (run_unsuspend-Keeps env j.vm_id)
      by_type JobType.password e = rw e (run_reseed-Keeps env fresh j.vm_id)
      by_type JobType.hostname e = rw e (run_reseed-Keeps env fresh j.vm_id)
      by_type JobType.rebuild e = rw e (run_rebuild-Keeps env j.vm_id)
      by_type JobType.resize e = rw e (run_resize-Keeps env fresh j.vm_id)
      by_type JobType.snapshot_create e = rw e (run_snapshot_create-Keeps j)
      by_type JobType.snapshot_delete e = rw e (run_snapshot_delete-Keeps j)
      by_type JobType.snapshot_revert e = rw e (run_snapshot_revert-Keeps j)
      by_type JobType.net_block e = rw e (run_net_block-Keeps j.vm_id)
      by_type JobType.net_unblock e = rw e (run_net_unblock-Keeps j.vm_id)
      by_type JobType.traffic_reset e = rw e (run_traffic_reset-Keeps j.vm_id)

  -- RunJob, whatever the job, whatever it draws at random and whatever the hypervisor answers,
  -- leaves the table `jobs` as it was and a working database working.
  pub run_job-KeepsJobs : (draw : Job → Fresh) → KeepsJobs (λ j. run_job env (draw j) j)
  run_job-KeepsJobs draw = record {
    jobs = λ j n. (run_job-Keeps (draw j) j).jobs n;
    faults = λ j n s. (run_job-Keeps (draw j) j).faults n s;
  }
