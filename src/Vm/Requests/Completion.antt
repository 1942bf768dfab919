-- ===== src/Vm/Requests/Completion.antt =====
-- From an accepted Create to a job that is done: Create of internal/vm/service.go, the queue of
-- internal/job/queue.go and RunJob.

use kite_kvm.Job.Outcome.{KeepsJobs}
use kite_kvm.Prelude.Effects.{Exec}
use kite_kvm.Vm.Requests.Accepted.{create_request-IsAccepted}
use kite_kvm.Vm.Requests.Submission.{faults-create_vm, faults-submit}
use kite_kvm.Store.Jobs.{job_row}
use kite_kvm.Store.Vms.{create_vm}
use kite_kvm.Job.Retries.{calls, left, retries_bounded, rounds}
use kite_kvm.Job.{Queue, is_canceled, is_done, max_attempts}
use kite_kvm.Model.{Job, JobType}
use kite_kvm.Vm.Requests.Admission.{admit, committed}
use kite_kvm.Vm.Requests.Create.{CreateRequest, check_create, Drawn, create_request}
use kite_kvm.Vm.Requests.{RequestEnv, new_job, on_node}
use kite_kvm.Store.Vms.Rows.{faults-list_vms, jobs-list_vms}
use kite_kvm.Vm.Dispatch.JobsTable.{Keeps}
use kite_kvm.Node.{Node, on_db}
use kite_kvm.Config.{Flavor, catalog_flavor}
use kite_kvm.Prelude.{
  String, [], arith, ◌≡◌, Error, Option-cases, Result-cases, err, false, inl, inr, ok, some, true,
  ℕ, ◌<◌, ◌≤◌,
}

module _ {H : Type 0} (renv : RequestEnv H) where
  committed-Keeps : Keeps {H = H} committed
  unfolding committed
  committed-Keeps = record {
    jobs = λ n. ground (arith, jobs-list_vms n.db);
    faults = λ n s. ground (arith, faults-list_vms n.db);
  }

  faults-admit : (f : Flavor) (n : Node H) → n.db.faults ≡ [] → (admit renv f n).1.db.faults ≡ []
  unfolding admit
  faults-admit f n s = ground (arith, committed-Keeps.faults n s)

  pub faults-check_create :
      (id : String) (req : CreateRequest) (n : Node H)
      → n.db.faults ≡ []
      → (check_create renv id req n).1.db.faults ≡ []
  unfolding check_create
  faults-check_create id req n s =
      elim (Option-cases (catalog_flavor req.flavor_id renv.env.config.flavors)) [
        | inl e ↦ ground (arith, e, s)
        | inr (f, e) ↦ ground (arith, e, s, faults-admit f n s)
      ]

  faults-create_request :
      (drawn : Drawn) (req : CreateRequest) (q : Queue H)
      → q.node.db.faults ≡ []
      → (create_request renv drawn req q).1.node.db.faults ≡ []
  unfolding create_request
  faults-create_request drawn req q s =
      let checked = on_node (check_create renv drawn.vm_id req) q in
      let sound = faults-check_create drawn.vm_id req q.node s in
      elim (Result-cases (checked.0)) [
        | inl (e, failed) ↦ ground (arith, failed, sound)
        | inr (v, got) ↦
            let inserted = on_node (on_db (create_vm v)) checked.1 in
            let job = new_job drawn.job_id JobType.create v.id [] in
            let still = faults-create_vm v checked.1.node.db sound in
            ground (arith, got, still, faults-submit job inserted.1 still)
      ]

  -- Once Create has succeeded on a database that does not fail, and its job has been taken up three
  -- times or more, by a runner that leaves the table of jobs alone and is never cancelled, whatever
  -- it returns: the job has succeeded or failed, and the runner was called for it at most three
  -- times.
  pub create_request-completes :
      (runner : Job → Exec (Node H) (Unit {0})) (drawn : Drawn) (req : CreateRequest) (q : Queue H)
      (j : Job) (k : ℕ)
      → KeepsJobs runner
      → ((job : Job) (n : Node H) (e : Error) → (runner job n).0 ≡ err e → is_canceled e ≡ false)
      → q.node.db.faults ≡ []
      → (create_request renv drawn req q).0 ≡ ok j
      → 3 ≤ k
      → let accepted = (create_request renv drawn req q).1 in
        (calls runner k drawn.job_id accepted ≤ 3)
        × (done : Job) × (job_row drawn.job_id (rounds runner k drawn.job_id accepted).node.db
            ≡ some done)
        × (is_done done.state ≡ true)
  create_request-completes runner drawn req q j k keeps sure s h enough =
      let accepted = create_request-IsAccepted renv drawn req q j h in
      let few : accepted.job.attempts < max_attempts = omega (arith, accepted.fresh.1) in
      let (bound, settled) =
        retries_bounded runner keeps sure k drawn.job_id accepted.job
          (create_request renv drawn req q).1 (faults-create_request drawn req q s) accepted.waiting
          (inr few) in
      let three : left accepted.job ≡ 3 = ground (arith, accepted.fresh) in
      let (done, row, ended) = settled (omega (arith, three, enough)) in
      (omega (arith, bound, three), done, row, ended)
