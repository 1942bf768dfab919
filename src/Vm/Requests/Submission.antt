-- ===== src/Vm/Requests/Submission.antt =====
-- What an accepted job and a new VM leave in the database and in the queue.

use kite_kvm.Vm.Requests.{submit}
use kite_kvm.Store.Jobs.{create_job, job_key, job_row}
use kite_kvm.Store.Vms.{create_vm, vm_key, vm_row}
use kite_kvm.Store.Table.{find-append}
use kite_kvm.Store.Db.{Db}
use kite_kvm.Job.{Queue, enqueue}
use kite_kvm.Model.{Job, JobState, Vm}
use kite_kvm.Prelude.{[], arith, eq_iff, if◌then◌else◌, ok, some, ℕ, ◌++◌, ◌==◌, ◌∷◌, ◌≡◌}

-- the row of a job that was enqueued
abbrev pub queued_row : ℕ → Job → Job
queued_row now j = record j {
  state = JobState.queued;
  created_at = if j.created_at == 0 then now else j.created_at;
}

-- the row of a VM that was created
abbrev pub created_row : ℕ → Vm → Vm
created_row now v = record v {
  created_at = if v.created_at == 0 then now else v.created_at;
  updated_at = now;
}

module _ (j : Job) (db : Db) where
  pub create_job-stores :
      (create_job j db).0 ≡ ok tt
      → (job_row j.id (create_job j db).1
          ≡ some (record j { created_at = if j.created_at == 0 then db.clock else j.created_at }))
        × ((create_job j db).1.vms ≡ db.vms)
  unfolding create_job job_row
  create_job-stores h =
      let row : Job = record j {
        created_at = if j.created_at == 0 then db.clock else j.created_at;
      } in
      (ground (arith, find-append job_key j.id db.jobs row, eq_iff j.id j.id, h), ground arith)

  pub faults-create_job : db.faults ≡ [] → (create_job j db).1.faults ≡ []
  unfolding create_job
  faults-create_job sound = ground arith

module _ (v : Vm) (db : Db) where
  pub create_vm-stores :
      (create_vm v db).0 ≡ ok tt
      → (vm_row v.id (create_vm v db).1 ≡ some (created_row db.clock v))
        × ((create_vm v db).1.clock ≡ db.clock)
  unfolding create_vm vm_row
  create_vm-stores h =
      let row = created_row db.clock v in
      (ground (arith, find-append vm_key v.id db.vms row, eq_iff v.id v.id, h), ground arith)

  pub faults-create_vm : db.faults ≡ [] → (create_vm v db).1.faults ≡ []
  unfolding create_vm
  faults-create_vm sound = ground arith

module _ {H : Type 0} where
  -- A job that was accepted is stored as waiting and scheduled without a delay; nothing else is
  -- written.
  pub submit-accepts :
      (j j' : Job) (q : Queue H)
      → (submit j q).0 ≡ ok j'
      → let after = (submit j q).1 in
        (j' ≡ j)
        × (job_row j.id after.node.db ≡ some (queued_row q.node.db.clock j))
        × (after.node.db.vms ≡ q.node.db.vms)
        × (after.scheduled ≡ q.scheduled ++ (j.id, 0) ∷ [])
  unfolding submit enqueue
  submit-accepts j j' q h =
      let row = record j { state = JobState.queued } in
      let stored = create_job-stores row q.node.db in
      (ground arith, ground (arith, stored, h), ground (arith, stored, h), ground (arith, h))

  pub faults-submit :
      (j : Job) (q : Queue H) → q.node.db.faults ≡ [] → (submit j q).1.node.db.faults ≡ []
  unfolding submit enqueue
  faults-submit j q sound =
      ground (arith, faults-create_job (record j { state = JobState.queued }) q.node.db)
