-- ===== src/Job/Outcome.antt =====
-- What one round of a worker makes of a job.
use kite_kvm.Prelude.Effects.{Exec}
use mathlib.Core.List.{append-nil}
use kite_kvm.Prelude.{
  [], false, ok, some, ℕ, ◌∙◌, ◌≡◌, arith, Bool, Bool-cases, List, Result, String, err,
  if◌then◌else◌, inl, inr, ltb, none, refl, sym, ◌++◌, ◌+◌, ◌||◌, ◌∷◌, other, true,
}
use kite_kvm.Model.{Job, JobState}
use kite_kvm.Store.Jobs.{get_job, job_row}
use kite_kvm.Node.{Node}
use kite_kvm.Job.{begin, is_done, Queue, backoff, is_canceled, max_attempts, settle, process}
use kite_kvm.Store.Jobs.Rows.{
  clock-get_job, faults-get_job, get_job-found, job_row-get_job, job_row-update_job, update_job-ok,
  clock-update_job, faults-update_job, jobs-get_job, job_row_of_jobs,
}

-- what `process` writes before it calls the runner
abbrev pub marked : ℕ → Job → Job
marked now j = record j { state = JobState.running; started_at = some now }

module _ {H : Type 0} where
  module _ (n : Node H) (j : Job) (sound : n.db.faults ≡ [])
      (row : job_row j.id n.db ≡ some j) where
    -- a job that is not done is marked running and handed to the runner
    pub begin-ok :
        is_done j.state ≡ false
        → ((begin j.id n).0 ≡ ok (marked n.db.clock j))
          × (job_row j.id (begin j.id n).1.db ≡ some (marked n.db.clock j))
          × ((begin j.id n).1.db.faults ≡ [])
          × ((begin j.id n).1.db.clock ≡ n.db.clock)
    unfolding begin
    begin-ok waiting =
        let got = get_job-found j.id n.db sound j row in
        let db = (get_job j.id n.db).1 in
        let still : job_row j.id db ≡ some j = job_row-get_job j.id j.id n.db ∙ row in
        let sound' = faults-get_job j.id n.db sound in
        let now = clock-get_job j.id n.db in
        let started = marked db.clock j in
        let wrote = update_job-ok started j db sound' still in
        let after = job_row-update_job started j db sound' still in
        let sound'' = faults-update_job started db sound' in
        let now' = clock-update_job started db in
        (
          ground (arith, got, waiting, wrote, now),
          ground (arith, got, waiting, wrote, now, after),
          ground (arith, got, waiting, wrote, sound''),
          ground (arith, got, waiting, wrote, now, now'),
        )

-- what a round leaves in the job's row, from the row as it was handed to the runner
abbrev pub verdict : Bool → ℕ → Job → Result (Unit {0}) → Job
verdict stopping now j (ok _) = record j { state = JobState.succeeded; finished_at = some now }
verdict stopping now j (err e) =
    if is_canceled e || stopping
    then j
    else if ltb (j.attempts + 1) max_attempts
    then record j { attempts = j.attempts + 1; state = JobState.queued; started_at = none }
    else record j { state = JobState.failed; error = some e; finished_at = some now }

-- what a round schedules
abbrev pub rescheduled : Bool → Job → Result (Unit {0}) → List (String × ℕ)
rescheduled stopping j (ok _) = []
rescheduled stopping j (err e) =
    if is_canceled e || stopping
    then []
    else if ltb (j.attempts + 1) max_attempts
    then (j.id, backoff (j.attempts + 1)) ∷ []
    else []

-- What the queue relies on of the runner: it works on VMs, and leaves the table of jobs alone.
pub record KeepsJobs {H : Type 0} (runner : Job → Exec (Node H) (Unit {0})) : Type 0 where
  pub jobs : (j : Job) (n : Node H) → (runner j n).1.db.jobs ≡ n.db.jobs
  pub faults : (j : Job) (n : Node H) → n.db.faults ≡ [] → (runner j n).1.db.faults ≡ []

module _ {H : Type 0} where
  settle-verdict :
      (stopping : Bool) (j : Job) (r : Result (Unit {0})) (q : Queue H)
      → q.node.db.faults ≡ []
      → job_row j.id q.node.db ≡ some j
      → (job_row j.id (settle stopping j r q).node.db ≡ some (verdict stopping q.node.db.clock j r))
        × ((settle stopping j r q).scheduled ≡ q.scheduled ++ rescheduled stopping j r)
        × ((settle stopping j r q).node.db.faults ≡ [])
  unfolding settle
  settle-verdict stopping j (ok _) q sound row =
      let now = q.node.db.clock in
      let done = verdict stopping now j (ok tt) in
      (
        job_row-update_job done j q.node.db sound row,
        sym (append-nil q.scheduled),
        faults-update_job done q.node.db sound,
      )
  settle-verdict stopping j (err e) q sound row =
      let now = q.node.db.clock in
      let again = record j {
        attempts = j.attempts + 1;
        state = JobState.queued;
        started_at = none;
      } in
      let lost = record j { state = JobState.failed; error = some e; finished_at = some now } in
      elim (Bool-cases (is_canceled e || stopping)) [
        | inl interrupted ↦ rw interrupted (row, sym (append-nil q.scheduled), sound)
        | inr on ↦ elim (Bool-cases (ltb (j.attempts + 1) max_attempts)) [
          | inl left ↦
              let wrote = update_job-ok again j q.node.db sound row in
              rw (on, left, wrote)
                (
                  job_row-update_job again j q.node.db sound row,
                  refl,
                  faults-update_job again q.node.db sound,
                )
          | inr used ↦
              rw (on, used)
                (
                  job_row-update_job lost j q.node.db sound row,
                  sym (append-nil q.scheduled),
                  faults-update_job lost q.node.db sound,
                )
        ]
      ]

  module _ (runner : Job → Exec (Node H) (Unit {0})) (keeps : KeepsJobs runner) where
    -- the runner's result and the clock when it returns
    abbrev pub result_of : Job → Queue H → Result (Unit {0}) × ℕ
    result_of j q =
        let after = runner (marked q.node.db.clock j) (begin j.id q.node).1 in
        (after.0, after.1.db.clock)

    -- A job that waits or runs is handed to the runner once, and its row then follows from what the
    -- runner returns: it succeeded, or it is left as running by an interruption, or it waits for
    -- its next attempt and is scheduled after the backoff, or it failed.
    pub process-verdict :
        (stopping : Bool) (j : Job) (q : Queue H)
        → q.node.db.faults ≡ []
        → job_row j.id q.node.db ≡ some j
        → is_done j.state ≡ false
        → let (r, now) = result_of j q in
          let started = marked q.node.db.clock j in
          (job_row j.id (process runner stopping j.id q).node.db
            ≡ some (verdict stopping now started r))
          × ((process runner stopping j.id q).scheduled
              ≡ q.scheduled ++ rescheduled stopping started r)
          × ((process runner stopping j.id q).node.db.faults ≡ [])
    unfolding process
    process-verdict stopping j q sound row waiting =
        let (started, marked_row, sound', now) = begin-ok q.node j sound row waiting in
        let k = marked q.node.db.clock j in
        let n = (begin j.id q.node).1 in
        let after = (runner k n).1 in
        let row' : job_row j.id after.db ≡ some k =
          job_row_of_jobs j.id after.db n.db (keeps.jobs k n) ∙ marked_row in
        let done =
          settle-verdict stopping k ((runner k n).0) (record q { node = after })
            (keeps.faults k n sound') row' in
        rw (started, process) done

    -- A job that has succeeded or failed is not run again: the round changes neither the host nor
    -- a job nor the schedule.
    pub process_done :
        (stopping : Bool) (j : Job) (q : Queue H)
        → q.node.db.faults ≡ []
        → job_row j.id q.node.db ≡ some j
        → is_done j.state ≡ true
        → ((process runner stopping j.id q).node.host ≡ q.node.host)
          × ((process runner stopping j.id q).node.db.jobs ≡ q.node.db.jobs)
          × ((process runner stopping j.id q).scheduled ≡ q.scheduled)
          × ((process runner stopping j.id q).node.db.faults ≡ [])
          × ((begin j.id q.node).0 ≡ err other)
    unfolding process begin
    process_done stopping j q sound row done =
        let got = get_job-found j.id q.node.db sound j row in
        let same = jobs-get_job j.id q.node.db in
        let sound' = faults-get_job j.id q.node.db sound in
        (
          ground (arith, got, done),
          ground (arith, got, done, same),
          ground (arith, got, done),
          ground (arith, got, done, sound'),
          ground (arith, got, done),
        )
