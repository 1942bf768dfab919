-- ===== src/Store/Jobs.antt =====
-- The table `jobs`: CreateJob, GetJob, UpdateJob and ListJobsByState.
pub mod Rows
use kite_kvm.Prelude.{
  Bool, List, Option, String, [], conflict, err, false, if◌then◌else◌, keep, none, not_found, ok,
  some, true, ◌++◌, ◌==◌, ◌∷◌,
}
use kite_kvm.Prelude.Effects.{Exec}
use kite_kvm.Model.{Job, JobState}
use kite_kvm.Store.Table.{find, update_at, in_order}
use kite_kvm.Store.Db.{Db, statement}

abbrev pub job_key : Job → String
job_key j = j.id

-- the constants are compared as texts
abbrev pub same_state : JobState → JobState → Bool
same_state JobState.queued JobState.queued = true
same_state JobState.running JobState.running = true
same_state JobState.succeeded JobState.succeeded = true
same_state JobState.failed JobState.failed = true
same_state _ _ = false

unfoldable pub create_job : Job → Exec Db (Unit {0})
unfolding statement
create_job j = statement λ db.
    let row = record j { created_at = if j.created_at == 0 then db.clock else j.created_at } in
    elim (find job_key j.id db.jobs) [
      | some _ ↦ (err conflict, db)
      | none ↦ (ok tt, record db { jobs = db.jobs ++ row ∷ [] })
    ]

unfoldable pub get_job : String → Exec Db Job
unfolding statement
get_job id =
    statement
      λ db. elim (find job_key id db.jobs) [ none ↦ (err not_found, db) | some j ↦ (ok j, db) ]

-- every column but `created_at`
abbrev pub set_job_columns : Job → Job → Job
set_job_columns j row = record j { created_at = row.created_at }

unfoldable pub update_job : Job → Exec Db (Unit {0})
unfolding statement
update_job j = statement λ db. elim (find job_key j.id db.jobs) [
  | none ↦ (err not_found, db)
  | some _ ↦ (ok tt, record db { jobs = update_at job_key j.id (set_job_columns j) db.jobs })
]

-- WHERE state = ? ORDER BY created_at, as times
unfoldable pub list_jobs_by_state : JobState → Exec Db (List Job)
unfolding statement
list_jobs_by_state st =
    statement
      λ db. (ok (keep (λ j. same_state j.state st) (in_order (λ j. j.created_at) db.jobs)), db)

-- the row of a job
unfoldable pub job_row : String → Db → Option Job
job_row id db = find job_key id db.jobs
