-- ===== src/Store/Jobs/Rows.antt =====
-- The row of a job after a statement on the table.
use kite_kvm.Prelude.{
  String, [], ap, arith, eq_iff, err, false, none, not_found, ok, refl, some, str_eq, ◌≡◌, keep,
}
use kite_kvm.Model.{Job, JobState}
use kite_kvm.Store.Table.{find, find-update_at, key-find, update_at, update_at-missing, in_order}
use kite_kvm.Store.Db.{Db}
use kite_kvm.Store.Jobs.{
  get_job, job_key, job_row, set_job_columns, update_job, list_jobs_by_state, same_state,
}

module _ (id : String) (db : Db) (sound : db.faults ≡ []) where
  pub get_job-found : (j : Job) → job_row id db ≡ some j → (get_job id db).0 ≡ ok j
  unfolding get_job job_row
  get_job-found j h = ground arith

  pub get_job-missing : job_row id db ≡ none → (get_job id db).0 ≡ err not_found
  unfolding get_job job_row
  get_job-missing h = ground arith

pub jobs-get_job : (id : String) (db : Db) → (get_job id db).1.jobs ≡ db.jobs
unfolding get_job
jobs-get_job id db = ground arith

pub job_row-get_job : (id k : String) (db : Db) → job_row k (get_job id db).1 ≡ job_row k db
unfolding job_row
job_row-get_job id k db = ap (find job_key k) (jobs-get_job id db)

pub faults-get_job : (id : String) (db : Db) → db.faults ≡ [] → (get_job id db).1.faults ≡ []
unfolding get_job
faults-get_job id db sound = ground arith

pub faults-update_job : (j : Job) (db : Db) → db.faults ≡ [] → (update_job j db).1.faults ≡ []
unfolding update_job
faults-update_job j db sound = ground arith

pub clock-get_job : (id : String) (db : Db) → (get_job id db).1.clock ≡ db.clock
unfolding get_job
clock-get_job id db = ground arith

pub clock-update_job : (j : Job) (db : Db) → (update_job j db).1.clock ≡ db.clock
unfolding update_job
clock-update_job j db = ground arith

-- An update that finds its row sets it; one of another row leaves this one alone.
pub update_job-ok :
    (j old : Job) (db : Db)
    → db.faults ≡ []
    → job_row j.id db ≡ some old
    → (update_job j db).0 ≡ ok tt
unfolding update_job job_row
update_job-ok j old db sound h = ground arith

pub job_row-update_job :
    (j old : Job) (db : Db)
    → db.faults ≡ []
    → job_row j.id db ≡ some old
    → job_row j.id (update_job j db).1 ≡ some (set_job_columns j old)
unfolding update_job job_row
job_row-update_job j old db sound h = ground (
  arith,
  find-update_at job_key j.id j.id (set_job_columns j) db.jobs (λ r. refl),
  eq_iff j.id j.id,
)

pub job_row-update_job_ne :
    (j : Job) (id : String) (db : Db)
    → str_eq j.id id ≡ false
    → job_row id (update_job j db).1 ≡ job_row id db
unfolding update_job job_row
job_row-update_job_ne j id db d =
    ground (arith, find-update_at job_key id j.id (set_job_columns j) db.jobs (λ r. refl))

-- the row that is found has the id
pub id-job_row : (id : String) (db : Db) (j : Job) → job_row id db ≡ some j → j.id ≡ id
unfolding job_row
id-job_row id db j h = key-find job_key id db.jobs j h

-- the rows are a function of the table
pub job_row_of_jobs : (id : String) (a b : Db) → a.jobs ≡ b.jobs → job_row id a ≡ job_row id b
unfolding job_row
job_row_of_jobs id a b e = ap (find job_key id) e

pub jobs-update_job :
    (j : Job) (db : Db)
    → db.faults ≡ []
    → (update_job j db).1.jobs ≡ update_at job_key j.id (set_job_columns j) db.jobs
unfolding update_job
jobs-update_job j db sound =
    ground (arith, update_at-missing job_key j.id (set_job_columns j) db.jobs)

pub list_jobs_by_state-ok :
    (st : JobState) (db : Db)
    → db.faults ≡ []
    → ((list_jobs_by_state st db).0
        ≡ ok (keep (λ j. same_state j.state st) (in_order (λ j. j.created_at) db.jobs)))
      × ((list_jobs_by_state st db).1.jobs ≡ db.jobs)
      × ((list_jobs_by_state st db).1.faults ≡ [])
unfolding list_jobs_by_state
list_jobs_by_state-ok st db sound = (ground arith, ground arith, ground arith)
