-- ===== src/Job/Recovery.antt =====
-- `recover` at startup: what a crash left running is failed, what waited is scheduled again.
use mathlib.Core.Path.{subst}
use kite_kvm.Prelude.{
  All, Bool, List, String, [], arith, contains, eq_iff, keep, other, some, true, ℕ, ◌∷◌, ◌≡◌,
  Bool-cases, false, inl, inr, ◌++◌, contains_self, sym, ◌∙◌, ap, refl,
}
use kite_kvm.Model.{Job, JobState}
use kite_kvm.Store.Table.{update_at, find, column, contains-in_order, in_order}
use kite_kvm.Store.Jobs.{
  job_key, same_state, set_job_columns, update_job, job_row, list_jobs_by_state,
}
use kite_kvm.Store.Jobs.Rows.{
  faults-update_job, jobs-update_job, list_jobs_by_state-ok, job_row_of_jobs,
}
use kite_kvm.Node.{Node, on_db}
use kite_kvm.Job.{fail_running, Queue, recover, schedule_all}

abbrev pub is_running_job : Job → Bool
is_running_job j = same_state j.state JobState.running

abbrev ids : List Job → List String
ids = column (λ j. j.id)

-- every running job is still to be failed
abbrev Todo : List String → List Job → Type 0
Todo todo = All (λ r. is_running_job r ≡ true → contains r.id todo ≡ true)

-- the row that `recover` writes
abbrev interrupted : ℕ → Job → Job
interrupted now j = record j { state = JobState.failed; error = some other; finished_at = some now }

Todo-update_at :
    (todo : List String) (now : ℕ) (j : Job) (rows : List Job)
    → Todo (j.id ∷ todo) rows
    → Todo todo (update_at job_key j.id (set_job_columns (interrupted now j)) rows)
unfolding update_at contains
Todo-update_at todo now j [] h = tt
Todo-update_at todo now j (r ∷ rows) h =
    (ground (arith, h.0, eq_iff r.id j.id, eq_iff j.id r.id), Todo-update_at todo now j rows h.1)

Todo-cons :
    (id : String) (todo : List String) (rows : List Job) → Todo todo rows → Todo (id ∷ todo) rows
unfolding contains
Todo-cons id todo [] h = tt
Todo-cons id todo (r ∷ rows) h = (λ e. ground (arith, h.0 e), Todo-cons id todo rows h.1)

Todo-keep : (rows : List Job) → Todo (ids (keep is_running_job rows)) rows
unfolding keep contains
Todo-keep [] = tt
Todo-keep (r ∷ rows) = elim (Bool-cases (is_running_job r)) [
  | inl runs ↦
      let e : ids (keep is_running_job (r ∷ rows)) ≡ r.id ∷ ids (keep is_running_job rows) =
        rw runs in
      subst (λ t. Todo t (r ∷ rows)) (sym e)
        (
          λ _. contains_self r.id (ids (keep is_running_job rows)),
          Todo-cons r.id (ids (keep is_running_job rows)) rows (Todo-keep rows),
        )
  | inr rests ↦
      let e : ids (keep is_running_job (r ∷ rows)) ≡ ids (keep is_running_job rows) = rw rests in
      subst (λ t. Todo t (r ∷ rows)) (sym e) (λ runs. cc (runs, rests), Todo-keep rows)
]

-- the rows in the order in which they are listed
abbrev listed_jobs : List Job → List Job
listed_jobs = in_order (λ j. j.created_at)

Todo-same :
    (todo todo' : List String) (rows : List Job)
    → ((id : String) → contains id todo' ≡ contains id todo)
    → Todo todo rows
    → Todo todo' rows
Todo-same todo todo' [] same h = tt
Todo-same todo todo' (r ∷ rows) same h =
    (λ e. same r.id ∙ h.0 e, Todo-same todo todo' rows same h.1)

Todo-listed : (rows : List Job) → Todo (ids (keep is_running_job (listed_jobs rows))) rows
Todo-listed rows =
    Todo-same (ids (keep is_running_job rows)) (ids (keep is_running_job (listed_jobs rows))) rows
      (λ id. contains-in_order (λ j. j.created_at) (λ j. j.id) is_running_job id rows)
      (Todo-keep rows)

None-running : (rows : List Job) → Todo [] rows → All (λ r. is_running_job r ≡ false) rows
unfolding contains
None-running [] h = tt
None-running (r ∷ rows) h = (ground (arith, h.0), None-running rows h.1)

-- a queued row is among the scheduled ids
abbrev pub scheduled_ids : List (String × ℕ) → List String
scheduled_ids [] = []
scheduled_ids ((id, delay) ∷ rest) = id ∷ scheduled_ids rest

abbrev pub is_queued_job : Job → Bool
is_queued_job j = same_state j.state JobState.queued

schedule_all-append :
    (id : String) (js : List Job) (before : List (String × ℕ))
    → contains id (scheduled_ids (schedule_all js)) ≡ true
    → contains id (scheduled_ids (before ++ schedule_all js)) ≡ true
unfolding contains
schedule_all-append id js [] h = h
schedule_all-append id js ((k, delay) ∷ before) h =
    ground (arith, schedule_all-append id js before h)

schedule_all-column : (js : List Job) → scheduled_ids (schedule_all js) ≡ ids js
schedule_all-column [] = refl
schedule_all-column (j ∷ js) = ap (λ t. j.id ∷ t) (schedule_all-column js)

schedule_all-listed :
    (id : String) (rows : List Job)
    → contains id (scheduled_ids (schedule_all (keep is_queued_job (listed_jobs rows))))
      ≡ contains id (scheduled_ids (schedule_all (keep is_queued_job rows)))
schedule_all-listed id rows =
    ap (contains id) (schedule_all-column (keep is_queued_job (listed_jobs rows)))
    ∙ contains-in_order (λ j. j.created_at) (λ j. j.id) is_queued_job id rows
    ∙ ap (contains id) (sym (schedule_all-column (keep is_queued_job rows)))

schedule_all-queued :
    (id : String) (rows : List Job) (j : Job)
    → find job_key id rows ≡ some j
    → is_queued_job j ≡ true
    → contains id (scheduled_ids (schedule_all (keep is_queued_job rows))) ≡ true
unfolding contains find keep
schedule_all-queued id [] j h e = cc
schedule_all-queued id (r ∷ rows) j h e = ground (arith, schedule_all-queued id rows j)

module _ {H : Type 0} where
  fail_running-Todo :
      (js : List Job) (n : Node H)
      → n.db.faults ≡ []
      → Todo (ids js) n.db.jobs
      → Todo [] (fail_running js n).db.jobs × ((fail_running js n).db.faults ≡ [])
  unfolding fail_running
  fail_running-Todo [] n sound h = (h, sound)
  fail_running-Todo (j ∷ js) n sound h =
      let row = interrupted n.db.clock j in
      let jobs = jobs-update_job row n.db sound in
      fail_running-Todo js ((on_db (update_job row) n).1) (faults-update_job row n.db sound)
        (rw jobs (Todo-update_at (ids js) n.db.clock j n.db.jobs h))

  -- After the recovery pass of a start, with a database that does not fail, no job is left running,
  -- and every job that waits in the table is scheduled.
  pub recover_settles :
      (q : Queue H)
      → q.node.db.faults ≡ []
      → All (λ r. is_running_job r ≡ false) (recover q).node.db.jobs
        × ((id : String) (j : Job)
            → job_row id (recover q).node.db ≡ some j
            → is_queued_job j ≡ true
            → contains id (scheduled_ids (recover q).scheduled) ≡ true)
  unfolding recover
  recover_settles q sound =
      let db = q.node.db in
      let (list, same, sound_listed) = list_jobs_by_state-ok JobState.running db sound in
      let running = keep is_running_job (listed_jobs db.jobs) in
      let listed = (on_db (list_jobs_by_state JobState.running) q.node).1 in
      let (settled, sound_settled) =
        fail_running-Todo running listed sound_listed (rw same (Todo-listed db.jobs)) in
      let n = fail_running running listed in
      let (list_queued, same_queued, sound_queued) =
        list_jobs_by_state-ok JobState.queued n.db sound_settled in
      (
        rw list (rw same_queued (None-running n.db.jobs settled)),
        λ id j row waits.
            let last = (list_jobs_by_state JobState.queued n.db).1 in
            let at_last : job_row id last ≡ some j = rw list at row in
            let found = sym (job_row_of_jobs id last n.db same_queued) ∙ at_last in
            rw list (
              rw list_queued (
                schedule_all-append id (keep is_queued_job (listed_jobs n.db.jobs)) q.scheduled (
                  schedule_all-listed id n.db.jobs
                  ∙ schedule_all-queued id n.db.jobs j (unfold job_row in found) waits))),
      )

  pub recover-faults : (q : Queue H) → q.node.db.faults ≡ [] → (recover q).node.db.faults ≡ []
  unfolding recover
  recover-faults q sound =
      let db = q.node.db in
      let (list, same, sound_listed) = list_jobs_by_state-ok JobState.running db sound in
      let running = keep is_running_job (listed_jobs db.jobs) in
      let listed = (on_db (list_jobs_by_state JobState.running) q.node).1 in
      let (_, sound_settled) =
        fail_running-Todo running listed sound_listed (rw same (Todo-listed db.jobs)) in
      let (_, _, sound_queued) =
        list_jobs_by_state-ok JobState.queued (fail_running running listed).db sound_settled in
      rw list sound_queued
