-- ===== src/Examples/Job.antt =====
-- Jobs at concrete rows and runners.
use kite_kvm.Job.Recovery.{is_queued_job, is_running_job, recover_settles, scheduled_ids}
use kite_kvm.Prelude.{
  Error, List, [], arith, err, false, inr, min, none, other, refl, some, true, ◌*◌, ◌^◌, ◌∷◌, ◌≡◌,
  ◌≤◌, All, String, contains, ◌++◌,
}
use kite_kvm.Prelude.Effects.{Exec}
use kite_kvm.Model.{Job, JobState, JobType}
use kite_kvm.Store.Table.{find}
use kite_kvm.Store.Db.{Db}
use kite_kvm.Store.Jobs.{job_row}
use kite_kvm.Node.{Node}
use kite_kvm.Job.{
  Queue, backoff, backoff_base, is_canceled, is_done, max_backoff, begin, process, recover,
}
use kite_kvm.Job.Outcome.{
  KeepsJobs, marked, process-verdict, process_done, rescheduled, result_of, verdict,
}
use kite_kvm.Job.Retries.{backoff-min, calls, retries_bounded, rounds}

abbrev waiting : Job
waiting = record {
  id = "j1";
  typ = JobType.create;
  vm_id = "vm1";
  state = JobState.queued;
  error = none;
  idempotency_key = "";
  payload = [];
  attempts = 0;
  created_at = 1;
  started_at = none;
  finished_at = none;
}

abbrev db_of : List Job → Db
db_of js = record {
  vms = [];
  jobs = js;
  idempotency_keys = [];
  ip_allocations = [];
  clock = 1000;
  faults = [];
}

abbrev queue_of : List Job → Queue (Unit {0})
queue_of js = record {
  node = record { db = db_of js; host = tt; traffic_last = [] };
  scheduled = [];
}

-- a runner that always fails
abbrev failing : Job → Exec (Node (Unit {0})) (Unit {0})
failing j n = (err other, n)

failing_keeps : KeepsJobs failing
failing_keeps = record { jobs = λ j n. refl; faults = λ j n h. h }

failing_plain :
    (j : Job) (n : Node (Unit {0})) (e : Error) → (failing j n).0 ≡ err e → is_canceled e ≡ false
failing_plain j n e h = ground arith

stored : job_row "j1" (queue_of (waiting ∷ [])).node.db ≡ some waiting
unfolding job_row find
stored = refl

retries_bounded_example :
    (calls failing 5 "j1" (queue_of (waiting ∷ [])) ≤ 3)
    × (3 ≤ 5
        → (j' : Job) × (job_row "j1" (rounds failing 5 "j1" (queue_of (waiting ∷ []))).node.db
            ≡ some j')
          × (is_done j'.state ≡ true))
retries_bounded_example =
    retries_bounded failing failing_keeps failing_plain 5 "j1" waiting (queue_of (waiting ∷ []))
      refl stored (inr (omega arith))

backoff-min_example : backoff 2 ≡ min (backoff_base * 2 ^ 2) max_backoff
backoff-min_example = backoff-min 2 (omega arith)

abbrev finished : Job
finished = record waiting { id = "j2"; state = JobState.succeeded }

stored_finished : job_row "j2" (queue_of (finished ∷ [])).node.db ≡ some finished
unfolding job_row find
stored_finished = refl

process_done_example :
    let q = queue_of (finished ∷ []) in
    let q' = process failing false "j2" q in
    (q'.node.host ≡ q.node.host)
    × (q'.node.db.jobs ≡ q.node.db.jobs)
    × (q'.scheduled ≡ q.scheduled)
    × (q'.node.db.faults ≡ [])
    × ((begin "j2" q.node).0 ≡ err other)
process_done_example =
    process_done failing failing_keeps false finished (queue_of (finished ∷ [])) refl
      stored_finished refl

process-verdict_example :
    let q = queue_of (waiting ∷ []) in
    let started = marked 1000 waiting in
    let q' = process failing false "j1" q in
    (job_row "j1" q'.node.db
      ≡ some (verdict false (result_of failing failing_keeps waiting q).1 started (err other)))
    × (q'.scheduled ≡ [] ++ rescheduled false started (err other))
    × (q'.node.db.faults ≡ [])
process-verdict_example =
    process-verdict failing failing_keeps false waiting (queue_of (waiting ∷ [])) refl stored refl

abbrev crashed : Job
crashed = record waiting { id = "j3"; state = JobState.running }

recovered :
    let q = queue_of (crashed ∷ waiting ∷ []) in
    All (λ r. is_running_job r ≡ false) (recover q).node.db.jobs
    × ((id : String) (j : Job)
        → job_row id (recover q).node.db ≡ some j
        → is_queued_job j ≡ true
        → contains id (scheduled_ids (recover q).scheduled) ≡ true)
recovered = recover_settles (queue_of (crashed ∷ waiting ∷ [])) refl
