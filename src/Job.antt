-- ===== src/Job.antt =====
-- internal/job: the worker pool. Its state is the node's and the ids that are scheduled, each with
-- its delay in nanoseconds: those in the channel `ch` and those that a goroutine of `schedule` or
-- of `scheduleAfter` holds.
pub mod Outcome
pub mod Retries
pub mod Recovery
use kite_kvm.Prelude.{
  Bool, Error, List, Result, String, [], canceled, err, false, if◌then◌else◌, ltb, none, ok, other,
  some, true, ℕ, ◌%◌, ◌&&◌, ◌*◌, ◌++◌, ◌+◌, ◌^◌, ◌||◌, ◌∷◌,
}
use kite_kvm.Prelude.Effects.{Exec, attempt, pure, raise, ◌>>=◌, ◌>>◌}
use kite_kvm.Model.{Job, JobState, failed, queued, running, succeeded}
use kite_kvm.Store.Jobs.{create_job, get_job, list_jobs_by_state, update_job}
use kite_kvm.Node.{Node, on_db}

pub record Queue (H : Type 0) : Type 0 where
  pub node : Node H
  pub scheduled : List (String × ℕ)

-- maxJobAttempts
abbrev pub max_attempts : ℕ
max_attempts = 3

-- time.Second
abbrev pub backoff_base : ℕ
backoff_base = 1000000000

abbrev pub max_backoff : ℕ
max_backoff = 30 * backoff_base

-- backoffBase << uint(attempt), an int64 whose sign is the top bit, capped
unfoldable pub backoff : ℕ → ℕ
backoff attempt =
    let d = backoff_base * 2 ^ attempt % 2 ^ 64 in
    if ltb max_backoff d && ltb d (2 ^ 63) then max_backoff else d

abbrev pub is_done : JobState → Bool
is_done JobState.succeeded = true
is_done JobState.failed = true
is_done _ = false

abbrev pub is_canceled : Error → Bool
is_canceled Error.canceled = true
is_canceled _ = false

-- a list that could not be read is ranged over as nil
abbrev pub or_nil : {A : Type 0} → Result (List A) → List A
or_nil (ok xs) = xs
or_nil (err e) = []

abbrev pub schedule_all : List Job → List (String × ℕ)
schedule_all [] = []
schedule_all (j ∷ js) = (j.id, 0) ∷ schedule_all js

module _ {H : Type 0} where
  -- Enqueue
  unfoldable pub enqueue : Job → Exec (Queue H) (Unit {0})
  enqueue j q =
      let row = record j { state = JobState.queued } in
      let stored = create_job row q.node.db in
      let after = record q { node = record (q.node) { db = stored.1 } } in
      elim stored.0 [
        | err e ↦ (err e, after)
        | ok _ ↦ (ok tt, record after { scheduled = q.scheduled ++ (j.id, 0) ∷ [] })
      ]

  -- The first part of `process`: the job that the runner is to be called with, marked running.
  unfoldable pub begin : String → Exec (Node H) Job
  begin id = do
    j ← on_db (get_job id)
    if is_done j.state then raise other else do
      now ← (λ n. (ok n.db.clock, n))
      let started = record j { state = JobState.running; started_at = some now }
      on_db (update_job started)
      pure started

  -- The rest of `process` after the runner has returned. `stopping` is jobCtx.Err() != nil.
  unfoldable pub settle : Bool → Job → Result (Unit {0}) → Queue H → Queue H
  settle stopping j (ok _) q =
      let row = record j { state = JobState.succeeded; finished_at = some q.node.db.clock } in
      record q { node = (on_db (update_job row) q.node).1 }
  settle stopping j (err e) q =
      let again = record j {
        attempts = j.attempts + 1;
        state = JobState.queued;
        started_at = none;
      } in
      let lost = record j {
        state = JobState.failed;
        error = some e;
        finished_at = some q.node.db.clock;
      } in
      if is_canceled e || stopping
      then q
      else if ltb (j.attempts + 1) max_attempts
      then elim ((on_db (update_job again) q.node).0) [
        | err _ ↦ record q { node = (on_db (update_job again) q.node).1 }
        | ok _ ↦ record q {
          node = (on_db (update_job again) q.node).1;
          scheduled = q.scheduled ++ (j.id, backoff (j.attempts + 1)) ∷ [];
        }
      ]
      else record q { node = (on_db (update_job lost) q.node).1 }

  -- process: a worker takes one id
  unfoldable pub process : (Job → Exec (Node H) (Unit {0})) → Bool → String → Queue H → Queue H
  process runner stopping id q =
      let started = begin id q.node in
      elim started.0 [
        | err _ ↦ record q { node = started.1 }
        | ok j ↦
            settle stopping j ((runner j started.1).0) (record q { node = (runner j started.1).1 })
      ]

  -- recover: for _, j := range running { … UpdateJob … }; an error is logged and the loop goes on
  unfoldable pub fail_running : List Job → Node H → Node H
  fail_running [] n = n
  fail_running (j ∷ js) n =
      let row = record j {
        state = JobState.failed;
        error = some other;
        finished_at = some n.db.clock;
      } in
      fail_running js ((on_db (update_job row) n).1)

  unfoldable pub recover : Queue H → Queue H
  recover q =
      let listed = on_db (list_jobs_by_state JobState.running) q.node in
      let settled = fail_running (or_nil listed.0) listed.1 in
      let waiting = on_db (list_jobs_by_state JobState.queued) settled in
      record { node = waiting.1; scheduled = q.scheduled ++ schedule_all (or_nil waiting.0) }
