-- ===== src/Job/Retries.antt =====
-- Bounded retries: however often a job is taken up, the runner is called at most three times, and
-- a job that is not interrupted is settled after as many rounds as it has attempts left.
use mathlib.Core.Path.{subst}
use native.Mathlib.Nat.{pow-le-pow_right}
use kite_kvm.Store.Jobs.Rows.{job_row_of_jobs, id-job_row}
use kite_kvm.Prelude.{
  Bool, Error, Result, String, [], arith, err, false, if◌then◌else◌, inl, ok, refl, some, suc, true,
  zero, ℕ, ◌+◌, ◌-◌, ◌<◌, ◌∙◌, ◌≡◌, ◌⊎◌, Bool-cases, inr, ◌≤◌, other, min, ◌*◌, ◌^◌,
}
use kite_kvm.Prelude.Effects.{Exec}
use kite_kvm.Model.{Job}
use kite_kvm.Store.Jobs.{job_row}
use kite_kvm.Node.{Node}
use kite_kvm.Job.{
  Queue, begin, is_canceled, is_done, max_attempts, process, backoff, backoff_base, max_backoff,
}
use kite_kvm.Job.Outcome.{
  KeepsJobs, process_done, verdict, marked, process-verdict, result_of, begin-ok,
}

abbrev pub is_ok : {A : Type 0} → Result A → Bool
is_ok (ok _) = true
is_ok (err _) = false

-- attempts that a job has left
abbrev pub left : Job → ℕ
left j = if is_done j.state then 0 else max_attempts - j.attempts

module _ {H : Type 0} (runner : Job → Exec (Node H) (Unit {0})) where
  -- the same id is taken up k times
  unfoldable pub rounds : ℕ → String → Queue H → Queue H
  rounds zero id q = q
  rounds (suc k) id q = rounds k id (process runner false id q)

  -- how often the runner is called in them
  unfoldable pub calls : ℕ → String → Queue H → ℕ
  calls zero id q = 0
  calls (suc k) id q =
      (if is_ok (begin id q.node).0 then 1 else 0) + calls k id (process runner false id q)

  module _ (keeps : KeepsJobs runner) where
    -- one round for a job that is stored under its id
    round_done :
        (id : String) (j : Job) (q : Queue H)
        → q.node.db.faults ≡ []
        → job_row id q.node.db ≡ some j
        → is_done j.state ≡ true
        → ((process runner false id q).node.db.jobs ≡ q.node.db.jobs)
          × ((process runner false id q).node.db.faults ≡ [])
          × ((begin id q.node).0 ≡ err other)
    round_done id j q sound row done =
        let named = id-job_row id q.node.db j row in
        subst
          (λ i.
            job_row i q.node.db ≡ some j
            → ((process runner false i q).node.db.jobs ≡ q.node.db.jobs)
              × ((process runner false i q).node.db.faults ≡ [])
              × ((begin i q.node).0 ≡ err other))
          named
          (λ at_id.
            let all = process_done runner keeps false j q sound at_id done in (all.1, all.3, all.4))
          row

    round_waiting :
        (id : String) (j : Job) (q : Queue H)
        → q.node.db.faults ≡ []
        → job_row id q.node.db ≡ some j
        → is_done j.state ≡ false
        → let (r, now) = result_of runner keeps j q in
          (job_row id (process runner false id q).node.db
            ≡ some (verdict false now (marked q.node.db.clock j) r))
          × ((process runner false id q).node.db.faults ≡ [])
          × ((begin id q.node).0 ≡ ok (marked q.node.db.clock j))
    round_waiting id j q sound row waiting =
        let named = id-job_row id q.node.db j row in
        let (r, now) = result_of runner keeps j q in
        subst
          (λ i.
            job_row i q.node.db ≡ some j
            → (job_row i (process runner false i q).node.db
                ≡ some (verdict false now (marked q.node.db.clock j) r))
              × ((process runner false i q).node.db.faults ≡ [])
              × ((begin i q.node).0 ≡ ok (marked q.node.db.clock j)))
          named
          (λ at_id.
            let all = process-verdict runner keeps false j q sound at_id waiting in
            (all.0, all.2, (begin-ok q.node j sound at_id waiting).0))
          row

    rounds_done :
        (k : ℕ) (id : String) (j : Job) (q : Queue H)
        → q.node.db.faults ≡ []
        → job_row id q.node.db ≡ some j
        → is_done j.state ≡ true
        → (calls k id q ≡ 0) × (job_row id (rounds k id q).node.db ≡ some j)
    unfolding calls rounds
    rounds_done zero id j q sound row done = (refl, row)
    rounds_done (suc k) id j q sound row done =
        let (jobs, sound', refused) = round_done id j q sound row done in
        let q' = process runner false id q in
        let row' = job_row_of_jobs id q'.node.db q.node.db jobs ∙ row in
        let (none_left, still) = rounds_done k id j q' sound' row' done in
        (ground (arith, refused, none_left), still)

    -- a round that is not interrupted uses up an attempt
    left-verdict :
        (now : ℕ) (j : Job) (r : Result (Unit {0}))
        → is_done j.state ≡ false
        → j.attempts < max_attempts
        → ((e : Error) → r ≡ err e → is_canceled e ≡ false)
        → (left (verdict false now j r) < left j)
          × ((is_done (verdict false now j r).state ≡ true)
              ⊎ ((verdict false now j r).attempts < max_attempts))
    left-verdict now j (ok _) waiting few sure = (ground arith, inl refl)
    left-verdict now j (err e) waiting few sure =
        let plain = sure e refl in (ground (arith, plain), ground (arith, plain))

    -- Whatever number of times a job is taken up, by a runner that is never cancelled, with a
    -- database that does not fail: the runner is called at most once for each attempt that the job
    -- has left, which is three times for a new job. Once it has been taken up that often, the job
    -- has succeeded or failed.
    pub retries_bounded :
        ((j : Job) (n : Node H) (e : Error) → (runner j n).0 ≡ err e → is_canceled e ≡ false)
        → (k : ℕ) (id : String) (j : Job) (q : Queue H) → q.node.db.faults ≡ []
        → job_row id q.node.db ≡ some j
        → (is_done j.state ≡ true) ⊎ (j.attempts < max_attempts)
        → (calls k id q ≤ left j)
          × (left j ≤ k
              → (j' : Job) × (job_row id (rounds k id q).node.db ≡ some j')
                × (is_done j'.state ≡ true))
    unfolding calls rounds
    retries_bounded sure zero id j q sound row few =
        (omega arith, λ none_left. (j, row, ground (arith, few, none_left)))
    retries_bounded sure (suc k) id j q sound row few = elim (Bool-cases (is_done j.state)) [
      | inl done ↦
          let (no_call, still) = rounds_done (suc k) id j q sound row done in
          (unfold calls in omega (arith, no_call), λ enough. (j, still, done))
      | inr waiting ↦
          let (r, now) = result_of runner keeps j q in
          let started = marked q.node.db.clock j in
          let next = verdict false now started r in
          let (row', sound', begun) = round_waiting id j q sound row waiting in
          let (fewer, few') =
            left-verdict now started r refl (ground (arith, few, waiting))
              (λ e. sure started (begin j.id q.node).1 e) in
          let (bound, settled) =
            retries_bounded sure k id next (process runner false id q) sound' row' few' in
          let one : left started ≡ left j = ground (arith, waiting) in
          (
            rw begun (omega (arith, bound, fewer, one)),
            λ enough. settled (omega (arith, fewer, one, enough)),
          )
    ]

-- The delay before attempt n is 2ⁿ seconds, and 30 seconds at most; the shift does not overflow an
-- int64 for any n up to 33.
pub backoff-min : (n : ℕ) → n ≤ 33 → backoff n ≡ min (backoff_base * 2 ^ n) max_backoff
unfolding backoff
backoff-min n h =
    let small : 2 ^ n ≤ 2 ^ 33 = pow-le-pow_right {n = 2} (omega arith) h in ground (arith, small)
