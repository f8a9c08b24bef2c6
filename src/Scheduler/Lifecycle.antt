-- ===== src/Scheduler/Lifecycle.antt =====
-- How a run evolves: the diagram of its states, and the operations of
-- internal/scheduler/application/service.go and internal/scheduler/infra/repository.go that follow it.
use edge_pilot.Base.{
  ◌+◌, ◌≤◌, ◌<◌, ◌≡◌, refl, ◌∙◌, ◌≢◌, ◌⊎◌, Bool, true, false, none, some, [], arith,
}
use edge_pilot.Base.Text.{Text}
use edge_pilot.Cron.Calendar.{Time}
use edge_pilot.Model.Scheduler.{SchedulerJobRun, dispatched, running, retry_waiting, is_terminal}
use edge_pilot.Scheduler.Statements.{
  is_claimable, set_claimed, is_held_by, set_running, is_renewable, set_lease, set_completed,
  is_dispatched_to, set_dispatch_failed, is_exhausted, set_expired,
}
use edge_pilot.Scheduler.Runs.{completion}

-- One change of a run's row by the scheduler or by its executor.
infix 40 ◌⟶◌ ◌⟶*◌
pub data ◌⟶◌ : SchedulerJobRun → SchedulerJobRun → Type 0 where
  claim :
      (r : SchedulerJobRun) (executor : Text) (lease now : Time)
      → is_claimable now r ≡ true
      → r ⟶ set_claimed executor lease now r
  start :
      (r : SchedulerJobRun) (executor : Text) (now : Time)
      → is_held_by executor r ≡ true
      → r ⟶ set_running now r
  renew :
      (r : SchedulerJobRun) (executor : Text) (lease now : Time)
      → is_renewable executor now r ≡ true
      → r ⟶ set_lease lease r
  complete :
      (r : SchedulerJobRun) (executor : Text) (success retryable : Bool) (message : Text)
      (now : Time)
      → is_held_by executor r ≡ true
      → r ⟶ set_completed (completion r success retryable message now) r
  undispatch :
      (r : SchedulerJobRun) (executor message : Text)
      → is_dispatched_to executor r ≡ true
      → r ⟶ set_dispatch_failed message r
  expire :
      (r : SchedulerJobRun) (now : Time) (message : Text)
      → is_exhausted now r ≡ true
      → r ⟶ set_expired now message r
  -- The message of a failed choice of an executor, which `dispatchDueRuns` writes to the row.
  note : (r : SchedulerJobRun) (message : Text) → r ⟶ record r { error_message = message }

pub data ◌⟶*◌ (r : SchedulerJobRun) : SchedulerJobRun → Type 0 where
  here : r ⟶* r
  next : {s t : SchedulerJobRun} → r ⟶* s → s ⟶ t → r ⟶* t

-- What holds of a run between two changes: the attempt is at most one behind the retries; a run in
-- flight has a lease, and no other run has a lease or an owner; a waiting run has a time for its retry; and
-- only a run that is over has a time of completion.
pub record IsValid (r : SchedulerJobRun) : Type 0 where
  pub attempt_capped : r.attempt ≤ r.max_retries + 1
  pub leased : (r.status ≡ dispatched) ⊎ (r.status ≡ running) → r.lease_expires_at ≢ none
  pub unleased :
      r.status ≢ dispatched → r.status ≢ running → (r.lease_expires_at ≡ none) × (r.leased_by ≡ [])
  pub waiting : r.status ≡ retry_waiting → r.next_retry_at ≢ none
  pub over : is_terminal r.status ≡ true → r.completed_at ≢ none
  pub unfinished : is_terminal r.status ≡ false → r.completed_at ≡ none

⟶-IsValid : {r s : SchedulerJobRun} → r ⟶ s → IsValid r → IsValid s
unfolding is_claimable set_claimed is_held_by set_running is_renewable set_lease set_completed
    completion is_dispatched_to set_dispatch_failed is_exhausted set_expired is_terminal
⟶-IsValid (claim r executor lease now h) v = ground arith
⟶-IsValid (start r executor now h) v = ground arith
⟶-IsValid (renew r executor lease now h) v = ground arith
⟶-IsValid (complete r executor success retryable message now h) v = ground arith
⟶-IsValid (undispatch r executor message h) v = ground arith
⟶-IsValid (expire r now message h) v = ground arith
⟶-IsValid (note r message) v = ground arith

-- What a run keeps: whose run it is, what it carries and its budget of retries.
abbrev pub SameRun : SchedulerJobRun → SchedulerJobRun → Type 0
SameRun r s =
    (s.id ≡ r.id)
    × (s.job_id ≡ r.job_id)
    × (s.idempotency_key ≡ r.idempotency_key)
    × (s.payload ≡ r.payload)
    × (s.scheduled_at ≡ r.scheduled_at)
    × (s.max_retries ≡ r.max_retries)
    × (r.attempt ≤ s.attempt)

⟶-SameRun : {r s : SchedulerJobRun} → r ⟶ s → SameRun r s
unfolding set_claimed set_running set_lease set_completed completion set_dispatch_failed set_expired
⟶-SameRun (claim r executor lease now h) = ground arith
⟶-SameRun (start r executor now h) = ground arith
⟶-SameRun (renew r executor lease now h) = ground arith
⟶-SameRun (complete r executor success retryable message now h) = ground arith
⟶-SameRun (undispatch r executor message h) = ground arith
⟶-SameRun (expire r now message h) = ground arith
⟶-SameRun (note r message) = ground arith

-- However it evolves, a run keeps its identity, its job, its idempotency key, its payload, its schedule and
-- its retries, and its attempt never goes down.
pub ⟶*-SameRun : {r s : SchedulerJobRun} → r ⟶* s → SameRun r s
⟶*-SameRun here = ground arith
⟶*-SameRun (next p e) = ground (arith, ⟶*-SameRun p, ⟶-SameRun e)

-- However a run evolves under claims, starts, renewals, completions, returned claims, expiries and noted
-- messages, its invariant `IsValid` is kept: the attempt is at most one above the retries, a run in flight has
-- a lease and no other run has a lease or an owner, a waiting run has a time for its retry, and exactly the
-- runs that are over have a time of completion.
pub ⟶*-IsValid : {r s : SchedulerJobRun} → r ⟶* s → IsValid r → IsValid s
⟶*-IsValid here v = v
⟶*-IsValid (next p e) v = ⟶-IsValid e (⟶*-IsValid p v)

-- A run that is over stays so, with its outcome, its attempt and its time of completion.
abbrev pub Outcome : SchedulerJobRun → SchedulerJobRun → Type 0
Outcome r s = (s.status ≡ r.status) × (s.attempt ≡ r.attempt) × (s.completed_at ≡ r.completed_at)

⟶-Outcome : {r s : SchedulerJobRun} → r ⟶ s → is_terminal r.status ≡ true → Outcome r s
unfolding is_claimable is_held_by is_renewable is_dispatched_to is_exhausted is_terminal
⟶-Outcome (claim r executor lease now h) t = ground arith
⟶-Outcome (start r executor now h) t = ground arith
⟶-Outcome (renew r executor lease now h) t = ground arith
⟶-Outcome (complete r executor success retryable message now h) t = ground arith
⟶-Outcome (undispatch r executor message h) t = ground arith
⟶-Outcome (expire r now message h) t = ground arith
⟶-Outcome (note r message) t = ground arith

-- A run that has succeeded or failed keeps its status, its attempt and its time of completion,
-- whatever the scheduler and the executors do.
pub terminal_absorbs : {r s : SchedulerJobRun} → r ⟶* s → is_terminal r.status ≡ true → Outcome r s
terminal_absorbs here t = (refl, refl, refl)
terminal_absorbs {r} (next {s = m} p e) t =
    let kept = terminal_absorbs p t in
    let last = ⟶-Outcome e (rw kept.0 t) in (last.0 ∙ kept.0, last.1 ∙ kept.1, last.2 ∙ kept.2)

-- A run that is dispatched or running under a lease cannot be claimed while the lease has not run out, nor
-- at all after its last retry.
pub held_not_claimable :
    (r : SchedulerJobRun) (lease now : Time)
    → (r.status ≡ dispatched) ⊎ (r.status ≡ running)
    → r.lease_expires_at ≡ some lease
    → (now < lease) ⊎ (r.max_retries < r.attempt)
    → is_claimable now r ≡ false
unfolding is_claimable
held_not_claimable r lease now s l h = ground arith
