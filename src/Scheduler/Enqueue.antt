-- ===== src/Scheduler/Enqueue.antt =====
-- How jobs become runs: `enqueueDueJobs` of internal/scheduler/application/service.go and the statements
-- of internal/scheduler/infra/repository.go that it sends. `uuid.New` hands out the next number.
use edge_pilot.Base.{
  ℕ, ◌+◌, ◌≡◌, Bool, true, false, ◌&&◌, Option, none, some, List, [], ◌∷◌, ◌==◌, if◌then◌else◌,
}
use edge_pilot.Base.Int.{ℤ}
use edge_pilot.Base.Text.{Text, text_eq}
use edge_pilot.Cron.Field
use edge_pilot.Cron.Calendar.{Time}
use edge_pilot.Cron.Next.{next_cron_time}
use edge_pilot.Store.Base.{Answer, done, fault, Table}
use edge_pilot.Store.Effect.{M, Result, ok, err, database, bad_request, other_error, read_answer}
use edge_pilot.Store.Program.{◌>>=◌, ◌>>◌, return, fail}
use edge_pilot.Model.Scheduler.{
  SchedulerJob, SchedulerJobRun, SchedulerScheduleKind, one_time, cron, unknown_kind, pending,
  Payload,
}
use edge_pilot.Scheduler.Statements.{reached}
use edge_pilot.Scheduler.Lease.{effective_max_retries, normalize_lease_timeout}
use edge_pilot.Scheduler.Pick.{is_on}

abbrev pub job_id : SchedulerJob → ℕ
job_id j = j.id

-- The run of an idempotency key after `Create` with `ON CONFLICT DO NOTHING`.
abbrev pub kept_or : Option SchedulerJobRun → SchedulerJobRun → Option SchedulerJobRun
kept_or none run = some run
kept_or (some old) run = some old

pub record Planner : Type 1 where
  pub jobs : Table ℕ SchedulerJob job_id ◌==◌
  -- The table of runs, by its unique column `idempotency_key`.
  pub Queue : Type 0
  pub run_of : Text → Queue → Option SchedulerJobRun
  pub create_run_if_not_exists : SchedulerJobRun → Queue → Answer Queue
  pub run_of-create_run_if_not_exists :
      (run : SchedulerJobRun) (q q' : Queue) (k : Text)
      → create_run_if_not_exists run q ≡ done q'
      → run_of k q'
        ≡ (if text_eq run.idempotency_key k then kept_or (run_of k q) run else run_of k q)
  -- `scheduledRunIdempotencyKey`, which prints the job and the nanoseconds.
  pub scheduled_run_idempotency_key : ℕ → Time → Text
  pub default_max_retries : ℤ
  pub default_lease : ℤ
  pub dispatch_batch_size : Option ℕ

module _ (p : Planner) where
  pub record Plan : Type 0 where
    pub jobs : p.jobs.Db
    pub queue : p.Queue
    pub next_id : ℕ

-- `enabled = true AND next_run_at IS NOT NULL AND next_run_at <= now`.
unfoldable pub is_due : Time → SchedulerJob → Bool
unfolding is_on reached
is_due now job = is_on job.enabled && reached job.next_run_at now

unfoldable pub later_run : Field.Result Time → Result (Option Time × Bool)
later_run (Field.Result.ok t) = ok (some t, true)
later_run (Field.Result.err e) = err other_error

-- The next time, and whether the job goes on.
unfoldable pub next_of_kind : SchedulerScheduleKind → Text → Time → Result (Option Time × Bool)
unfolding later_run
next_of_kind one_time expr from = ok (none, false)
next_of_kind cron expr from = later_run (next_cron_time expr from)
next_of_kind unknown_kind expr from = err (bad_request [])

unfoldable pub compute_next_schedule : SchedulerJob → Time → Result (Option Time × Bool)
compute_next_schedule job from = next_of_kind job.schedule_kind job.cron_expr from

module _ (p : Planner) where
  abbrev pub T : Type 0 → Type 0
  T A = M (Plan p) A

  unfoldable pub scheduled_run : SchedulerJob → Time → ℕ → SchedulerJobRun
  scheduled_run job scheduled id = record {
    id = id;
    job_id = job.id;
    handler_key = job.handler_key;
    service_id = job.service_id;
    payload = some (payload_of job.payload);
    status = pending;
    attempt = 1;
    max_retries = effective_max_retries job.max_retries p.default_max_retries;
    lease_timeout_sec = normalize_lease_timeout job.lease_timeout_sec p.default_lease;
    scheduled_at = scheduled;
    dispatched_at = none;
    started_at = none;
    completed_at = none;
    lease_expires_at = none;
    leased_by = [];
    next_retry_at = none;
    error_message = [];
    idempotency_key = p.scheduled_run_idempotency_key job.id scheduled;
    dispatch_policy = job.dispatch_policy;
    executor_group = job.executor_group;
  }
    where
      payload_of : Option Payload → Payload
      payload_of none = []
      payload_of (some x) = x

  unfoldable pub stored_queue : Plan p → Answer p.Queue → Result (Unit {0}) × Plan p
  stored_queue w (done q) = (ok tt, record w { queue = q })
  stored_queue w (fault x) = (err (database x), w)

  -- `CreateRunIfNotExists` of a run with a new identifier.
  unfoldable pub create_scheduled_run : SchedulerJob → Time → T (Unit {0})
  unfolding stored_queue
  create_scheduled_run job scheduled w =
      stored_queue (record w { next_id = w.next_id + 1 })
        (p.create_run_if_not_exists (scheduled_run job scheduled w.next_id) w.queue)

  unfoldable pub stored_jobs : Plan p → Answer (p.jobs.Db × ℕ) → Result (Unit {0}) × Plan p
  stored_jobs w (done (db, n)) = (ok tt, record w { jobs = db })
  stored_jobs w (fault x) = (err (database x), w)

  -- `UpdateJob`, of all columns; `id` is the key of `job`.
  unfoldable pub update_job : ℕ → SchedulerJob → T (Unit {0})
  unfolding stored_jobs
  update_job id job w = stored_jobs w (p.jobs.update_where id (λ _. true) (λ _. job) w.jobs)

  unfoldable pub get_job : ℕ → T (Option SchedulerJob)
  get_job id w = read_answer w (p.jobs.first id w.jobs)

  unfoldable pub move_on : ℕ → SchedulerJob → Result (Option Time × Bool) → T (Unit {0})
  move_on id job (err x) = fail x
  move_on id job (ok (next, enabled)) =
      update_job id (record job { next_run_at = next; enabled = some enabled })

  unfoldable pub enqueue_at : ℕ → SchedulerJob → Option Time → T (Unit {0})
  enqueue_at id job none = return tt
  enqueue_at id job (some scheduled) =
      create_scheduled_run job scheduled >> move_on id job (compute_next_schedule job scheduled)

  unfoldable pub enqueue_fresh : ℕ → Time → Option SchedulerJob → T (Unit {0})
  enqueue_fresh id now none = return tt
  enqueue_fresh id now (some job) =
      if is_due now job then enqueue_at id job job.next_run_at else return tt

  -- `WithTx` is gorm's `Transaction`, of which this is the documented behaviour: an error undoes the statements that are
  -- made through `tx`, as all those of this transaction are.
  unfoldable pub committed : Plan p → Result (Unit {0}) × Plan p → Result (Unit {0}) × Plan p
  committed w (ok x, v) = (ok x, v)
  committed w (err x, v) = (err x, record w { next_id = v.next_id })

  unfoldable pub enqueue_one : Time → SchedulerJob → T (Unit {0})
  unfolding committed
  enqueue_one now job w = committed w ((get_job job.id >>= enqueue_fresh job.id now) w)

  unfoldable pub enqueue_each : Time → List SchedulerJob → T (Unit {0})
  enqueue_each now [] = return tt
  enqueue_each now (job ∷ rest) = enqueue_one now job >> enqueue_each now rest

  unfoldable pub list_jobs_due : Time → T (List SchedulerJob)
  list_jobs_due now w = read_answer w (p.jobs.find (is_due now) p.dispatch_batch_size w.jobs)

  unfoldable pub enqueue_due_jobs : Time → T (Unit {0})
  enqueue_due_jobs now = list_jobs_due now >>= enqueue_each now
