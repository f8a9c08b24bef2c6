-- ===== src/Scheduler/EnqueueLaws.antt =====
-- What `enqueueDueJobs` of internal/scheduler/application/service.go does with a job that is due.
use edge_pilot.Base.{
  ℕ, ◌+◌, ◌<◌, ◌≡◌, refl, sym, ◌∙◌, subst, Bool, true, false, Option, none, some, ==_refl,
  Bool-cases, inl, inr, arith,
}
use edge_pilot.Base.Text.{Text, text_eq, text_eq_self}
use edge_pilot.Cron.Field
use edge_pilot.Cron.Field.{>>=_reads}
use edge_pilot.Cron.Calendar.{Time}
use edge_pilot.Cron.Schedule.{CronSchedule, parse_cron_schedule}
use edge_pilot.Cron.Next.{next_cron_time, next_match}
use edge_pilot.Cron.NextLaws.{Earliest, next_match-Earliest}
use edge_pilot.Store.Base.{Answer, done, fault}
use edge_pilot.Store.Effect.{Result, ok, err, then_run}
use edge_pilot.Store.Program.{◌>>=◌, ◌>>◌, fail}
use edge_pilot.Model.Scheduler.{
  SchedulerJob, SchedulerJobRun, SchedulerScheduleKind, one_time, cron, unknown_kind,
}
use edge_pilot.Scheduler.Enqueue.{
  Planner, Plan, is_due, later_run, next_of_kind, compute_next_schedule, kept_or, scheduled_run,
  stored_queue, create_scheduled_run, stored_jobs, update_job, get_job, move_on, enqueue_at,
  enqueue_fresh, committed, enqueue_one,
}

-- A job goes on at a later time, or it ends.
abbrev pub Onward : Time → Option Time → Bool → Type 0
Onward from none enabled = enabled ≡ false
Onward from (some t) enabled = (from < t) × (enabled ≡ true)

next_match-later :
    (s : CronSchedule) (from t : Time) (r : Field.Result Time)
    → Earliest s from r
    → r ≡ Field.Result.ok t
    → from < t
next_match-later s from t (Field.Result.ok u) e h = let same : u ≡ t = cc in rw same at e.1
next_match-later s from t (Field.Result.err x) e h = ground arith

next_cron_time-later :
    (expr : Text) (from t : Time) → next_cron_time expr from ≡ Field.Result.ok t → from < t
unfolding next_cron_time
next_cron_time-later expr from t h =
    let (s, parsed, found) = >>=_reads (parse_cron_schedule expr) (λ s. next_match s from) h in
    next_match-later s from t (next_match s from) (next_match-Earliest s from) found

later_run-Onward :
    (from : Time) (r : Field.Result Time) (next : Option Time) (enabled : Bool)
    → ((t : Time) → r ≡ Field.Result.ok t → from < t)
    → later_run r ≡ ok (next, enabled)
    → Onward from next enabled
unfolding later_run
later_run-Onward from (Field.Result.ok t) none enabled h e = ground arith
later_run-Onward from (Field.Result.ok t) (some u) enabled h e =
    let same : t ≡ u = cc in let on : true ≡ enabled = cc in (rw same at (h t refl), sym on)
later_run-Onward from (Field.Result.err x) next enabled h e = ground arith

next_of_kind-Onward :
    (kind : SchedulerScheduleKind) (expr : Text) (from : Time) (next : Option Time) (enabled : Bool)
    → next_of_kind kind expr from ≡ ok (next, enabled)
    → Onward from next enabled
unfolding next_of_kind
next_of_kind-Onward one_time expr from none enabled e = ground arith
next_of_kind-Onward one_time expr from (some u) enabled e = ground arith
next_of_kind-Onward cron expr from next enabled e =
    later_run-Onward from (next_cron_time expr from) next enabled (next_cron_time-later expr from) e
next_of_kind-Onward unknown_kind expr from next enabled e = ground arith

module _ (p : Planner) (job : SchedulerJob) (id : ℕ) (t : Time) where
  -- What a job that is due leaves: a run for its scheduled time, and its own row moved on.
  pub record Enqueued (w w' : Plan p) : Type 0 where
    pub run : SchedulerJobRun
    pub has_run : p.run_of (p.scheduled_run_idempotency_key job.id t) w'.queue ≡ some run
    pub next : Option Time
    pub enabled : Bool
    pub onward : Onward t next enabled
    pub moved :
        p.jobs.row id w'.jobs ≡ some (record job { next_run_at = next; enabled = some enabled })
    -- A run that was there stays as it is.
    pub kept :
        (k : Text) (r : SchedulerJobRun)
        → p.run_of k w.queue ≡ some r
        → p.run_of k w'.queue ≡ some r

  some_run :
      (o : Option SchedulerJobRun) (r : SchedulerJobRun)
      → (x : SchedulerJobRun) × (kept_or o r ≡ some x)
  some_run none r = (r, refl)
  some_run (some x) r = (x, refl)

  module _ (w : Plan p) where
    abbrev new_run : SchedulerJobRun
    new_run = scheduled_run p job t w.next_id

    keeps_runs :
        (q : p.Queue) (k : Text) (r : SchedulerJobRun)
        → p.create_run_if_not_exists new_run w.queue ≡ done q
        → p.run_of k w.queue ≡ some r
        → p.run_of k q ≡ some r
    keeps_runs q k r created there =
        p.run_of-create_run_if_not_exists new_run w.queue q k created
        ∙ rw there (elim (Bool-cases (text_eq new_run.idempotency_key k)) [
          | inl same ↦ rw same refl
          | inr other ↦ rw other refl
        ])

    has_new_run :
        (q : p.Queue)
        → p.create_run_if_not_exists new_run w.queue ≡ done q
        → (x : SchedulerJobRun) × (p.run_of (p.scheduled_run_idempotency_key job.id t) q ≡ some x)
    unfolding scheduled_run
    has_new_run q created =
        let key = p.scheduled_run_idempotency_key job.id t in
        let (x, is_x) = some_run (p.run_of key w.queue) new_run in
        (
          x,
          p.run_of-create_run_if_not_exists new_run w.queue q key created
              ∙ rw (text_eq_self key) is_x,
        )

    row_moved :
        (job' : SchedulerJob) (a : p.jobs.Db × ℕ)
        → p.jobs.row id w.jobs ≡ some job
        → p.jobs.update_where id (λ _. true) (λ _. job') w.jobs ≡ done a
        → p.jobs.row id a.0 ≡ some job'
    row_moved job' a there e =
        p.jobs.row-update_where id (λ _. true) (λ _. job') w.jobs a id e
        ∙ rw (==_refl id, there) refl

    abbrev Goal : Result (Unit {0}) × Plan p → Type 0
    Goal a = (committed p w a).0 ≡ ok tt → Enqueued w (committed p w a).1

    updated-Enqueued :
        (q : p.Queue) (next : Option Time) (enabled : Bool) (u : Answer (p.jobs.Db × ℕ))
        → p.create_run_if_not_exists new_run w.queue ≡ done q
        → p.jobs.row id w.jobs ≡ some job
        → Onward t next enabled
        → p.jobs.update_where id
            (λ _. true)
            (λ _. record job { next_run_at = next; enabled = some enabled })
            w.jobs
          ≡ u
        → Goal (stored_jobs p (record w { next_id = w.next_id + 1; queue = q }) u)
    unfolding stored_jobs committed
    updated-Enqueued q next enabled (fault x) created there onward e fine = cc
    updated-Enqueued q next enabled (done a) created there onward e fine = record {
      run = (has_new_run q created).0;
      has_run = (has_new_run q created).1;
      next = next;
      enabled = enabled;
      onward = onward;
      moved = row_moved _ a there e;
      kept = λ k r. keeps_runs q k r created;
    }

    moved-Enqueued :
        (q : p.Queue) (n : Result (Option Time × Bool))
        → p.create_run_if_not_exists new_run w.queue ≡ done q
        → p.jobs.row id w.jobs ≡ some job
        → compute_next_schedule job t ≡ n
        → Goal (move_on p id job n (record w { next_id = w.next_id + 1; queue = q }))
    unfolding move_on committed update_job fail compute_next_schedule
    moved-Enqueued q (err x) created there e fine = cc
    moved-Enqueued q (ok (next, enabled)) created there e fine =
        updated-Enqueued q next enabled _ created there
          (next_of_kind-Onward job.schedule_kind job.cron_expr t next enabled e) refl fine

    created-Enqueued :
        (c : Answer p.Queue)
        → p.create_run_if_not_exists new_run w.queue ≡ c
        → p.jobs.row id w.jobs ≡ some job
        → Goal (
            then_run
              (stored_queue p (record w { next_id = w.next_id + 1 }) c)
              (λ _. move_on p id job (compute_next_schedule job t)))
    unfolding stored_queue committed
    created-Enqueued (fault x) e there fine = cc
    created-Enqueued (done q) e there fine = moved-Enqueued q _ e there refl fine

    scheduled-Enqueued :
        (o : Option Time)
        → o ≡ some t
        → p.jobs.row id w.jobs ≡ some job
        → Goal (enqueue_at p id job o w)
    unfolding enqueue_at create_scheduled_run ◌>>◌
    scheduled-Enqueued o e there =
        subst (λ o. Goal (enqueue_at p id job o w)) (sym e) (created-Enqueued _ refl there)

-- A job that is due is enqueued once and moves on. If `enqueueDueJobs` succeeds with a listed job that it
-- reads and finds due at the scheduled time `t`, then there is a run with the idempotency key of the job
-- and `t`, every run that was there is as it was, and the job's row is as it was but for its next time, which
-- is later than `t`, or it is disabled and has none.
pub enqueue_one-Enqueued :
    (p : Planner) (now : Time) (listed job : SchedulerJob) (t : Time) (w : Plan p)
    → p.jobs.first listed.id w.jobs ≡ done (some job)
    → is_due now job ≡ true
    → job.next_run_at ≡ some t
    → (enqueue_one p now listed w).0 ≡ ok tt
    → Enqueued p job listed.id t w (enqueue_one p now listed w).1
unfolding enqueue_one get_job enqueue_fresh ◌>>=◌
enqueue_one-Enqueued p now listed job t w is_read due at_t =
    rw (is_read, due)
      (scheduled-Enqueued p job listed.id t w job.next_run_at at_t
        (sym (p.jobs.first_row listed.id w.jobs (some job) is_read)))
