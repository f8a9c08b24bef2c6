-- ===== src/Examples/Enqueuing.antt =====
-- A job of the scheduler, internal/scheduler, that is due every minute, and one of no known kind.
use edge_pilot.Base.{◌*◌, ◌≡◌, refl, true, Option, none, some, [], ◌∷◌, ◌==◌, ==_iff, if◌then◌else◌}
use edge_pilot.Base.Int.{pos}
use edge_pilot.Base.Text.{Text, codes, text_eq}
use edge_pilot.Cron.Calendar.{second, civil}
use edge_pilot.Cron.Field.{add_segments, add_cron_segment}
use edge_pilot.Cron.Next.{next_cron_time}
use edge_pilot.Store.Base.{done}
use edge_pilot.Store.Effect.{ok}
use edge_pilot.Store.Memory.{memory}
use edge_pilot.Model.Scheduler.{
  SchedulerJob, SchedulerJobRun, SchedulerScheduleKind, unknown_kind, round_robin,
}
use edge_pilot.Scheduler.Enqueue.{
  Planner, Plan, job_id, is_due, kept_or, enqueue_one, committed, get_job, enqueue_fresh,
  enqueue_at, create_scheduled_run, stored_queue, move_on, compute_next_schedule, next_of_kind,
  later_run, update_job, stored_jobs,
}
use edge_pilot.Scheduler.EnqueueLaws.{Enqueued, enqueue_one-Enqueued}
use edge_pilot.Store.Program.{◌>>=◌, ◌>>◌, return, fail}

abbrev every_minute : SchedulerJob
every_minute = record {
  id = 4;
  name = codes "beat";
  handler_key = codes "beat";
  service_id = 3;
  payload = none;
  schedule_kind = SchedulerScheduleKind.cron;
  cron_expr = codes "* * * * *";
  run_at = none;
  next_run_at = some (1200 * second);
  enabled = some true;
  dispatch_policy = round_robin;
  executor_group = codes "batch";
  lease_timeout_sec = pos 30;
  max_retries = pos 2;
  last_dispatched_seq = pos 0;
  metadata = none;
}

abbrev of_no_kind : SchedulerJob
of_no_kind = record every_minute { schedule_kind = unknown_kind }

abbrev created : SchedulerJobRun → (Text → Option SchedulerJobRun) → Text → Option SchedulerJobRun
created run q k = if text_eq run.idempotency_key k then kept_or (q k) run else q k

created_run :
    (run : SchedulerJobRun) (q q' : Text → Option SchedulerJobRun) (k : Text)
    → done (created run q) ≡ done q'
    → q' k ≡ created run q k
created_run run q q' k h = cc

abbrev planner : Planner
planner = record {
  jobs = memory job_id ◌==◌ (λ a b. (==_iff a b).0);
  Queue = Text → Option SchedulerJobRun;
  run_of = λ k q. q k;
  create_run_if_not_exists = λ run q. done (created run q);
  run_of-create_run_if_not_exists = created_run;
  scheduled_run_idempotency_key = λ id t. id ∷ t ∷ [];
  default_max_retries = pos 3;
  default_lease = pos 30;
  dispatch_batch_size = none;
}

unfoldable holding_job : SchedulerJob → planner.jobs.Db
unfolding memory
holding_job job = record { keys = 4 ∷ []; at = λ k. if 4 == k then some job else none }

abbrev plan : SchedulerJob → Plan planner
plan job = record { jobs = holding_job job; queue = λ k. none; next_id = 50 }

job_read : planner.jobs.first 4 (plan every_minute).jobs ≡ done (some every_minute)
unfolding holding_job memory
job_read = refl

succeeds : (enqueue_one planner (1201 * second) every_minute (plan every_minute)).0 ≡ ok tt
unfolding enqueue_one committed get_job enqueue_fresh enqueue_at create_scheduled_run stored_queue
    move_on compute_next_schedule next_of_kind later_run update_job stored_jobs holding_job memory
    is_due ◌>>=◌ ◌>>◌ return fail next_cron_time add_segments add_cron_segment civil
succeeds = refl

enqueue_one-Enqueued_example :
    Enqueued planner every_minute 4
      (1200 * second)
      (plan every_minute)
      (enqueue_one planner (1201 * second) every_minute (plan every_minute)).1
enqueue_one-Enqueued_example =
    enqueue_one-Enqueued planner (1201 * second) every_minute every_minute (1200 * second)
      (plan every_minute) job_read (unfold is_due in refl) refl succeeds
