-- ===== src/Scheduler/Dispatch.antt =====
-- How runs reach executors: `dispatchDueRuns` of internal/scheduler/application/service.go and what it
-- calls. The executors that are connected, their delivery, the table of executors, which dispatching
-- only reads, and the resolver of live slots are parameters.
use edge_pilot.Base.{ℕ, Bool, true, false, Option, none, some, List, [], ◌∷◌, if◌then◌else◌}
use edge_pilot.Base.Int.{ℤ}
use edge_pilot.Base.Text.{Text, codes, is_empty}
use edge_pilot.Cron.Calendar.{Time}
use edge_pilot.Store.Base.{Answer, done, fault}
use edge_pilot.Store.Effect.{M, Result, ok, err, Error, database, executor_offline, read_answer}
use edge_pilot.Store.Program.{◌>>=◌, ◌>>◌, return, fail}
use edge_pilot.Model.Slot.{Slot, blue}
use edge_pilot.Model.Scheduler.{
  SchedulerJobRun, SchedulerExecutor, SchedulerDispatchCursor, SchedulerDispatchPolicy,
  fixed_live_slot,
}
use edge_pilot.Scheduler.Statements.{
  Runs, get_run, update_run, claim_run, mark_run_dispatch_failed, mark_expired_run_failed,
  is_dispatchable,
}
use edge_pilot.Scheduler.Lease.{should_fail_expired_run, effective_lease_timeout, lease_end}
use edge_pilot.Scheduler.Pick.{
  OnlineExecutor, executor_dispatchable, sort_by_id, target_service_id, pick_fixed,
  pick_round_robin, moved_cursor,
}

pub record Engine : Type 1 where
  pub runs : Runs
  pub Cursors : Type 0
  pub get_dispatch_cursor : ℕ → Text → Cursors → Answer (Option SchedulerDispatchCursor)
  pub save_dispatch_cursor : SchedulerDispatchCursor → Cursors → Answer Cursors
  pub get_executor : Text → Answer (Option SchedulerExecutor)
  pub resolve_live_slot : Option (ℕ → Result Slot)
  pub parse_id : Text → Result ℕ
  pub list_online_executors : Text → List OnlineExecutor
  pub dispatch_run : Text → SchedulerJobRun → Answer (Unit {0})
  -- `err.Error()`.
  pub error_text : Error → Text
  -- The configuration: seconds of a lease, nanoseconds of the heartbeat, and the size of a batch.
  pub default_lease : ℤ
  pub heartbeat_timeout : ℤ
  pub dispatch_batch_size : Option ℕ

module _ (e : Engine) where
  pub record Board : Type 0 where
    pub runs : e.runs.Db
    pub cursors : e.Cursors

module _ (e : Engine) where
  abbrev pub S : Type 0 → Type 0
  S A = M (Board e) A

  unfoldable pub lifted : {A : Type 0} → Board e → Result A × e.runs.Db → Result A × Board e
  lifted w (a, db) = (a, record w { runs = db })

  -- A statement on the table of runs.
  unfoldable pub on_runs : {A : Type 0} → M e.runs.Db A → S A
  unfolding lifted
  on_runs m w = lifted w (m w.runs)

  unfoldable pub stored_cursor : Board e → Answer e.Cursors → Result (Unit {0}) × Board e
  stored_cursor w (done c) = (ok tt, record w { cursors = c })
  stored_cursor w (fault x) = (err (database x), w)

  unfoldable pub get_cursor : ℕ → Text → S (Option SchedulerDispatchCursor)
  get_cursor job group w = read_answer w (e.get_dispatch_cursor job group w.cursors)

  unfoldable pub save_cursor : SchedulerDispatchCursor → S (Unit {0})
  unfolding stored_cursor
  save_cursor c w = stored_cursor w (e.save_dispatch_cursor c w.cursors)

  unfoldable pub read_executor : Text → S (Option SchedulerExecutor)
  read_executor id w = read_answer w (e.get_executor id)

  -- `filterEnabledOnlineExecutors`.
  unfoldable pub kept_if : Bool → OnlineExecutor → List OnlineExecutor → List OnlineExecutor
  kept_if true x rest = x ∷ rest
  kept_if false x rest = rest

  unfoldable pub filter_enabled_online_executors :
      List OnlineExecutor → Time → S (List OnlineExecutor)
  filter_enabled_online_executors [] now = return []
  filter_enabled_online_executors (x ∷ xs) now = do
    executor ← read_executor x.executor_id
    rest ← filter_enabled_online_executors xs now
    return (kept_if (executor_dispatchable e.heartbeat_timeout now executor) x rest)

  unfoldable pub as_step : {A : Type 0} → Result A → S A
  as_step (ok a) = return a
  as_step (err x) = fail x

  -- Blue where the service has no resolver.
  unfoldable pub slot_by : Option (ℕ → Result Slot) → ℕ → S Slot
  slot_by none service = return blue
  slot_by (some resolve) service = as_step (resolve service)

  unfoldable pub live_slot : ℕ → S Slot
  live_slot service = slot_by e.resolve_live_slot service

  unfoldable pub offline_if_none : Option OnlineExecutor → S Text
  offline_if_none none = fail executor_offline
  offline_if_none (some x) = return x.executor_id

  unfoldable pub pick_by_slot : SchedulerJobRun → List OnlineExecutor → S Text
  pick_by_slot run online = do
    service ← as_step (target_service_id e.parse_id run)
    slot ← live_slot service
    offline_if_none (pick_fixed e.parse_id slot service online)

  unfoldable pub save_pick :
      SchedulerJobRun → Option SchedulerDispatchCursor → Option OnlineExecutor → S Text
  save_pick run cursor none = fail executor_offline
  save_pick run cursor (some x) =
      save_cursor (moved_cursor run x.executor_id cursor) >> return x.executor_id

  unfoldable pub pick_by_turn : SchedulerJobRun → List OnlineExecutor → S Text
  pick_by_turn run online = get_cursor run.job_id run.executor_group >>= λ cursor.
      save_pick run cursor (pick_round_robin cursor online)

  unfoldable pub pick_by : SchedulerDispatchPolicy → SchedulerJobRun → List OnlineExecutor → S Text
  pick_by fixed_live_slot run online = pick_by_slot run online
  pick_by _ run online = pick_by_turn run online

  -- `pickExecutorID`, of a list that is not empty.
  unfoldable pub pick_executor_id : SchedulerJobRun → List OnlineExecutor → S Text
  pick_executor_id run online = pick_by run.dispatch_policy run online

  -- The chosen executor, or the empty text where another engine has claimed the run.
  unfoldable pub chosen_if : Text → Bool → Text
  chosen_if chosen true = chosen
  chosen_if chosen false = []

  unfoldable pub claim_for : SchedulerJobRun → Time → Text → S Text
  claim_for run now chosen =
      if is_empty chosen
      then fail executor_offline
      else on_runs (
          claim_run e.runs run.id chosen
            (lease_end now (effective_lease_timeout run e.default_lease)) now)
        >>= λ claimed. return (chosen_if chosen claimed)

  unfoldable pub pick_among : SchedulerJobRun → Time → List OnlineExecutor → S Text
  pick_among run now [] = fail executor_offline
  pick_among run now (x ∷ xs) = pick_executor_id run (sort_by_id (x ∷ xs)) >>= claim_for run now

  unfoldable pub pick_executor_and_claim : SchedulerJobRun → Time → S Text
  pick_executor_and_claim run now =
      filter_enabled_online_executors (e.list_online_executors run.executor_group) now
      >>= pick_among run now

  -- An error of the choice is written to the run. `stored` has the run's key.
  unfoldable pub note_error : SchedulerJobRun → Text → Option SchedulerJobRun → S (Unit {0})
  note_error run message none = return tt
  note_error run message (some stored) =
      on_runs
        (update_run e.runs run.id (λ _. true) (λ _. record stored { error_message = message }))
      >>= λ _. return tt

  unfoldable pub undo_claim : SchedulerJobRun → Text → Text → Option SchedulerJobRun → S (Unit {0})
  undo_claim run executor message none = return tt
  undo_claim run executor message (some stored) =
      on_runs (mark_run_dispatch_failed e.runs run.id executor message) >>= λ _. return tt

  unfoldable pub delivered : SchedulerJobRun → Text → Answer (Unit {0}) → S (Unit {0})
  delivered run executor (done _) = return tt
  delivered run executor (fault message) =
      on_runs (get_run e.runs run.id) >>= undo_claim run executor message

  -- Errors that the loop drops.
  unfoldable pub dropped : Result (Unit {0}) × Board e → Result (Unit {0}) × Board e
  dropped (a, w) = (ok tt, w)

  unfoldable pub picked : SchedulerJobRun → Result Text × Board e → Result (Unit {0}) × Board e
  unfolding dropped
  picked run (err x, w) =
      dropped ((on_runs (get_run e.runs run.id) >>= note_error run (e.error_text x)) w)
  picked run (ok executor, w) =
      if is_empty executor
      then (ok tt, w)
      else dropped (delivered run executor (e.dispatch_run executor run) w)

  -- One turn of the loop of `dispatchDueRuns`.
  unfoldable pub dispatch_one : Time → SchedulerJobRun → S (Unit {0})
  unfolding picked
  dispatch_one now run w =
      if should_fail_expired_run run now
      then (on_runs (
              mark_expired_run_failed e.runs run.id now
                (codes "run lease expired and retries exhausted"))
            >>= λ _. return tt)
          w
      else picked run (pick_executor_and_claim run now w)

  unfoldable pub dispatch_each : Time → List SchedulerJobRun → S (Unit {0})
  dispatch_each now [] = return tt
  dispatch_each now (run ∷ runs) = dispatch_one now run >> dispatch_each now runs

  unfoldable pub list_dispatchable_runs : Time → S (List SchedulerJobRun)
  list_dispatchable_runs now w =
      read_answer w (e.runs.find (is_dispatchable now) e.dispatch_batch_size w.runs)

  unfoldable pub dispatch_due_runs : Time → S (Unit {0})
  dispatch_due_runs now = list_dispatchable_runs now >>= dispatch_each now
