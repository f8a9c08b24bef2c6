-- ===== src/Scheduler/Dispatched.antt =====
-- What dispatching does to the table of runs: `dispatchDueRuns` of
-- internal/scheduler/application/service.go.
use edge_pilot.Base.{
  ℕ, ◌≡◌, refl, Bool, true, Option, none, some, List, [], ◌∷◌, Bool-cases, inl, inr,
}
use edge_pilot.Base.Text.{Text, is_empty}
use edge_pilot.Cron.Calendar.{Time}
use edge_pilot.Store.Base.{Answer, done, fault}
use edge_pilot.Store.Effect.{M, Result, ok, err, Error, then_run, read_answer}
use edge_pilot.Store.Program.{◌>>=◌, ◌>>◌, return, fail}
use edge_pilot.Model.Slot.{Slot}
use edge_pilot.Model.Scheduler.{
  SchedulerJobRun, SchedulerDispatchCursor, SchedulerDispatchPolicy, round_robin, fixed_live_slot,
  unknown_policy,
}
use edge_pilot.Scheduler.Statements.{get_run, update_run}
use edge_pilot.Scheduler.Lease.{should_fail_expired_run}
use edge_pilot.Scheduler.Lifecycle.{note}
use edge_pilot.Scheduler.Moves.{
  TableMove, TableMove-refl, TableMove-trans, update_run-at, claim_run-Follows,
  mark_run_dispatch_failed-Follows, mark_expired_run_failed-Follows, Follows,
}
use edge_pilot.Scheduler.Pick.{OnlineExecutor}
use edge_pilot.Scheduler.Dispatch.{
  Engine, Board, S, lifted, on_runs, stored_cursor, get_cursor, save_cursor, read_executor,
  filter_enabled_online_executors, as_step, slot_by, live_slot, pick_by, offline_if_none,
  pick_by_slot, save_pick, pick_by_turn, pick_executor_id, claim_for, pick_among,
  pick_executor_and_claim, note_error, undo_claim, delivered, dropped, picked, dispatch_one,
  dispatch_each, list_dispatchable_runs, dispatch_due_runs,
}

module _ (e : Engine) where
  abbrev pub Moved : Board e → Board e → Type 0
  Moved w w' = TableMove e.runs w.runs w'.runs

  -- From every state the step changes the runs along the diagram only.
  pub record Steps {A : Type 0} (m : S e A) : Type 0 where
    pub steps : (w : Board e) → Moved w (m w).1

  then_run-Moved :
      {A B : Type 0} (w : Board e) (a : Result A × Board e) (f : A → S e B)
      → Moved w a.1
      → ((x : A) → Steps (f x))
      → Moved w (then_run a f).1
  then_run-Moved w (ok x, v) f h g =
      TableMove-trans e.runs w.runs v.runs (f x v).1.runs h ((g x).steps v)
  then_run-Moved w (err x, v) f h g = h

  >>=-Steps :
      {A B : Type 0} {m : S e A} {f : A → S e B}
      → Steps m
      → ((x : A) → Steps (f x))
      → Steps (m >>= f)
  unfolding ◌>>=◌
  >>=-Steps {m} {f} h g = record { steps = λ w. then_run-Moved w (m w) f (h.steps w) g }

  >>-Steps : {B : Type 0} {m : S e (Unit {0})} {k : S e B} → Steps m → Steps k → Steps (m >> k)
  unfolding ◌>>◌
  >>-Steps {m} {k} h g = record {
    steps = λ w. then_run-Moved w (m w) (λ _. k) (h.steps w) (λ _. g);
  }

  return-Steps : {A : Type 0} (x : A) → Steps (return {S = Board e} x)
  unfolding return
  return-Steps x = record { steps = λ w. TableMove-refl e.runs w.runs }

  fail-Steps : {A : Type 0} (x : Error) → Steps (fail {S = Board e} {A = A} x)
  unfolding fail
  fail-Steps x = record { steps = λ w. TableMove-refl e.runs w.runs }

  on_runs-Steps : {A : Type 0} (m : M e.runs.Db A) → Follows e.runs m → Steps (on_runs e m)
  unfolding on_runs lifted
  on_runs-Steps m h = record { steps = λ w. h w.runs }

  read_answer-Moved : {A : Type 0} (w : Board e) (a : Answer A) → Moved w (read_answer w a).1
  read_answer-Moved w (done x) = TableMove-refl e.runs w.runs
  read_answer-Moved w (fault x) = TableMove-refl e.runs w.runs

  stored_cursor-Moved : (w : Board e) (a : Answer e.Cursors) → Moved w (stored_cursor e w a).1
  unfolding stored_cursor
  stored_cursor-Moved w (done c) = TableMove-refl e.runs w.runs
  stored_cursor-Moved w (fault x) = TableMove-refl e.runs w.runs

  get_cursor-Steps : (job : ℕ) (group : Text) → Steps (get_cursor e job group)
  unfolding get_cursor
  get_cursor-Steps job group = record {
    steps = λ w. read_answer-Moved w (e.get_dispatch_cursor job group w.cursors);
  }

  save_cursor-Steps : (c : SchedulerDispatchCursor) → Steps (save_cursor e c)
  unfolding save_cursor
  save_cursor-Steps c = record {
    steps = λ w. stored_cursor-Moved w (e.save_dispatch_cursor c w.cursors);
  }

  read_executor-Steps : (id : Text) → Steps (read_executor e id)
  unfolding read_executor
  read_executor-Steps id = record { steps = λ w. read_answer-Moved w (e.get_executor id) }

  filter-Steps :
      (online : List OnlineExecutor) (now : Time)
      → Steps (filter_enabled_online_executors e online now)
  unfolding filter_enabled_online_executors
  filter-Steps [] now = return-Steps []
  filter-Steps (x ∷ xs) now =
      >>=-Steps (read_executor-Steps x.executor_id)
        λ executor. >>=-Steps (filter-Steps xs now) (λ rest. return-Steps _)

  as_step-Steps : {A : Type 0} (a : Result A) → Steps (as_step e a)
  unfolding as_step
  as_step-Steps (ok x) = return-Steps x
  as_step-Steps (err x) = fail-Steps x

  slot_by-Steps : (o : Option (ℕ → Result Slot)) (service : ℕ) → Steps (slot_by e o service)
  unfolding slot_by
  slot_by-Steps none service = return-Steps _
  slot_by-Steps (some resolve) service = as_step-Steps (resolve service)

  live_slot-Steps : (service : ℕ) → Steps (live_slot e service)
  unfolding live_slot
  live_slot-Steps service = slot_by-Steps e.resolve_live_slot service

  offline_if_none-Steps : (o : Option OnlineExecutor) → Steps (offline_if_none e o)
  unfolding offline_if_none
  offline_if_none-Steps none = fail-Steps _
  offline_if_none-Steps (some x) = return-Steps _

  save_pick-Steps :
      (run : SchedulerJobRun) (cursor : Option SchedulerDispatchCursor) (o : Option OnlineExecutor)
      → Steps (save_pick e run cursor o)
  unfolding save_pick
  save_pick-Steps run cursor none = fail-Steps _
  save_pick-Steps run cursor (some x) = >>-Steps (save_cursor-Steps _) (return-Steps _)

  pick_by_slot-Steps :
      (run : SchedulerJobRun) (online : List OnlineExecutor) → Steps (pick_by_slot e run online)
  unfolding pick_by_slot
  pick_by_slot-Steps run online =
      >>=-Steps (as_step-Steps _)
        λ service. >>=-Steps (live_slot-Steps service) (λ slot. offline_if_none-Steps _)

  pick_by_turn-Steps :
      (run : SchedulerJobRun) (online : List OnlineExecutor) → Steps (pick_by_turn e run online)
  unfolding pick_by_turn
  pick_by_turn-Steps run online =
      >>=-Steps (get_cursor-Steps _ _) (λ cursor. save_pick-Steps run cursor _)

  pick_by-Steps :
      (p : SchedulerDispatchPolicy) (run : SchedulerJobRun) (online : List OnlineExecutor)
      → Steps (pick_by e p run online)
  unfolding pick_by
  pick_by-Steps fixed_live_slot run online = pick_by_slot-Steps run online
  pick_by-Steps round_robin run online = pick_by_turn-Steps run online
  pick_by-Steps unknown_policy run online = pick_by_turn-Steps run online

  claim_for-Steps :
      (run : SchedulerJobRun) (now : Time) (chosen : Text) → Steps (claim_for e run now chosen)
  unfolding claim_for
  claim_for-Steps run now chosen = elim (Bool-cases (is_empty chosen)) [
    | inl nobody ↦ rw nobody (fail-Steps _)
    | inr somebody ↦ rw somebody (
        >>=-Steps (on_runs-Steps _ (claim_run-Follows e.runs run.id chosen _ now))
          (λ claimed. return-Steps _))
  ]

  pick_among-Steps :
      (run : SchedulerJobRun) (now : Time) (online : List OnlineExecutor)
      → Steps (pick_among e run now online)
  unfolding pick_among pick_executor_id
  pick_among-Steps run now [] = fail-Steps _
  pick_among-Steps run now (x ∷ xs) =
      >>=-Steps (pick_by-Steps run.dispatch_policy run _) (claim_for-Steps run now)

  pick_executor_and_claim-Steps :
      (run : SchedulerJobRun) (now : Time) → Steps (pick_executor_and_claim e run now)
  unfolding pick_executor_and_claim
  pick_executor_and_claim-Steps run now = >>=-Steps (filter-Steps _ now) (pick_among-Steps run now)

  -- The text of an error is written over the row that has just been read.
  note_read-Moved :
      (run : SchedulerJobRun) (message : Text) (w : Board e) (a : Answer (Option SchedulerJobRun))
      → e.runs.first run.id w.runs ≡ a
      → Moved w (then_run (lifted e w (read_answer w.runs a)) (note_error e run message)).1
  unfolding note_error lifted on_runs ◌>>=◌ return
  note_read-Moved run message w (fault x) h = TableMove-refl e.runs w.runs
  note_read-Moved run message w (done none) h = TableMove-refl e.runs w.runs
  note_read-Moved run message w (done (some stored)) h =
      ended
        (update_run e.runs run.id (λ _. true) (λ _. record stored { error_message = message })
          w.runs)
        (update_run-at e.runs run.id (λ _. true) (λ _. record stored { error_message = message })
          w.runs
          λ r is_r _.
            let is_stored = e.runs.first_row run.id w.runs (some stored) h in
            let same : stored ≡ r = cc in rw same (note r message))
    where
      ended :
          (a : Result Bool × e.runs.Db)
          → TableMove e.runs w.runs a.1
          → Moved w (then_run (lifted e w a) (λ _. return {S = Board e} (tt {0}))).1
      ended (ok x, db) m = m
      ended (err x, db) m = m

  undo_claim-Steps :
      (run : SchedulerJobRun) (executor message : Text) (o : Option SchedulerJobRun)
      → Steps (undo_claim e run executor message o)
  unfolding undo_claim
  undo_claim-Steps run executor message none = return-Steps _
  undo_claim-Steps run executor message (some stored) =
      >>=-Steps (on_runs-Steps _ (mark_run_dispatch_failed-Follows e.runs run.id executor message))
        (λ _. return-Steps _)

  get_run-Steps : (id : ℕ) → Steps (on_runs e (get_run e.runs id))
  unfolding get_run
  get_run-Steps id = on_runs-Steps _ (λ db. answered db (e.runs.first id db))
    where
      answered :
          (db : e.runs.Db) (a : Answer (Option SchedulerJobRun))
          → TableMove e.runs db (read_answer db a).1
      answered db (done o) = TableMove-refl e.runs db
      answered db (fault x) = TableMove-refl e.runs db

  delivered-Steps :
      (run : SchedulerJobRun) (executor : Text) (a : Answer (Unit {0}))
      → Steps (delivered e run executor a)
  unfolding delivered
  delivered-Steps run executor (done _) = return-Steps _
  delivered-Steps run executor (fault message) =
      >>=-Steps (get_run-Steps run.id) (undo_claim-Steps run executor message)

  dropped-Moved :
      (w : Board e) (a : Result (Unit {0}) × Board e) → Moved w a.1 → Moved w (dropped e a).1
  unfolding dropped
  dropped-Moved w (a, v) h = h

  noted-Moved :
      (run : SchedulerJobRun) (message : Text) (w : Board e)
      → Moved w ((on_runs e (get_run e.runs run.id) >>= note_error e run message) w).1
  unfolding ◌>>=◌ on_runs get_run
  noted-Moved run message w = note_read-Moved run message w (e.runs.first run.id w.runs) refl

  picked-Moved :
      (run : SchedulerJobRun) (w : Board e) (a : Result Text × Board e)
      → Moved w a.1
      → Moved w (picked e run a).1
  unfolding picked
  picked-Moved run w (err x, v) h =
      let step = on_runs e (get_run e.runs run.id) >>= note_error e run (e.error_text x) in
      TableMove-trans e.runs w.runs v.runs (dropped e (step v)).1.runs h
        (dropped-Moved v (step v) (noted-Moved run (e.error_text x) v))
  picked-Moved run w (ok executor, v) h = elim (Bool-cases (is_empty executor)) [
    | inl nobody ↦ rw nobody h
    | inr somebody ↦
        let step = delivered e run executor (e.dispatch_run executor run) in
        rw somebody (
          TableMove-trans e.runs w.runs v.runs (dropped e (step v)).1.runs h (
            dropped-Moved v (step v)
              ((delivered-Steps run executor (e.dispatch_run executor run)).steps v)))
  ]

  dispatch_one-Steps : (now : Time) (run : SchedulerJobRun) → Steps (dispatch_one e now run)
  unfolding dispatch_one
  dispatch_one-Steps now run = record {
    steps = λ w. elim (Bool-cases (should_fail_expired_run run now)) [
      | inl over ↦ rw over (
          (>>=-Steps (on_runs-Steps _ (mark_expired_run_failed-Follows e.runs run.id now _))
              (λ _. return-Steps (tt {0}))).steps
            w)
      | inr open' ↦
          rw open' (picked-Moved run w _ ((pick_executor_and_claim-Steps run now).steps w))
    ];
  }

  dispatch_each-Steps : (now : Time) (rs : List SchedulerJobRun) → Steps (dispatch_each e now rs)
  unfolding dispatch_each
  dispatch_each-Steps now [] = return-Steps _
  dispatch_each-Steps now (run ∷ rs) =
      >>-Steps (dispatch_one-Steps now run) (dispatch_each-Steps now rs)

  list_dispatchable_runs-Steps : (now : Time) → Steps (list_dispatchable_runs e now)
  unfolding list_dispatchable_runs
  list_dispatchable_runs-Steps now = record { steps = λ w. read_answer-Moved w _ }

  -- A round of dispatching, `DispatchDueRuns`, keeps every run in the table, adds none, and takes each one
  -- along the diagram of a run's changes only: expired runs fail, others are claimed, a claim is given back
  -- where the delivery fails, and an error of the choice is noted. This holds whichever of its statements
  -- fail.
  pub dispatch_due_runs-Moved : (now : Time) (w : Board e) → Moved w (dispatch_due_runs e now w).1
  unfolding dispatch_due_runs
  dispatch_due_runs-Moved now w =
      (>>=-Steps (list_dispatchable_runs-Steps now) (dispatch_each-Steps now)).steps w
