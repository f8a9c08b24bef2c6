-- ===== src/Examples/Requests.antt =====
-- An executor that starts a run, renews its lease and completes it.
use edge_pilot.Base.{
  Bool, ◌==◌, if◌then◌else◌, ℕ, ◌*◌, ◌≡◌, refl, subst, true, false, some, none, List, [], ◌∷◌,
  arith,
}
use edge_pilot.Cron.Calendar.{second}
use edge_pilot.Model.Scheduler.{is_terminal, SchedulerJobRun}
use edge_pilot.Scheduler.Lifecycle.{IsValid, SameRun, ⟶*-IsValid}
use edge_pilot.Scheduler.Statements.{
  complete_run_row, get_run, is_dispatchable, is_held_by, is_renewable, mark_run_running_row,
  renew_run_lease_row, set_claimed, set_running, update_run, set_completed, set_lease,
}
use edge_pilot.Scheduler.Runs.{
  complete_found, complete_run, found, mark_run_running, renew_found, renew_run_lease,
  require_updated, start_found, completion,
}
use edge_pilot.Scheduler.Dispatch.{
  dispatch_due_runs, dispatch_each, list_dispatchable_runs, on_runs, Board,
}
use edge_pilot.Scheduler.Requests.{
  Request, start, renew, complete, dispatch, after_all, runs_stay-IsValid,
}
use edge_pilot.Base.Text.{text_eq}
use edge_pilot.Store.Program.{return, ◌>>=◌}
use edge_pilot.Examples.Runs.{
  table, worker, claimed, started, fresh-IsValid, fresh⟶*claimed, holding,
}
use edge_pilot.Scheduler.Lease.{lease_end}
use edge_pilot.Base.Int.{pos}
use edge_pilot.Store.Memory.{memory}
use edge_pilot.Examples.Dispatching.{engine}

abbrev board : Board engine
board = record { runs = holding claimed; cursors = none }

abbrev requests : List Request
requests =
    start 7 worker (1002 * second)
    ∷ renew 7 worker (1005 * second)
    ∷ complete 7 worker true false [] (1010 * second)
    ∷ dispatch (1020 * second)
    ∷ []

held-IsValid : (k : ℕ) (r : SchedulerJobRun) → table.row k board.runs ≡ some r → IsValid r
unfolding holding memory
held-IsValid k r e = of_row (7 == k) e
  where
    of_row : (at_key : Bool) → (if at_key then some claimed else none) ≡ some r → IsValid r
    of_row true e = subst IsValid (same claimed r e) (⟶*-IsValid fresh⟶*claimed fresh-IsValid)
      where
        same : (x y : SchedulerJobRun) → some x ≡ some y → x ≡ y
        same x y e = cc
    of_row false e = ground arith

ended : SchedulerJobRun
ended =
    let renewed = set_lease (lease_end (1005 * second) (pos 30)) started in
    set_completed (completion renewed true false [] (1010 * second)) renewed

ended_there : table.row 7 (after_all engine board requests).runs ≡ some ended
unfolding after_all completion text_eq is_terminal dispatch_due_runs dispatch_each
    list_dispatchable_runs on_runs complete_found complete_run found mark_run_running renew_found
    renew_run_lease require_updated start_found complete_run_row get_run is_dispatchable is_held_by
    is_renewable mark_run_running_row renew_run_lease_row set_claimed set_running update_run return
    ◌>>=◌ ended holding memory set_completed set_lease
ended_there = refl

runs_stay-IsValid_example :
    (r : SchedulerJobRun) × (table.row 7 board.runs ≡ some r) × SameRun r ended × IsValid ended
runs_stay-IsValid_example = runs_stay-IsValid engine board requests held-IsValid 7 ended ended_there
