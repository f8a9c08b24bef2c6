-- ===== src/Release/Operations.antt =====
-- The operations of internal/release/application/service.go that change releases, but for `Start` and
-- `Retry`, in any order.
use edge_pilot.Base.{ℕ, ◌≡◌, refl, ap, ◌∙◌, true, some, List, [], ◌∷◌}
use edge_pilot.Base.Text.{Text}
use edge_pilot.Cron.Calendar.{Time}
use edge_pilot.Model.Release.{Release, is_terminal}
use edge_pilot.Release.World.{Backend, World}
use edge_pilot.Release.Traffic
use edge_pilot.Release.Traffic.{set_traffic_percent, confirm_switch}
use edge_pilot.Release.Reported.{TaskUpdate}
use edge_pilot.Release.Tasks.{handle_task_update}
use edge_pilot.Release.Orderly.{SavesStatus, Orderly, TableOrderly, row-TableOrderly}
use edge_pilot.Release.Ended.{
  IsOrderly, skip-IsOrderly, rollback-IsOrderly, set_traffic_percent-IsOrderly,
}
use edge_pilot.Release.Start.{CreateRequest, create_from_ci}
use edge_pilot.Release.Recovery.{
  recover_agent_tasks, fail_stale_tasks, record_agent_offline_timeout,
}
use edge_pilot.Release.Requests.{
  create_from_ci-IsOrderly, recover_agent_tasks-IsOrderly, fail_stale_tasks-IsOrderly,
  record_agent_offline_timeout-IsOrderly,
}
use edge_pilot.Release.Reports.{handle_task_update-IsOrderly}

-- A call of the service, with its time.
pub data Call : Type 0 where
  skip rollback : (id : ℕ) (operator : Text) (now : Time) → Call
  set_percent : (id percent : ℕ) (operator : Text) (now : Time) → Call
  confirm : (id : ℕ) (operator : Text) (now : Time) → Call
  task_update : (agent : Text) (update : TaskUpdate) (now : Time) → Call
  create : (request : CreateRequest) (now : Time) → Call
  recover : (agent : Text) (running : List Text) (now : Time) → Call
  fail_stale : (now : Time) → Call
  offline_timeout : (agent : Text) → Call

-- The state after a call, whether it returns a value or an error.
unfoldable pub after : (b : Backend) → Call → World b → World b
after b (skip id operator now) w = (Traffic.skip b id operator now w).1
after b (rollback id operator now) w = (Traffic.rollback b id operator now w).1
after b (set_percent id percent operator now) w =
    (set_traffic_percent b id percent operator now w).1
after b (confirm id operator now) w = (confirm_switch b id operator now w).1
after b (task_update agent update now) w = (handle_task_update b agent update now w).1
after b (create request now) w = (create_from_ci b request now w).1
after b (recover agent running now) w = (recover_agent_tasks b agent running now w).1
after b (fail_stale now) w = (fail_stale_tasks b now w).1
after b (offline_timeout agent) w = (record_agent_offline_timeout b agent w).1

unfoldable pub after_all : (b : Backend) → List Call → World b → World b
after_all b [] w = w
after_all b (c ∷ cs) w = after_all b cs (after b c w)

pub after-TableOrderly :
    (b : Backend) (saves : SavesStatus b) (c : Call) (w : World b)
    → TableOrderly b w.releases (after b c w).releases
unfolding after IsOrderly confirm_switch
after-TableOrderly b saves (skip id operator now) w =
    (skip-IsOrderly b saves id operator now).keeps_rows w
after-TableOrderly b saves (rollback id operator now) w =
    (rollback-IsOrderly b saves id operator now).keeps_rows w
after-TableOrderly b saves (set_percent id percent operator now) w =
    (set_traffic_percent-IsOrderly b saves id percent operator now).keeps_rows w
after-TableOrderly b saves (confirm id operator now) w =
    (set_traffic_percent-IsOrderly b saves id 100 operator now).keeps_rows w
after-TableOrderly b saves (task_update agent update now) w =
    (handle_task_update-IsOrderly b saves agent update now).keeps_rows w
after-TableOrderly b saves (create request now) w =
    (create_from_ci-IsOrderly b request now).keeps_rows w
after-TableOrderly b saves (recover agent running now) w =
    (recover_agent_tasks-IsOrderly b agent running now).keeps_rows w
after-TableOrderly b saves (fail_stale now) w =
    (fail_stale_tasks-IsOrderly b saves now).keeps_rows w
after-TableOrderly b saves (offline_timeout agent) w =
    (record_agent_offline_timeout-IsOrderly b agent).keeps_rows w

-- Where gorm's update takes over the status, a release that has ended (completed, failed, rolled back or
-- skipped) is still in the table with the same status after any sequence of calls of Skip, Rollback,
-- SetTrafficPercent, ConfirmSwitch, HandleTaskUpdate, CreateFromCI, RecoverAgentTasks, FailStaleTasks and
-- RecordAgentOfflineTimeout, whichever of them fail and wherever.
pub ended_releases_stay :
    (b : Backend) (saves : SavesStatus b) (calls : List Call) (w : World b) (id : ℕ) (r : Release)
    → b.releases.row id w.releases ≡ some r
    → is_terminal r.status ≡ true
    → (r' : Release) × ((b.releases.row id (after_all b calls w).releases ≡ some r')
        × (r'.status ≡ r.status))
unfolding after_all Orderly
ended_releases_stay b saves [] w id r h ended = (r, (h, refl))
ended_releases_stay b saves (c ∷ cs) w id r h ended =
    let k =
      row-TableOrderly b w.releases (after b c w).releases id r (after-TableOrderly b saves c w)
        h in
    let l =
      ended_releases_stay b saves cs (after b c w) id k.0 k.1
        (ap is_terminal (k.2.0 ended) ∙ ended) in
    (l.0, (l.1.0, l.1.1 ∙ k.2.0 ended))
