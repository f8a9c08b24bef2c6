-- ===== src/Release/Requests.antt =====
-- A release that has ended, when releases are requested and tasks are recovered or run out of time:
-- `CreateFromCI`, `RecoverAgentTasks`, `FailStaleTasks` and `RecordAgentOfflineTimeout` of
-- internal/release/application/service.go.
use edge_pilot.Base.{ℕ, ◌≡◌, refl, true, not, Option, none, some, List, arith}
use edge_pilot.Base.Text.{Text}
use edge_pilot.Cron.Calendar.{Time}
use edge_pilot.Store.Base.{Answer, done, fault}
use edge_pilot.Model.Release.{Release, Task, is_busy, is_terminal}
use edge_pilot.Release.World.{Backend, World, Spec, stored_release}
use edge_pilot.Release.Start.{
  CreateRequest, create_release, requested_release, create_unless, create_from_ci, ended_as,
}
use edge_pilot.Release.Recovery.{
  may_fail, fail_task, fail_stale_task, fail_stale_tasks, recover_task, recover_agent_tasks,
  record_agent_offline_timeout,
}
use edge_pilot.Release.Deploy.{task_timed_out}
use edge_pilot.Release.Quiet.{
  >>-Quiet, return-Quiet, audit-Quiet, new_id-Quiet, update_task-Quiet, create_task_attempt-Quiet,
  enrich_release_output-Quiet,
}
use edge_pilot.Release.Reads.{
  get_spec_by_key-Quiet, require-Quiet, find_duplicate-Quiet, list_active_tasks-Quiet,
  list_recoverable-Quiet, recover_task-Quiet, record_agent_offline_timeout-Quiet,
}
use edge_pilot.Release.Kept.{
  Ends, Quiet-Holds, Quiet-Ends, Quiet-Keeps, >>-Ends, >>-Done, if-Ends, >>=-Keeps, >>-Keeps,
  if-Keeps, each-Keeps, get_release-Keeps,
}
use edge_pilot.Release.Orderly.{
  SavesStatus, IsIdle, TableOrderly, TableOrderly-refl, TableOrderly-trans, create-TableOrderly,
}
use edge_pilot.Release.Terminal.{idle-Ends}
use edge_pilot.Release.Ended.{IsOrderly}

may_fail-open :
    (task : Task) (r : Release) → may_fail task r ≡ true → is_terminal r.status ≡ true → ⊥
unfolding may_fail
may_fail-open task r h ended = ground arith

requested-IsIdle :
    (req : CreateRequest) (spec : Spec) (now : Time) (id : ℕ)
    → IsIdle (requested_release req spec now id)
unfolding requested_release IsIdle is_busy
requested-IsIdle req spec now id = refl

module _ (b : Backend) where
  stored-Orderly :
      (w : World b) (a : Answer b.releases.Db)
      → ((db : b.releases.Db) → a ≡ done db → TableOrderly b w.releases db)
      → TableOrderly b w.releases (stored_release b w a).1.releases
  unfolding stored_release
  stored-Orderly w (done db) h = h db refl
  stored-Orderly w (fault e) h = TableOrderly-refl b w.releases

  create_release-IsOrderly : (r : Release) → IsIdle r → IsOrderly b (create_release b r)
  unfolding create_release IsOrderly
  create_release-IsOrderly r idle = record {
    keeps_rows = λ w.
        stored-Orderly w (b.releases.create r w.releases)
          (λ db e. create-TableOrderly b r w.releases db idle e);
  }

  create_unless-IsOrderly :
      (req : CreateRequest) (spec : Spec) (now : Time) (o : Option Release)
      → IsOrderly b (create_unless b req spec now o)
  unfolding create_unless IsOrderly
  create_unless-IsOrderly req spec now (some duplicate) =
      Quiet-Keeps b _ _ _ (>>-Quiet b (audit-Quiet b _ _ _) (enrich_release_output-Quiet b _))
  create_unless-IsOrderly req spec now none =
      >>=-Keeps b _ _ _ (Quiet-Keeps b _ _ _ (new_id-Quiet b)) λ id.
        >>-Keeps b _ _ _
          (create_release-IsOrderly (requested_release req spec now id)
            (requested-IsIdle req spec now id))
          (Quiet-Keeps b _ _ _ (>>-Quiet b (audit-Quiet b _ _ _) (enrich_release_output-Quiet b _)))

  pub create_from_ci-IsOrderly :
      (req : CreateRequest) (now : Time) → IsOrderly b (create_from_ci b req now)
  unfolding create_from_ci IsOrderly
  create_from_ci-IsOrderly req now =
      >>=-Keeps b _ _ _ (Quiet-Keeps b _ _ _ (get_spec_by_key-Quiet b _)) λ spec.
        >>-Keeps b _ _ _ (Quiet-Keeps b _ _ _ (require-Quiet b _ _)) (
          >>=-Keeps b _ _ _ (Quiet-Keeps b _ _ _ (find_duplicate-Quiet b _ _ _))
            (create_unless-IsOrderly req spec now))

  pub recover_agent_tasks-IsOrderly :
      (agent : Text) (running : List Text) (now : Time)
      → IsOrderly b (recover_agent_tasks b agent running now)
  unfolding recover_agent_tasks IsOrderly
  recover_agent_tasks-IsOrderly agent running now =
      >>=-Keeps b _ _ _ (Quiet-Keeps b _ _ _ (list_recoverable-Quiet b agent)) λ tasks.
        each-Keeps b _ _ _ (recover_task b agent running now) tasks
          (λ task. Quiet-Keeps b _ _ _ (recover_task-Quiet b agent running now task))

  pub record_agent_offline_timeout-IsOrderly :
      (agent : Text) → IsOrderly b (record_agent_offline_timeout b agent)
  unfolding IsOrderly
  record_agent_offline_timeout-IsOrderly agent =
      Quiet-Keeps b _ _ _ (record_agent_offline_timeout-Quiet b agent)

module _ (b : Backend) (saves : SavesStatus b) where
  fail_task-Ends :
      (now : Time) (task : Task) (o : Option Release)
      → Ends b
          (TableOrderly b)
          (TableOrderly-refl b)
          (TableOrderly-trans b)
          (λ db. b.releases.row task.release_id db ≡ o)
          (fail_task b now task o)
  unfolding fail_task ended_as is_busy
  fail_task-Ends now task none = Quiet-Ends b _ _ _ (return-Quiet b tt)
  fail_task-Ends now task (some r) =
      if-Ends b _ _ _ (may_fail task r)
        (λ may. >>-Ends b _ _ _ (Quiet-Holds b _ _ _ (update_task-Quiet b _)) (
          >>-Done b _ _ _
            (idle-Ends b saves task.release_id r _ refl (may_fail-open task r may) refl refl)
            (>>-Quiet b (create_task_attempt-Quiet b _) (audit-Quiet b _ _ _))))
        (λ _. Quiet-Ends b _ _ _ (return-Quiet b tt))

  pub fail_stale_tasks-IsOrderly : (now : Time) → IsOrderly b (fail_stale_tasks b now)
  unfolding fail_stale_tasks fail_stale_task IsOrderly
  fail_stale_tasks-IsOrderly now =
      >>=-Keeps b _ _ _ (Quiet-Keeps b _ _ _ (list_active_tasks-Quiet b)) λ tasks.
        each-Keeps b _ _ _ (fail_stale_task b now) tasks λ task.
          if-Keeps b _ _ _ (not (task_timed_out task now))
            (λ _. Quiet-Keeps b _ _ _ (return-Quiet b tt))
            (λ _.
              get_release-Keeps b _ _ _ task.release_id (fail_task b now task)
                (fail_task-Ends now task))
