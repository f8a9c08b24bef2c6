-- ===== src/Release/Start.antt =====
-- A release is requested, started and retried: `CreateFromCI`, `Start` and `Retry` of
-- internal/release/application/service.go and what they call. The time that the source reads from the
-- clock, at several points, is the argument `now`.
use edge_pilot.Base.{ℕ, Bool, false, ◌&&◌, ◌||◌, not, Option, none, some, ◌++◌, ◌==◌, if◌then◌else◌}
use edge_pilot.Base.Text.{Text, codes, trim_space}
use edge_pilot.Cron.Calendar.{Time}
use edge_pilot.Store.Effect.{Error, Result, read_answer, bad_request, conflict, dispatch_failed}
use edge_pilot.Store.Program.{◌>>=◌, ◌>>◌, return, fail}
use edge_pilot.Model.Event
use edge_pilot.Model.Event.{
  release_deduplicated, release_requested, release_started, release_retried, release_superseded,
  release_auto_skipped, dispatch_deferred,
}
use edge_pilot.Model.Slot.{unset, slot_eq}
use edge_pilot.Model.Release.{
  Release, ReleaseStatus, Task, TaskStatus, TaskAttempt, dispatching, completed, failed, skipped,
  queued, is_queued, is_skipped, is_failed,
}
use edge_pilot.Release.World.{
  Backend, R, Spec, Delivery, delivered, agent_offline, undelivered, ReleaseOutput, stored_release,
  stored_task, get_release, update_release, update_task, new_id, create_task_attempt, audit,
  enrich_release_output,
}
use edge_pilot.Release.Traffic.{found}
use edge_pilot.Release.Queries.{
  has_active_release, has_traffic_split_release, has_newer_successful_release,
  find_queued_or_active_duplicate, list_queued_before, list_releases, each, is_traffic_split_status,
}
use edge_pilot.Release.Deploy.{
  next_slot, first_non_empty, validate_deployment_spec, new_deploy_task,
}

-- `dto.CreateReleaseFromCIRequest`.
pub record CreateRequest : Type 0 where
  pub service_key : Text
  pub image_repo : Text
  pub image_tag : Text
  pub commit_sha : Text
  pub triggered_by : Text
  pub trace_id : Text
  pub release_notes : Text

-- The release as `Start` and `Retry` prepare it, and as it is dispatched.
unfoldable pub prepared : Spec → Release → Release
unfolding next_slot
prepared spec r = record r {
  agent_id = spec.agent_id;
  previous_live_slot = spec.current_live_slot;
  target_slot = next_slot spec.current_live_slot;
  traffic_percent = 0;
  switch_confirmed = some false;
  completed_at = none;
}

unfoldable pub dispatched_release : ℕ → Release → Release
dispatched_release task r = record r { current_task_id = some task; status = dispatching }

-- Whether a release is completed to make room in the slot that `current` goes to.
unfoldable pub makes_room : Release → Release → Bool
unfolding is_traffic_split_status
makes_room current item =
    not (item.id == current.id)
    && (item.service_id == current.service_id)
    && slot_eq item.target_slot current.target_slot
    && is_traffic_split_status item.status
    && (item.traffic_percent == 0)

unfoldable pub ended_as : ReleaseStatus → Time → Release → Release
ended_as status now r = record r { status = status; completed_at = some now }

unfoldable pub attempt_of :
    Task → Text → TaskStatus → Text → Option Time → Option Time → ℕ → TaskAttempt
attempt_of task agent status message started ended id = record {
  id = id;
  task_id = task.id;
  agent_id = agent;
  status = status;
  message = message;
  started_at = started;
  completed_at = ended;
}

unfoldable pub requested_release : CreateRequest → Spec → Time → ℕ → Release
requested_release req spec now id = record {
  id = id;
  created_at = now;
  service_id = spec.id;
  agent_id = spec.agent_id;
  image_repo = first_non_empty req.image_repo spec.image_repo;
  image_tag = req.image_tag;
  commit_sha = req.commit_sha;
  triggered_by = req.triggered_by;
  trace_id = req.trace_id;
  release_notes = req.release_notes;
  status = queued;
  traffic_percent = 0;
  target_slot = next_slot spec.current_live_slot;
  previous_live_slot = spec.current_live_slot;
  current_task_id = none;
  switch_confirmed = some false;
  completed_at = none;
}

module _ (b : Backend) where
  unfoldable pub require : Bool → Error → R b (Unit {0})
  require test e = if test then return tt else fail e

  -- A value that is computed, or asked of another part, without the state.
  unfoldable pub given : {A : Type 0} → Result A → R b A
  given a w = (a, w)

  unfoldable pub create_release : Release → R b (Unit {0})
  create_release r w = stored_release b w (b.releases.create r w.releases)

  unfoldable pub create_task : Task → R b (Unit {0})
  create_task t w = stored_task b w (b.tasks.create t w.tasks)

  unfoldable pub get_spec_by_id : ℕ → R b Spec
  get_spec_by_id id w = (b.get_spec id w.catalog, w)

  unfoldable pub get_spec_by_key : Text → R b Spec
  get_spec_by_key key w = (b.get_spec_by_key key w.catalog, w)

  unfoldable pub check_online : Text → R b Bool
  check_online agent w = read_answer w (b.is_online agent)

  unfoldable pub supersede_item : Release → Text → Time → Release → R b (Unit {0})
  supersede_item current operator now item =
      if makes_room current item
      then (do
        update_release b (ended_as completed now item)
        audit b (ended_as completed now item) release_superseded operator)
      else return tt

  unfoldable pub complete_superseded_release : Release → Text → Time → R b (Unit {0})
  complete_superseded_release current operator now =
      if (current.service_id == 0) || slot_eq current.target_slot unset
      then return tt
      else list_releases b 0 >>= each b (supersede_item current operator now)

  unfoldable pub skip_item : Text → Time → Release → R b (Unit {0})
  skip_item message now item = do
    update_release b (ended_as skipped now item)
    audit b (ended_as skipped now item) release_auto_skipped message

  unfoldable pub auto_skip_queued_before_start : Release → Text → Time → R b (Unit {0})
  auto_skip_queued_before_start current operator now =
      if current.service_id == 0
      then return tt
      else list_queued_before b current.service_id current.created_at current.id
        >>= each b (
            skip_item
              (codes "operator="
                ++ trim_space operator
                ++ codes " started_release_id="
                ++ b.id_text current.id)
              now)

  unfoldable pub fail_release : Text → Time → Option Release → R b (Unit {0})
  fail_release message now none = return tt
  fail_release message now (some r) = do
    update_release b (ended_as failed now r)
    audit b (ended_as failed now r) Event.dispatch_failed message

  unfoldable pub mark_dispatch_failed : Task → Text → Time → R b (Unit {0})
  unfolding attempt_of
  mark_dispatch_failed task message now = do
    update_task b (record task {
      status = TaskStatus.failed;
      completed_at = some now;
      last_error = message;
      last_step = codes "dispatch_failed";
    })
    create_task_attempt b (attempt_of task task.agent_id TaskStatus.failed message none (some now))
    get_release b task.release_id >>= fail_release message now

  unfoldable pub audit_deferred : Task → Option Release → R b (Unit {0})
  audit_deferred task none = return tt
  audit_deferred task (some r) = audit b r dispatch_deferred (b.id_text task.id)

  -- What follows the dispatcher's answer. The task is the one in memory, marked as dispatched.
  unfoldable pub after_delivery : Task → Time → Delivery → R b (Unit {0})
  after_delivery task now delivered = return tt
  after_delivery task now agent_offline = do
    update_task b (record task {
      status = TaskStatus.pending;
      dispatched_at = none;
      last_step = codes "dispatch_deferred";
    })
    get_release b task.release_id >>= audit_deferred task
  after_delivery task now (undelivered e) = do
    mark_dispatch_failed task e now
    fail (dispatch_failed e)

  unfoldable pub dispatch : Task → Time → R b (Unit {0})
  unfolding attempt_of
  dispatch task now = do
    let sent : Task = record task {
      status = TaskStatus.dispatched;
      dispatched_at = some now;
      last_step = codes "dispatched";
    }
    update_task b sent
    create_task_attempt b
        (attempt_of task task.agent_id TaskStatus.dispatched (codes "dispatched") (some now) none)
    after_delivery sent now (b.dispatch_task task.agent_id sent)

  -- From the task on, `Start` and `Retry` are the same but for the event.
  unfoldable pub launch : Event.Event → Release → Task → Text → Time → R b (Unit {0})
  launch event r task operator now = do
    create_task task
    update_release b (dispatched_release task.id r)
    audit b (dispatched_release task.id r) event operator
    dispatch task now

  unfoldable pub make_deploy_task : Release → Spec → Time → R b Task
  make_deploy_task r spec now = do
    auth ← given (b.resolve_auth r.image_repo)
    id ← new_id b
    given (new_deploy_task b r spec auth now id)

  -- The specification, where the service may be deployed and its agent is online.
  unfoldable pub deployable_spec : ℕ → R b Spec
  deployable_spec service = do
    spec ← get_spec_by_id service
    require spec.enabled (bad_request (codes "service 已禁用"))
    given (validate_deployment_spec spec)
    online ← check_online spec.agent_id
    require online (conflict (codes "agent not online"))
    return spec

  unfoldable pub require_no_newer : Release → R b (Unit {0})
  require_no_newer r =
      if is_skipped r.status
      then (has_newer_successful_release b r.service_id r.created_at >>= λ newer.
          require (not newer) (conflict (codes "a newer successful release exists")))
      else return tt

  unfoldable pub refuse_active : Bool → R b ReleaseOutput
  refuse_active split = fail (
      conflict (
        if split
        then codes
            "service has in-progress traffic split (1-99%), finish at 0% or 100% before starting a new release"
        else codes "service has active release"))

  unfoldable pub start_checked : Release → Text → Time → R b ReleaseOutput
  start_checked r operator now = do
    spec ← deployable_spec r.service_id
    complete_superseded_release (prepared spec r) operator now
    task ← make_deploy_task (prepared spec r) spec now
    launch release_started (prepared spec r) task operator now
    auto_skip_queued_before_start (dispatched_release task.id (prepared spec r)) operator now
    enrich_release_output b (dispatched_release task.id (prepared spec r))

  unfoldable pub start_unless : Release → Text → Time → Bool → R b ReleaseOutput
  start_unless r operator now active =
      if active
      then has_traffic_split_release b r.service_id >>= refuse_active
      else start_checked r operator now

  unfoldable pub start_found : Text → Time → Release → R b ReleaseOutput
  start_found operator now r = do
    require (is_queued r.status || is_skipped r.status) (conflict (codes "release is not queued"))
    require_no_newer r
    active ← has_active_release b r.service_id
    start_unless r operator now active

  unfoldable pub start : ℕ → Text → Time → R b ReleaseOutput
  start id operator now = get_release b id >>= λ o. found b o (start_found operator now)

  unfoldable pub retry_checked : Release → Text → Time → R b ReleaseOutput
  retry_checked r operator now = do
    spec ← deployable_spec r.service_id
    complete_superseded_release (prepared spec r) operator now
    task ← make_deploy_task (prepared spec r) spec now
    launch release_retried (prepared spec r) task operator now
    enrich_release_output b (dispatched_release task.id (prepared spec r))

  unfoldable pub retry_unless : Release → Text → Time → Bool → R b ReleaseOutput
  retry_unless r operator now active =
      if active
      then fail (conflict (codes "service has active release"))
      else retry_checked r operator now

  unfoldable pub retry_found : Text → Time → Release → R b ReleaseOutput
  retry_found operator now r = do
    require (is_failed r.status) (conflict (codes "release is not failed"))
    active ← has_active_release b r.service_id
    retry_unless r operator now active

  unfoldable pub retry : ℕ → Text → Time → R b ReleaseOutput
  retry id operator now = get_release b id >>= λ o. found b o (retry_found operator now)

  -- With a release that is queued or active for the same image nothing is created.
  unfoldable pub create_unless : CreateRequest → Spec → Time → Option Release → R b ReleaseOutput
  create_unless req spec now (some duplicate) = do
    audit b (record duplicate { trace_id = req.trace_id }) release_deduplicated
        (b.id_text duplicate.id)
    enrich_release_output b duplicate
  create_unless req spec now none = do
    id ← new_id b
    create_release (requested_release req spec now id)
    audit b (requested_release req spec now id) release_requested (codes "release queued")
    enrich_release_output b (requested_release req spec now id)

  unfoldable pub create_from_ci : CreateRequest → Time → R b ReleaseOutput
  create_from_ci req now = do
    spec ← get_spec_by_key req.service_key
    require spec.enabled (bad_request (codes "service 已禁用"))
    duplicate ← find_queued_or_active_duplicate b spec.id req.image_tag req.commit_sha
    create_unless req spec now duplicate
