-- ===== src/Release/Queries.antt =====
-- The queries of internal/release/infra/repository.go on which the service decides whether a release
-- may start, and the loop over the rows of a query.
use edge_pilot.Base.{
  ℕ, Bool, true, false, ◌&&◌, ◌||◌, not, Option, none, some, List, [], ◌∷◌, ◌==◌, ltb, leb,
  if◌then◌else◌,
}
use edge_pilot.Base.Text.{Text, text_eq, is_empty}
use edge_pilot.Cron.Calendar.{Time}
use edge_pilot.Store.Effect.{read_answer}
use edge_pilot.Store.Program.{◌>>=◌, ◌>>◌, return}
use edge_pilot.Model.Release.{
  Release, ReleaseStatus, Task, completed, ready_to_switch, switched, is_busy, is_active, is_queued,
  is_task_terminal,
}
use edge_pilot.Release.World.{Backend, R, is_queued_before}

unfoldable pub is_traffic_split_status : ReleaseStatus → Bool
is_traffic_split_status ready_to_switch = true
is_traffic_split_status switched = true
is_traffic_split_status _ = false

unfoldable pub is_partial_traffic_percent : ℕ → Bool
is_partial_traffic_percent percent = leb 1 percent && leb percent 99

-- `service_id = ? AND ((status IN (dispatching, deploying)) OR (status IN (ready, switched) AND
-- traffic_percent BETWEEN 1 AND 99))`.
unfoldable pub is_active_of : ℕ → Release → Bool
unfolding is_traffic_split_status is_partial_traffic_percent
is_active_of service r =
    (r.service_id == service)
    && (is_busy r.status
        || (is_traffic_split_status r.status && is_partial_traffic_percent r.traffic_percent))

unfoldable pub is_split_of : ℕ → Release → Bool
unfolding is_traffic_split_status is_partial_traffic_percent
is_split_of service r =
    (r.service_id == service)
    && is_traffic_split_status r.status
    && is_partial_traffic_percent r.traffic_percent

unfoldable pub is_successful : ReleaseStatus → Bool
is_successful completed = true
is_successful switched = true
is_successful _ = false

unfoldable pub is_newer_successful : ℕ → Time → Release → Bool
unfolding is_successful
is_newer_successful service created_at r =
    (r.service_id == service)
    && is_successful r.status
    && (r.traffic_percent == 100)
    && ltb created_at r.created_at

unfoldable pub is_duplicate : ℕ → Text → Text → Release → Bool
is_duplicate service tag commit r =
    (r.service_id == service)
    && text_eq r.image_tag tag
    && (is_queued r.status || is_active r.status)
    && (is_empty commit || text_eq r.commit_sha commit)

unfoldable pub some_row : {A : Type 0} → List A → Bool
some_row [] = false
some_row (x ∷ xs) = true

unfoldable pub first_row_of : {A : Type 0} → List A → Option A
first_row_of [] = none
first_row_of (x ∷ xs) = some x

module _ (b : Backend) where
  unfoldable pub find_releases : (Release → Bool) → Option ℕ → R b (List Release)
  find_releases p n w = read_answer w (b.releases.find p n w.releases)

  -- `Count(&count)`, of which only `count > 0` is used.
  unfoldable pub has_release : (Release → Bool) → R b Bool
  has_release p = find_releases p none >>= λ rows. return (some_row rows)

  unfoldable pub has_active_release : ℕ → R b Bool
  has_active_release service = has_release (is_active_of service)

  unfoldable pub has_traffic_split_release : ℕ → R b Bool
  has_traffic_split_release service = has_release (is_split_of service)

  unfoldable pub has_newer_successful_release : ℕ → Time → R b Bool
  has_newer_successful_release service created_at =
      has_release (is_newer_successful service created_at)

  unfoldable pub find_queued_or_active_duplicate : ℕ → Text → Text → R b (Option Release)
  find_queued_or_active_duplicate service tag commit =
      find_releases (is_duplicate service tag commit) (some 1) >>= λ rows.
      return (first_row_of rows)

  unfoldable pub list_queued_before : ℕ → Time → ℕ → R b (List Release)
  list_queued_before service created_at id =
      find_releases (is_queued_before service created_at id) none

  unfoldable pub limit_of : ℕ → Option ℕ
  limit_of n = if ltb 0 n then some n else none

  -- `ListReleases`: a limit of 0 is none.
  unfoldable pub list_releases : ℕ → R b (List Release)
  unfolding limit_of
  list_releases limit = find_releases (λ _. true) (limit_of limit)

  -- The tasks that some release has as its current one: all that are not over, or those of one agent.
  unfoldable pub list_active_tasks : R b (List Task)
  list_active_tasks w =
      read_answer w (b.current_tasks (λ t. not (is_task_terminal t.status)) w.releases w.tasks)

  unfoldable pub list_recoverable_tasks_by_agent : Text → R b (List Task)
  list_recoverable_tasks_by_agent agent w = read_answer w (
      b.current_tasks (λ t. text_eq t.agent_id agent && not (is_task_terminal t.status)) w.releases
        w.tasks)

  -- The body of a `for … range`, which leaves the loop with its first error.
  unfoldable pub each : {A : Type 0} → (A → R b (Unit {0})) → List A → R b (Unit {0})
  each body [] = return tt
  each body (x ∷ xs) = body x >> each body xs
