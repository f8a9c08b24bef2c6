-- ===== src/Release/Reads.antt =====
-- Steps of internal/release that leave the table of releases alone: the queries, the tasks, and what
-- comes from other parts.
use edge_pilot.Base.{ℕ, ◌≡◌, refl, Bool, true, false, Option, none, some, List}
use edge_pilot.Base.Text.{Text}
use edge_pilot.Cron.Calendar.{Time}
use edge_pilot.Store.Base.{Answer, done, fault}
use edge_pilot.Store.Effect.{Error, Result, read_answer}
use edge_pilot.Store.Program.{◌>>=◌}
use edge_pilot.Model.Release.{Release, Task, is_skipped}
use edge_pilot.Release.World.{Backend, World, Spec, stored_task}
use edge_pilot.Release.Queries.{
  find_releases, has_release, has_traffic_split_release, has_newer_successful_release,
  find_queued_or_active_duplicate, list_queued_before, list_releases, list_active_tasks,
  list_recoverable_tasks_by_agent,
}
use edge_pilot.Release.Start.{
  require, given, create_task, get_spec_by_id, get_spec_by_key, check_online, make_deploy_task,
  deployable_spec, require_no_newer, refuse_active, audit_deferred,
}
use edge_pilot.Release.Recovery.{
  recover_running, replay, audit_replayed, after_replay, recover_task, record_agent_offline_timeout,
}
use edge_pilot.Release.Quiet.{
  Quiet, >>=-Quiet, >>-Quiet, return-Quiet, fail-Quiet, if-Quiet, audit-Quiet, new_id-Quiet,
  update_task-Quiet, create_task_attempt-Quiet, get_release-Quiet, log_audit-Quiet,
}

module _ (b : Backend) where
  -- A step that hands back the state it was given.
  same-Quiet : {A : Type 0} (f : World b → Result A) → Quiet b (λ w. (f w, w))
  same-Quiet f = record { keeps = λ w. refl }

  answer-Quiet : {A : Type 0} (f : World b → Answer A) → Quiet b (λ w. read_answer w (f w))
  answer-Quiet f = record { keeps = λ w. answered w (f w) }
    where
      answered :
          {A : Type 0} (w : World b) (a : Answer A) → (read_answer w a).1.releases ≡ w.releases
      answered w (done a) = refl
      answered w (fault e) = refl

  find_releases-Quiet : (p : Release → Bool) (n : Option ℕ) → Quiet b (find_releases b p n)
  unfolding find_releases
  find_releases-Quiet p n = answer-Quiet (λ w. b.releases.find p n w.releases)

  pub has_release-Quiet : (p : Release → Bool) → Quiet b (has_release b p)
  unfolding has_release
  has_release-Quiet p = >>=-Quiet b (find_releases-Quiet p none) (λ rows. return-Quiet b _)

  pub find_duplicate-Quiet :
      (service : ℕ) (tag commit : Text)
      → Quiet b (find_queued_or_active_duplicate b service tag commit)
  unfolding find_queued_or_active_duplicate
  find_duplicate-Quiet service tag commit =
      >>=-Quiet b (find_releases-Quiet _ (some 1)) (λ rows. return-Quiet b _)

  pub list_queued_before-Quiet :
      (service : ℕ) (created_at : Time) (id : ℕ)
      → Quiet b (list_queued_before b service created_at id)
  unfolding list_queued_before
  list_queued_before-Quiet service created_at id = find_releases-Quiet _ none

  pub list_releases-Quiet : (limit : ℕ) → Quiet b (list_releases b limit)
  unfolding list_releases
  list_releases-Quiet limit = find_releases-Quiet _ _

  pub list_active_tasks-Quiet : Quiet b (list_active_tasks b)
  unfolding list_active_tasks
  list_active_tasks-Quiet = answer-Quiet _

  pub list_recoverable-Quiet : (agent : Text) → Quiet b (list_recoverable_tasks_by_agent b agent)
  unfolding list_recoverable_tasks_by_agent
  list_recoverable-Quiet agent = answer-Quiet _

  pub require-Quiet : (test : Bool) (e : Error) → Quiet b (require b test e)
  unfolding require
  require-Quiet test e = if-Quiet b test (return-Quiet b tt) (fail-Quiet b e)

  pub given-Quiet : {A : Type 0} (a : Result A) → Quiet b (given b a)
  unfolding given
  given-Quiet a = same-Quiet (λ w. a)

  pub get_spec_by_key-Quiet : (key : Text) → Quiet b (get_spec_by_key b key)
  unfolding get_spec_by_key
  get_spec_by_key-Quiet key = same-Quiet _

  stored_task-keeps :
      (w : World b) (a : Answer b.tasks.Db) → (stored_task b w a).1.releases ≡ w.releases
  unfolding stored_task
  stored_task-keeps w (done x) = refl
  stored_task-keeps w (fault e) = refl

  pub create_task-Quiet : (t : Task) → Quiet b (create_task b t)
  unfolding create_task
  create_task-Quiet t = record { keeps = λ w. stored_task-keeps w (b.tasks.create t w.tasks) }

  pub make_deploy_task-Quiet :
      (r : Release) (spec : Spec) (now : Time) → Quiet b (make_deploy_task b r spec now)
  unfolding make_deploy_task
  make_deploy_task-Quiet r spec now =
      >>=-Quiet b (given-Quiet _) (λ auth. >>=-Quiet b (new_id-Quiet b) (λ id. given-Quiet _))

  pub deployable_spec-Quiet : (service : ℕ) → Quiet b (deployable_spec b service)
  unfolding deployable_spec get_spec_by_id check_online
  deployable_spec-Quiet service = >>=-Quiet b (same-Quiet _) λ spec.
      >>-Quiet b (require-Quiet _ _) (
        >>-Quiet b (given-Quiet _) (
          >>=-Quiet b (answer-Quiet _)
            (λ online. >>-Quiet b (require-Quiet _ _) (return-Quiet b spec))))

  pub require_no_newer-Quiet : (r : Release) → Quiet b (require_no_newer b r)
  unfolding require_no_newer has_newer_successful_release
  require_no_newer-Quiet r =
      if-Quiet b (is_skipped r.status)
        (>>=-Quiet b (has_release-Quiet _) (λ newer. require-Quiet _ _)) (return-Quiet b tt)

  pub refuse_active-Quiet :
      (service : ℕ) → Quiet b (has_traffic_split_release b service >>= refuse_active b)
  unfolding has_traffic_split_release refuse_active
  refuse_active-Quiet service = >>=-Quiet b (has_release-Quiet _) (λ split. fail-Quiet b _)

  pub audit_deferred-Quiet : (t : Task) (o : Option Release) → Quiet b (audit_deferred b t o)
  unfolding audit_deferred
  audit_deferred-Quiet t none = return-Quiet b tt
  audit_deferred-Quiet t (some r) = audit-Quiet b r _ _

  audit_replayed-Quiet : (t : Task) (o : Option Release) → Quiet b (audit_replayed b t o)
  unfolding audit_replayed
  audit_replayed-Quiet t none = return-Quiet b tt
  audit_replayed-Quiet t (some r) = audit-Quiet b r _ _

  after_replay-Quiet :
      (agent : Text) (now : Time) (t : Task) (replayed : Bool)
      → Quiet b (after_replay b agent now t replayed)
  unfolding after_replay
  after_replay-Quiet agent now t false = return-Quiet b tt
  after_replay-Quiet agent now t true = >>-Quiet b (update_task-Quiet b _) (
      >>-Quiet b (create_task_attempt-Quiet b _)
        (>>=-Quiet b (get_release-Quiet b t.release_id) (audit_replayed-Quiet t)))

  -- Recovery touches tasks only.
  pub recover_task-Quiet :
      (agent : Text) (running : List Text) (now : Time) (t : Task)
      → Quiet b (recover_task b agent running now t)
  unfolding recover_task recover_running replay
  recover_task-Quiet agent running now t =
      if-Quiet b _
        (if-Quiet b _ (>>-Quiet b (update_task-Quiet b _) (create_task_attempt-Quiet b _))
          (return-Quiet b tt))
        (>>=-Quiet b (answer-Quiet _) (after_replay-Quiet agent now t))

  pub record_agent_offline_timeout-Quiet :
      (agent : Text) → Quiet b (record_agent_offline_timeout b agent)
  unfolding record_agent_offline_timeout
  record_agent_offline_timeout-Quiet agent =
      >>=-Quiet b (new_id-Quiet b) (λ id. log_audit-Quiet b _)
