-- ===== src/Release/Late.antt =====
-- Reports of agents that come late, in `HandleTaskUpdate` of internal/release/application/service.go.
use edge_pilot.Base.{ℕ, ◌+◌, ◌≡◌, refl, Bool, true, ◌||◌, not, some, Bool-cases, inl, inr}
use edge_pilot.Base.Text.{Text}
use edge_pilot.Cron.Calendar.{Time}
use edge_pilot.Store.Base.{Answer, done, fault}
use edge_pilot.Store.Effect.{ok}
use edge_pilot.Store.Program.{◌>>=◌}
use edge_pilot.Model.Event.{Event}
use edge_pilot.Model.Release.{Release, Task, is_terminal, is_task_terminal}
use edge_pilot.Release.World.{
  Backend, World, get_task, get_release, audit, new_id, log_audit, audit_row, stored_log,
}
use edge_pilot.Release.Traffic.{found}
use edge_pilot.Release.Reported.{TaskUpdate, is_current_task}
use edge_pilot.Release.Tasks.{
  record_late_task_update, update_found, task_found, parsed, handle_task_update,
}

-- A report on a task that is not the release's current one, or that is over, or whose release is over.
unfoldable pub is_late : Task → Release → Bool
is_late task r =
    not (is_current_task r.current_task_id task.id)
    || (is_task_terminal task.status || is_terminal r.status)

module _ (b : Backend) where
  -- Only the log and the supply of identifiers may differ.
  abbrev pub OnlyLogged : World b → World b → Type 0
  OnlyLogged w w' =
      (w'.releases ≡ w.releases)
      × (w'.tasks ≡ w.tasks)
      × (w'.instances ≡ w.instances)
      × (w'.catalog ≡ w.catalog)

  stored_log-OnlyLogged :
      (w v : World b) (a : Answer b.Log) → OnlyLogged w v → OnlyLogged w (stored_log b v a).1
  unfolding stored_log
  stored_log-OnlyLogged w v (done log) h = h
  stored_log-OnlyLogged w v (fault x) h = h

  audit-OnlyLogged :
      (r : Release) (event : Event) (message : Text) (w : World b)
      → OnlyLogged w (audit b r event message w).1
  unfolding audit log_audit new_id ◌>>=◌
  audit-OnlyLogged r event message w =
      let v : World b = record w { next_id = w.next_id + 1 } in
      stored_log-OnlyLogged w v (b.create_audit (audit_row b r event message w.next_id) w.log)
        (refl, refl, refl, refl)

  update_found-OnlyLogged :
      (agent : Text) (update : TaskUpdate) (now : Time) (task : Task) (r : Release) (w : World b)
      → is_late task r ≡ true
      → OnlyLogged w (update_found b agent update now task r w).1
  unfolding update_found is_late record_late_task_update
  update_found-OnlyLogged agent update now task r w late =
      elim (Bool-cases (not (is_current_task r.current_task_id task.id))) [
        | inl stale ↦ rw stale (audit-OnlyLogged r _ _ w)
        | inr current ↦
            let over : (is_task_terminal task.status || is_terminal r.status) ≡ true =
              rw current at late in
            rw (current, over) (audit-OnlyLogged r _ _ w)
      ]

  -- A report of an agent that comes late changes no release, no task, no instance and no live slot: where
  -- the task that it names and the task's release are read, and the task is not the release's current one, or
  -- is over, or the release is over, only an audit may be written.
  pub late_updates_change_nothing :
      (agent : Text) (update : TaskUpdate) (now : Time) (w : World b) (id : ℕ) (task : Task)
      (r : Release)
      → b.parse_id update.task_id ≡ ok id
      → b.tasks.first id w.tasks ≡ done (some task)
      → b.releases.first task.release_id w.releases ≡ done (some r)
      → is_late task r ≡ true
      → OnlyLogged w (handle_task_update b agent update now w).1
  unfolding handle_task_update parsed ◌>>=◌ get_task task_found get_release found
  late_updates_change_nothing agent update now w id task r is_id is_task is_release late =
      rw (is_id, is_task, is_release) (update_found-OnlyLogged agent update now task r w late)
