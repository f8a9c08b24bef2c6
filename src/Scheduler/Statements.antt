-- ===== src/Scheduler/Statements.antt =====
-- The statements on the table `ep_scheduler_job_run`: the conditions and the columns that each update
-- of internal/scheduler/infra/repository.go sets. The condition on the primary key is the table's own.
use edge_pilot.Base.{
  ℕ, ◌+◌, Bool, false, ◌&&◌, ◌||◌, Option, none, some, leb, ltb, ◌==◌, if◌then◌else◌, [],
}
use edge_pilot.Base.Text.{Text, text_eq}
use edge_pilot.Cron.Calendar.{Time}
use edge_pilot.Store.Base.{Table}
use edge_pilot.Store.Effect.{M, query, exec, ◌>>=◌, return}
use edge_pilot.Model.Scheduler.{
  SchedulerJobRun, SchedulerJobRunStatus, pending, dispatched, running, retry_waiting, failed,
  status_eq,
}

abbrev pub run_id : SchedulerJobRun → ℕ
run_id r = r.id

abbrev pub Runs : Type 1
Runs = Table ℕ SchedulerJobRun run_id ◌==◌

-- `column IS NOT NULL AND column <= now`.
unfoldable pub reached : Option Time → Time → Bool
reached none now = false
reached (some t) now = leb t now

-- `column IS NOT NULL AND column > now`.
unfoldable pub still_ahead : Option Time → Time → Bool
still_ahead none now = false
still_ahead (some t) now = ltb now t

-- `status IN (dispatched, running)`.
unfoldable pub in_flight : SchedulerJobRun → Bool
unfolding status_eq
in_flight r = status_eq r.status dispatched || status_eq r.status running

-- The condition of `ListDispatchableRuns`.
unfoldable pub is_dispatchable : Time → SchedulerJobRun → Bool
unfolding status_eq reached
is_dispatchable now r =
    status_eq r.status pending
    || (status_eq r.status retry_waiting && reached r.next_retry_at now)
    || (status_eq r.status dispatched && reached r.lease_expires_at now)
    || (status_eq r.status running && reached r.lease_expires_at now)

-- The condition of `ClaimRun`.
unfoldable pub is_claimable : Time → SchedulerJobRun → Bool
unfolding status_eq reached
is_claimable now r =
    status_eq r.status pending
    || (status_eq r.status retry_waiting && reached r.next_retry_at now)
    || (status_eq r.status dispatched
        && (reached r.lease_expires_at now && leb r.attempt r.max_retries))
    || (status_eq r.status running
        && (reached r.lease_expires_at now && leb r.attempt r.max_retries))

-- The columns that `ClaimRun` sets. The old row decides the `CASE` of the column `attempt`.
unfoldable pub set_claimed : Text → Time → Time → SchedulerJobRun → SchedulerJobRun
unfolding in_flight reached
set_claimed leased_by lease now r = record r {
  status = dispatched;
  leased_by = leased_by;
  lease_expires_at = some lease;
  dispatched_at = some now;
  next_retry_at = none;
  attempt = if in_flight r && reached r.lease_expires_at now then r.attempt + 1 else r.attempt;
}

-- `id = ? AND leased_by = ? AND status IN (dispatched, running)`.
unfoldable pub is_held_by : Text → SchedulerJobRun → Bool
unfolding in_flight
is_held_by executor r = text_eq r.leased_by executor && in_flight r

unfoldable pub coalesce : Option Time → Time → Option Time
coalesce none t = some t
coalesce (some s) t = some s

unfoldable pub set_running : Time → SchedulerJobRun → SchedulerJobRun
unfolding coalesce
set_running now r = record r { status = running; started_at = coalesce r.started_at now }

unfoldable pub is_renewable : Text → Time → SchedulerJobRun → Bool
unfolding is_held_by still_ahead
is_renewable executor now r = is_held_by executor r && still_ahead r.lease_expires_at now

unfoldable pub set_lease : Time → SchedulerJobRun → SchedulerJobRun
set_lease lease r = record r { lease_expires_at = some lease }

-- The arguments of `CompleteRun`.
pub record Completion : Type 0 where
  pub status : SchedulerJobRunStatus
  pub attempt : ℕ
  pub next_retry_at : Option Time
  pub completed_at : Option Time
  pub error_message : Text

unfoldable pub set_completed : Completion → SchedulerJobRun → SchedulerJobRun
set_completed c r = record r {
  status = c.status;
  attempt = c.attempt;
  next_retry_at = c.next_retry_at;
  completed_at = c.completed_at;
  lease_expires_at = none;
  leased_by = [];
  error_message = c.error_message;
}

-- `id = ? AND leased_by = ? AND status = dispatched`.
unfoldable pub is_dispatched_to : Text → SchedulerJobRun → Bool
unfolding status_eq
is_dispatched_to executor r = text_eq r.leased_by executor && status_eq r.status dispatched

unfoldable pub set_dispatch_failed : Text → SchedulerJobRun → SchedulerJobRun
set_dispatch_failed message r = record r {
  status = pending;
  leased_by = [];
  lease_expires_at = none;
  error_message = message;
}

-- The condition of `MarkExpiredRunFailed`.
unfoldable pub is_exhausted : Time → SchedulerJobRun → Bool
unfolding in_flight reached
is_exhausted now r = in_flight r && (reached r.lease_expires_at now && ltb r.max_retries r.attempt)

unfoldable pub set_expired : Time → Text → SchedulerJobRun → SchedulerJobRun
set_expired now message r = record r {
  status = failed;
  completed_at = some now;
  leased_by = [];
  lease_expires_at = none;
  error_message = message;
}

module _ (runs : Runs) where
  unfoldable pub get_run : ℕ → M runs.Db (Option SchedulerJobRun)
  get_run id = query (runs.first id)

  -- `RowsAffected > 0`.
  unfoldable pub update_run :
      ℕ → (SchedulerJobRun → Bool) → (SchedulerJobRun → SchedulerJobRun) → M runs.Db Bool
  update_run id p f = exec (runs.update_where id p f) >>= λ n. return (ltb 0 n)

  unfoldable pub claim_run : ℕ → Text → Time → Time → M runs.Db Bool
  claim_run id leased_by lease now =
      update_run id (is_claimable now) (set_claimed leased_by lease now)

  unfoldable pub mark_run_running_row : ℕ → Text → Time → M runs.Db Bool
  mark_run_running_row id executor now = update_run id (is_held_by executor) (set_running now)

  unfoldable pub renew_run_lease_row : ℕ → Text → Time → Time → M runs.Db Bool
  renew_run_lease_row id executor lease now =
      update_run id (is_renewable executor now) (set_lease lease)

  unfoldable pub complete_run_row : ℕ → Text → Completion → M runs.Db Bool
  complete_run_row id executor c = update_run id (is_held_by executor) (set_completed c)

  unfoldable pub mark_run_dispatch_failed : ℕ → Text → Text → M runs.Db Bool
  mark_run_dispatch_failed id executor message =
      update_run id (is_dispatched_to executor) (set_dispatch_failed message)

  unfoldable pub mark_expired_run_failed : ℕ → Time → Text → M runs.Db Bool
  mark_expired_run_failed id now message =
      update_run id (is_exhausted now) (set_expired now message)
