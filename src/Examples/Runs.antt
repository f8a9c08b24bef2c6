-- ===== src/Examples/Runs.antt =====
-- A run of the scheduler, internal/scheduler, in a table in memory.
use edge_pilot.Base.{
  subst, ◌+◌, ◌*◌, ◌≤◌, ◌<◌, ◌≡◌, refl, ◌≢◌, true, false, none, some, [], ◌∷◌, ◌==◌, ==_iff, arith,
  if◌then◌else◌,
}
use edge_pilot.Base.Int.{pos_part, pos}
use edge_pilot.Base.Text.{Text, codes, text_eq}
use edge_pilot.Cron.Calendar.{second}
use edge_pilot.Store.Memory.{memory}
use edge_pilot.Store.Effect.{ok}
use edge_pilot.Model.Scheduler.{SchedulerJobRun, pending, round_robin, is_terminal}
use edge_pilot.Scheduler.Statements.{
  Runs, run_id, is_claimable, set_claimed, is_held_by, set_running, set_completed, set_lease,
  is_renewable, update_run, claim_run,
}
use edge_pilot.Scheduler.Runs.{completion, complete_run, mark_run_running, renew_run_lease}
use edge_pilot.Scheduler.Lease.{
  lease_end, effective_lease_timeout, lease_end-later, retry_backoff, retry_backoff_lem,
}
use edge_pilot.Scheduler.Lifecycle.{
  ◌⟶*◌, here, next, claim, start, complete, note, IsValid, ⟶*-IsValid, ⟶*-SameRun, SameRun, Outcome,
  terminal_absorbs,
}
use edge_pilot.Scheduler.Ownership.{
  Exact, complete_run-Exact, mark_run_running-Exact, renew_run_lease-Exact, claim_run_exclusive,
}

abbrev pub table : Runs
table = memory run_id ◌==◌ (λ a b. (==_iff a b).0)

abbrev pub fresh : SchedulerJobRun
fresh = record {
  id = 7;
  job_id = 1;
  handler_key = codes "report";
  service_id = 3;
  payload = none;
  status = pending;
  attempt = 1;
  max_retries = 2;
  lease_timeout_sec = pos 30;
  scheduled_at = 1000 * second;
  dispatched_at = none;
  started_at = none;
  completed_at = none;
  lease_expires_at = none;
  leased_by = [];
  next_retry_at = none;
  error_message = [];
  idempotency_key = codes "k";
  dispatch_policy = round_robin;
  executor_group = codes "batch";
}

abbrev pub worker : Text
worker = codes "worker-1"

abbrev pub claimed : SchedulerJobRun
claimed = set_claimed worker (1031 * second) (1001 * second) fresh

abbrev pub started : SchedulerJobRun
started = set_running (1002 * second) claimed

abbrev finished : SchedulerJobRun
finished = set_completed (completion started true false [] (1010 * second)) started

pub fresh-IsValid : IsValid fresh
unfolding is_terminal
fresh-IsValid = record {
  attempt_capped = omega arith;
  leased = ground arith;
  unleased = λ _ _. (refl, refl);
  waiting = ground arith;
  over = ground arith;
  unfinished = λ _. refl;
}

pub fresh⟶*claimed : fresh ⟶* claimed
fresh⟶*claimed =
    next here (claim fresh worker (1031 * second) (1001 * second) (unfold is_claimable in refl))

fresh⟶*finished : fresh ⟶* finished
unfolding set_claimed set_running is_held_by text_eq
fresh⟶*finished =
    next (next fresh⟶*claimed (start claimed worker (1002 * second) refl))
      (complete started worker true false [] (1010 * second) refl)

⟶*-IsValid_example : IsValid finished
⟶*-IsValid_example = ⟶*-IsValid fresh⟶*finished fresh-IsValid

⟶*-SameRun_example : SameRun fresh finished
⟶*-SameRun_example = ⟶*-SameRun fresh⟶*finished

-- A message that is noted on a run that is over.
noted : finished ⟶* record finished { error_message = worker }
noted = next here (note finished worker)

terminal_absorbs_example : Outcome finished (record finished { error_message = worker })
terminal_absorbs_example =
    terminal_absorbs noted (unfold is_terminal set_completed completion in refl)

-- The table with one run.
unfoldable pub holding : SchedulerJobRun → table.Db
unfolding memory
holding r = record { keys = 7 ∷ []; at = λ k. if 7 == k then some r else none }

complete_run-Exact_example :
    Exact table 7
      (λ r s.
        (is_held_by worker r ≡ true)
        × (s ≡ set_completed (completion r true false [] (1010 * second)) r))
      (holding started)
      (complete_run table 7 worker true false [] (1010 * second) (holding started))
complete_run-Exact_example =
    complete_run-Exact table 7 worker true false [] (1010 * second) (holding started)

mark_run_running-Exact_example :
    Exact table 7
      (λ r s. (is_held_by worker r ≡ true) × (s ≡ set_running (1002 * second) r))
      (holding claimed)
      (mark_run_running table 7 worker (1002 * second) (holding claimed))
mark_run_running-Exact_example =
    mark_run_running-Exact table 7 worker (1002 * second) (holding claimed)

fits :
    (r : SchedulerJobRun)
    → table.row 7 (holding started) ≡ some r
    → pos_part (effective_lease_timeout r (pos 30)) < 9223372037
unfolding holding memory effective_lease_timeout set_running set_claimed
fits r e =
    let there : some started ≡ some r = e in
    let own : started ≡ r = cc in
    subst (λ s. pos_part (effective_lease_timeout s (pos 30)) < 9223372037) own (omega arith)

-- The lease of a run with 10 000 000 000 seconds would have ended before it begins.
overflow : lease_end (1005 * second) (pos 10_000_000_000) ≡ 0
unfolding lease_end
overflow = refl

renew_run_lease-Exact_example :
    Exact table 7
      (λ r s.
        (is_renewable worker (1005 * second) r ≡ true)
        × (s ≡ set_lease (lease_end (1005 * second) (effective_lease_timeout r (pos 30))) r)
        × (1005 * second < lease_end (1005 * second) (effective_lease_timeout r (pos 30))))
      (holding started)
      (renew_run_lease table 7 worker (pos 30) (1005 * second) (holding started))
renew_run_lease-Exact_example =
    renew_run_lease-Exact table 7 worker (pos 30) (1005 * second) (holding started) fits

first_claim :
    claim_run table 7 worker (1031 * second) (1001 * second) (holding fresh)
    ≡ (ok true, (claim_run table 7 worker (1031 * second) (1001 * second) (holding fresh)).1)
unfolding claim_run update_run memory holding is_claimable
first_claim = refl

claim_run_exclusive_example :
    (claim_run table 7
      (codes "worker-2")
      (1050 * second)
      (1020 * second)
      (claim_run table 7 worker (1031 * second) (1001 * second) (holding fresh)).1).0
    ≢ ok true
claim_run_exclusive_example =
    claim_run_exclusive table 7 worker (codes "worker-2") (1031 * second) (1050 * second)
      (1001 * second) (1020 * second) (holding fresh)
      (claim_run table 7 worker (1031 * second) (1001 * second) (holding fresh)).1 first_claim
      (omega arith)

lease_end-later_example :
    1005 * second + second ≤ lease_end (1005 * second) (effective_lease_timeout started (pos 0))
unfolding effective_lease_timeout set_running set_claimed
lease_end-later_example = lease_end-later started (pos 0) (1005 * second) (omega arith)

retry_backoff_lem_example : retry_backoff 4 ≡ 40
retry_backoff_lem_example = retry_backoff_lem 4
