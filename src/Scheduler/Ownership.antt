-- ===== src/Scheduler/Ownership.antt =====
-- What the operations on a run answer, and what they leave: internal/scheduler/application/service.go
-- and the conditional updates of internal/scheduler/infra/repository.go.
use edge_pilot.Base.{
  ℕ, ◌<◌, ◌≡◌, refl, sym, ◌∙◌, ◌≢◌, inl, inr, Bool, true, false, Option, none, some, arith,
  if◌then◌else◌, Bool-cases, ◌==◌, ltb, ==_iff, ==_refl,
}
use edge_pilot.Base.Int.{pos_part, ℤ}
use edge_pilot.Base.Text.{Text, text_eq}
use edge_pilot.Cron.Calendar.{Time}
use edge_pilot.Store.Base.{Answer, done, fault, changed, affected}
use edge_pilot.Store.Effect.{M, ◌>>=◌, return, Result, ok, err, then_run, exec_answer, read_answer}
use edge_pilot.Model.Scheduler.{SchedulerJobRun, is_terminal, dispatched}
use edge_pilot.Scheduler.Statements.{
  Runs, get_run, update_run, claim_run, mark_run_running_row, renew_run_lease_row, complete_run_row,
  is_claimable, is_held_by, is_renewable, set_claimed, set_completed, set_running, set_lease,
}
use edge_pilot.Scheduler.Lease.{lease_end, lease_end-later, effective_lease_timeout}
use edge_pilot.Scheduler.Lifecycle.{held_not_claimable}
use edge_pilot.Scheduler.Runs.{
  completion, require_updated, found, start_found, renew_found, complete_found, mark_run_running,
  renew_run_lease, complete_run,
}

module _ (runs : Runs) where
  -- The table keeps all of its rows but one, which becomes `s`.
  abbrev pub Replaces : ℕ → SchedulerJobRun → runs.Db → runs.Db → Type 0
  Replaces id s db db' =
      (runs.row id db' ≡ some s) × ((k : ℕ) → (id == k) ≡ false → runs.row k db' ≡ runs.row k db)

  abbrev pub Unchanged : runs.Db → runs.Db → Type 0
  Unchanged db db' = (k : ℕ) → runs.row k db' ≡ runs.row k db

  -- An update answers whether the row was there and met the condition; it changes that row, and nothing else.
  abbrev pub Updates :
      ℕ
      → (SchedulerJobRun → Bool)
      → (SchedulerJobRun → SchedulerJobRun)
      → runs.Db
      → Result Bool × runs.Db
      → Type 0
  Updates id p f db (ok true, db') =
      (r : SchedulerJobRun) × (runs.row id db ≡ some r) × (p r ≡ true) × Replaces id (f r) db db'
  Updates id p f db (ok false, db') = Unchanged db db'
  Updates id p f db (err e, db') = Unchanged db db'

  -- What gorm says of the rows after an update.
  abbrev Rows :
      ℕ
      → (SchedulerJobRun → Bool)
      → (SchedulerJobRun → SchedulerJobRun)
      → runs.Db
      → runs.Db
      → Type 0
  Rows id p f db db' =
      (k : ℕ) → runs.row k db' ≡ (if id == k then changed p f (runs.row k db) else runs.row k db)

  unmet-Unchanged :
      (id : ℕ) (p : SchedulerJobRun → Bool) (f : SchedulerJobRun → SchedulerJobRun)
      (db db' : runs.Db) (o : Option SchedulerJobRun)
      → runs.row id db ≡ o
      → changed p f o ≡ o
      → Rows id p f db db'
      → Unchanged db db'
  unmet-Unchanged id p f db db' o e same rows k = elim (Bool-cases (id == k)) [
    | inl here ↦
        let at_k : runs.row k db ≡ o = rw ((==_iff id k).0 here) at e in
        rows k ∙ rw (here, at_k) same
    | inr there ↦ rows k ∙ rw there refl
  ]

  changed-Updates :
      (id : ℕ) (p : SchedulerJobRun → Bool) (f : SchedulerJobRun → SchedulerJobRun)
      (db db' : runs.Db) (o : Option SchedulerJobRun)
      → runs.row id db ≡ o
      → Rows id p f db db'
      → Updates id p f db (ok (ltb 0 (affected p o)), db')
  changed-Updates id p f db db' none e rows = unmet-Unchanged id p f db db' none e refl rows
  changed-Updates id p f db db' (some r) e rows = elim (Bool-cases (p r)) [
    | inl met ↦
        rw (met, Updates)
          (
            r,
            e,
            met,
            (rows id ∙ rw (==_refl id, e, changed, met) refl, λ k other. rows k ∙ rw other refl),
          )
    | inr unmet ↦
        rw (unmet, Updates)
          (unmet-Unchanged id p f db db' (some r) e (rw (changed, unmet) refl) rows)
  ]

  pub update_run-Updates :
      (id : ℕ) (p : SchedulerJobRun → Bool) (f : SchedulerJobRun → SchedulerJobRun) (db : runs.Db)
      → Updates id p f db (update_run runs id p f db)
  unfolding update_run
  update_run-Updates id p f db = go (runs.update_where id p f db) refl
    where
      go :
          (a : Answer (runs.Db × ℕ))
          → runs.update_where id p f db ≡ a
          → Updates id p f db (then_run (exec_answer db a) (λ n. return (ltb 0 n)))
      go (done (db', n)) e = rw (runs.affected_rows id p f db (db', n) e) (
          changed-Updates id p f db db' (runs.row id db) refl
            (λ k. runs.row-update_where id p f db (db', n) k e))
      go (fault x) e = λ k. refl

  -- The result of an operation that reads a row, decides by it, and updates it: success means that the
  -- row met the condition and has been replaced, and an error means that no row has changed.
  abbrev pub Exact :
      ℕ
      → (SchedulerJobRun → SchedulerJobRun → Type 0)
      → runs.Db
      → Result (Unit {0}) × runs.Db
      → Type 0
  Exact id Q db (ok _, db') =
      (r : SchedulerJobRun) × (s : SchedulerJobRun) × (runs.row id db ≡ some r)
      × Q r s
      × Replaces id s db db'
  Exact id Q db (err e, db') = Unchanged db db'

  updated-Exact :
      (id : ℕ) (p : SchedulerJobRun → Bool) (f : SchedulerJobRun → SchedulerJobRun)
      (Q : SchedulerJobRun → SchedulerJobRun → Type 0) (db : runs.Db)
      → ((r : SchedulerJobRun) → runs.row id db ≡ some r → p r ≡ true → Q r (f r))
      → Exact id Q db ((update_run runs id p f >>= require_updated) db)
  unfolding require_updated
  updated-Exact id p f Q db h = go (update_run runs id p f db) (update_run-Updates id p f db)
    where
      go :
          (a : Result Bool × runs.Db)
          → Updates id p f db a
          → Exact id Q db (then_run a require_updated)
      go (ok true, db') (r, e, met, replaced) = (r, f r, e, h r e met, replaced)
      go (ok false, db') u = u
      go (err x, db') u = u

  found-Exact :
      (id : ℕ) (Q : SchedulerJobRun → SchedulerJobRun → Type 0)
      (k : SchedulerJobRun → M runs.Db (Unit {0})) (db : runs.Db)
      → ((r : SchedulerJobRun) → runs.row id db ≡ some r → Exact id Q db (k r db))
      → Exact id Q db ((get_run runs id >>= λ o. found runs o k) db)
  unfolding get_run found
  found-Exact id Q k db h = go (runs.first id db) refl
    where
      row_of : (o : Option SchedulerJobRun) → o ≡ runs.row id db → Exact id Q db (found runs o k db)
      row_of none e = λ j. refl
      row_of (some r) e = h r (sym e)

      go :
          (a : Answer (Option SchedulerJobRun))
          → runs.first id db ≡ a
          → Exact id Q db (then_run (read_answer db a) (λ o. found runs o k))
      go (done o) e = row_of o (runs.first_row id db o e)
      go (fault x) e = λ j. refl

  -- A report of an executor on a run, `CompleteRun`, is all or nothing. If it succeeds, then the run
  -- was in flight and leased to that executor, and its row now has the outcome that belongs to the report;
  -- if it is refused or fails, then no row has changed. Other rows never change.
  pub complete_run-Exact :
      (id : ℕ) (executor : Text) (success retryable : Bool) (message : Text) (now : Time)
      (db : runs.Db)
      → Exact id
          (λ r s.
            (is_held_by executor r ≡ true)
            × (s ≡ set_completed (completion r success retryable message now) r))
          db
          (complete_run runs id executor success retryable message now db)
  unfolding complete_run complete_found complete_run_row
  complete_run-Exact id executor success retryable message now db =
      found-Exact id _ (complete_found runs id executor success retryable message now) db λ r e.
        elim (Bool-cases (text_eq r.leased_by executor)) [
          | inr other ↦ rw other (λ k. refl)
          | inl own ↦ elim (Bool-cases (is_terminal r.status)) [
            | inl over ↦ rw (own, over) (λ k. refl)
            | inr open' ↦
                rw (own, open')
                  (updated-Exact id (is_held_by executor) _ _ db
                    λ s is_s met. let same : r ≡ s = cc in (met, rw same refl))
          ]
        ]

  -- `MarkRunRunning` is all or nothing: if it succeeds, then the run was in flight and leased to that
  -- executor, and its row is now running; if it is refused or fails, then no row has changed. Other rows
  -- never change.
  pub mark_run_running-Exact :
      (id : ℕ) (executor : Text) (now : Time) (db : runs.Db)
      → Exact id
          (λ r s. (is_held_by executor r ≡ true) × (s ≡ set_running now r))
          db
          (mark_run_running runs id executor now db)
  unfolding mark_run_running start_found mark_run_running_row
  mark_run_running-Exact id executor now db =
      found-Exact id _ (start_found runs id executor now) db λ r e.
        elim (Bool-cases (is_terminal r.status)) [
          | inl over ↦ rw over (λ k. refl)
          | inr open' ↦ rw open' (
              updated-Exact id (is_held_by executor) (set_running now) _ db
                λ s is_s met. (met, refl))
        ]

  -- `RenewRunLease`, for a run whose lease in seconds fits a duration, is all or nothing: if it succeeds, then the run was in flight and leased to that
  -- executor under a lease that had not run out, and its row has a lease that ends later than `now`; if it
  -- is refused or fails, then no row has changed. Other rows never change.
  pub renew_run_lease-Exact :
      (id : ℕ) (executor : Text) (fallback : ℤ) (now : Time) (db : runs.Db)
      → ((r : SchedulerJobRun)
          → runs.row id db ≡ some r
          → pos_part (effective_lease_timeout r fallback) < 9223372037)
      → Exact id
          (λ r s.
            (is_renewable executor now r ≡ true)
            × (s ≡ set_lease (lease_end now (effective_lease_timeout r fallback)) r)
            × (now < lease_end now (effective_lease_timeout r fallback)))
          db
          (renew_run_lease runs id executor fallback now db)
  unfolding renew_run_lease renew_found renew_run_lease_row
  renew_run_lease-Exact id executor fallback now db fits =
      found-Exact id _ (renew_found runs id executor fallback now) db λ r e.
        let lease : Time = lease_end now (effective_lease_timeout r fallback) in
        elim (Bool-cases (text_eq r.leased_by executor)) [
          | inr other ↦ rw other (λ k. refl)
          | inl own ↦ rw own (
              updated-Exact id (is_renewable executor now) (set_lease lease) _ db λ s is_s met.
                let same : r ≡ s = cc in
                (met, rw same refl, omega (arith, lease_end-later s fallback now (fits s is_s))))
        ]

  refused_while_held :
      (id : ℕ) (second : Text) (lease lease' later : Time) (db : runs.Db) (s : SchedulerJobRun)
      → runs.row id db ≡ some s
      → s.status ≡ dispatched
      → s.lease_expires_at ≡ some lease
      → later < lease
      → (a : Result Bool × runs.Db)
      → Updates id (is_claimable later) (set_claimed second lease' later) db a
      → a.0 ≢ ok true
  refused_while_held id second lease lease' later db s e st held early (ok true, db')
        (r, is_r, met, _) again =
      let same : r ≡ s = cc in
      let no_claim = held_not_claimable s lease later (inl st) held (inl early) in
      let claim : is_claimable later s ≡ true = rw same at met in cc (no_claim, claim)
  refused_while_held id second lease lease' later db s e st held early (ok false, db') u again = cc
  refused_while_held id second lease lease' later db s e st held early (err x, db') u again = cc

  -- Two claims of a run never both succeed before the first lease has run out: after a claim that has
  -- succeeded every other claim at a time before the end of its lease is refused or fails.
  pub claim_run_exclusive :
      (id : ℕ) (first second : Text) (lease lease' now later : Time) (db db' : runs.Db)
      → claim_run runs id first lease now db ≡ (ok true, db')
      → later < lease
      → (claim_run runs id second lease' later db').0 ≢ ok true
  unfolding claim_run set_claimed
  claim_run_exclusive id first second lease lease' now later db db' claimed early again =
      let (r, e, met, (at_id, others)) : Updates id (is_claimable now) (set_claimed first lease now)
          db (ok true, db') =
        rw claimed at (update_run-Updates id (is_claimable now) (set_claimed first lease now) db) in
      refused_while_held id second lease lease' later db' (set_claimed first lease now r) at_id refl
        refl early (claim_run runs id second lease' later db')
        (update_run-Updates id (is_claimable later) (set_claimed second lease' later) db') again
