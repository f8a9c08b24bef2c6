-- ===== src/Scheduler/Moves.antt =====
-- The operations of internal/scheduler/application/service.go on the table of runs follow the
-- diagram of `Lifecycle`, whatever statement fails on the way.
use edge_pilot.Base.{
  ℕ, ◌≡◌, refl, inl, inr, Bool, true, false, Option, none, some, Bool-cases, ◌==◌, ltb, ==_iff,
}
use edge_pilot.Base.Int.{ℤ}
use edge_pilot.Base.Text.{Text, text_eq}
use edge_pilot.Cron.Calendar.{Time}
use edge_pilot.Store.Base.{Answer, done, fault, changed}
use edge_pilot.Store.Effect.{
  M, ◌>>=◌, >>=-Moves, return, Result, ok, err, then_run, exec_answer, read_answer,
}
use edge_pilot.Model.Scheduler.{SchedulerJobRun, is_terminal}
use edge_pilot.Scheduler.Statements.{
  Runs, get_run, update_run, claim_run, mark_run_running_row, renew_run_lease_row, complete_run_row,
  mark_run_dispatch_failed, mark_expired_run_failed, set_lease,
}
use edge_pilot.Scheduler.Lease.{lease_end, effective_lease_timeout}
use edge_pilot.Scheduler.Runs.{
  completion, require_updated, found, start_found, renew_found, complete_found, mark_run_running,
  renew_run_lease, complete_run,
}
use edge_pilot.Scheduler.Lifecycle.{
  ◌⟶◌, ◌⟶*◌, here, next, claim, start, renew, complete, undispatch, expire,
}

-- A row stays, and evolves along the diagram.
abbrev pub RowMove : Option SchedulerJobRun → Option SchedulerJobRun → Type 0
RowMove none none = Unit
RowMove none (some s) = ⊥
RowMove (some r) none = ⊥
RowMove (some r) (some s) = r ⟶* s

RowMove-refl : (o : Option SchedulerJobRun) → RowMove o o
RowMove-refl none = tt
RowMove-refl (some r) = here

⟶*-trans : {r s t : SchedulerJobRun} → r ⟶* s → s ⟶* t → r ⟶* t
⟶*-trans p here = p
⟶*-trans p (next q e) = next (⟶*-trans p q) e

RowMove-trans : (o p q : Option SchedulerJobRun) → RowMove o p → RowMove p q → RowMove o q
RowMove-trans none none none m n = tt
RowMove-trans none none (some t) m n = n
RowMove-trans none (some s) q m n = absurd m
RowMove-trans (some r) none q m n = absurd m
RowMove-trans (some r) (some s) none m n = n
RowMove-trans (some r) (some s) (some t) m n = ⟶*-trans m n

changed-RowMove :
    (p : SchedulerJobRun → Bool) (f : SchedulerJobRun → SchedulerJobRun)
    (o : Option SchedulerJobRun)
    → ((r : SchedulerJobRun) → o ≡ some r → p r ≡ true → r ⟶ f r)
    → RowMove o (changed p f o)
changed-RowMove p f none h = tt
changed-RowMove p f (some r) h = elim (Bool-cases (p r)) [
  | inl e ↦ rw (e, changed) (next here (h r refl e))
  | inr e ↦ rw (e, changed) here
]

module _ (runs : Runs) where
  -- Every row of the table stays, and evolves along the diagram; no row is added.
  abbrev pub TableMove : runs.Db → runs.Db → Type 0
  TableMove db db' = (k : ℕ) → RowMove (runs.row k db) (runs.row k db')

  pub TableMove-refl : (db : runs.Db) → TableMove db db
  TableMove-refl db k = RowMove-refl (runs.row k db)

  pub TableMove-trans : (a b c : runs.Db) → TableMove a b → TableMove b c → TableMove a c
  TableMove-trans a b c m n k =
      RowMove-trans (runs.row k a) (runs.row k b) (runs.row k c) (m k) (n k)

  updated-TableMove :
      (id : ℕ) (p : SchedulerJobRun → Bool) (f : SchedulerJobRun → SchedulerJobRun) (db : runs.Db)
      (a : runs.Db × ℕ)
      → ((r : SchedulerJobRun) → runs.row id db ≡ some r → p r ≡ true → r ⟶ f r)
      → runs.update_where id p f db ≡ done a
      → TableMove db a.0
  updated-TableMove id p f db a h e k =
      rw (runs.row-update_where id p f db a k e) (elim (Bool-cases (id == k)) [
        | inl same ↦
            rw same (
              changed-RowMove p f (runs.row k db)
                (λ r found. h r (rw ((==_iff id k).0 same) found)))
        | inr other ↦ rw other (RowMove-refl (runs.row k db))
      ])

  exec_answer-TableMove :
      (db : runs.Db) (o : Answer (runs.Db × ℕ))
      → ((a : runs.Db × ℕ) → o ≡ done a → TableMove db a.0)
      → TableMove db (then_run (exec_answer db o) (λ n. return (ltb 0 n))).1
  exec_answer-TableMove db (done a) h = h a refl
  exec_answer-TableMove db (fault e) h = TableMove-refl db

  -- An update by key follows the diagram if it does so on the row with that key.
  pub update_run-at :
      (id : ℕ) (p : SchedulerJobRun → Bool) (f : SchedulerJobRun → SchedulerJobRun) (db : runs.Db)
      → ((r : SchedulerJobRun) → runs.row id db ≡ some r → p r ≡ true → r ⟶ f r)
      → TableMove db (update_run runs id p f db).1
  unfolding update_run
  update_run-at id p f db h =
      exec_answer-TableMove db (runs.update_where id p f db) (λ a. updated-TableMove id p f db a h)

  abbrev pub Follows : {A : Type 0} → M runs.Db A → Type 0
  Follows m = (db : runs.Db) → TableMove db (m db).1

  then-Follows :
      {A B : Type 0} (m : M runs.Db A) (f : A → M runs.Db B)
      → Follows m
      → ((a : A) → Follows (f a))
      → Follows (m >>= f)
  then-Follows m f h g = >>=-Moves TableMove TableMove-refl TableMove-trans m f h g

  require_updated-Follows : (b : Bool) → Follows (require_updated {S = runs.Db} b)
  unfolding require_updated
  require_updated-Follows true db = TableMove-refl db
  require_updated-Follows false db = TableMove-refl db

  pub claim_run-Follows :
      (id : ℕ) (executor : Text) (lease now : Time) → Follows (claim_run runs id executor lease now)
  unfolding claim_run
  claim_run-Follows id executor lease now db =
      update_run-at id _ _ db (λ r _ h. claim r executor lease now h)

  pub mark_run_dispatch_failed-Follows :
      (id : ℕ) (executor message : Text)
      → Follows (mark_run_dispatch_failed runs id executor message)
  unfolding mark_run_dispatch_failed
  mark_run_dispatch_failed-Follows id executor message db =
      update_run-at id _ _ db (λ r _ h. undispatch r executor message h)

  pub mark_expired_run_failed-Follows :
      (id : ℕ) (now : Time) (message : Text) → Follows (mark_expired_run_failed runs id now message)
  unfolding mark_expired_run_failed
  mark_expired_run_failed-Follows id now message db =
      update_run-at id _ _ db (λ r _ h. expire r now message h)

  -- The answer of `GetRun` is the row, if the statement did not fail.
  get_run-found :
      {B : Type 0} (id : ℕ) (k : Option SchedulerJobRun → M runs.Db B) (db : runs.Db)
      → ((o : Option SchedulerJobRun) → o ≡ runs.row id db → TableMove db (k o db).1)
      → TableMove db ((get_run runs id >>= k) db).1
  unfolding get_run
  get_run-found id k db h = go (runs.first id db) refl
    where
      go :
          (a : Answer (Option SchedulerJobRun))
          → runs.first id db ≡ a
          → TableMove db (then_run (read_answer db a) k).1
      go (done o) e = h o (runs.first_row id db o e)
      go (fault x) e = TableMove-refl db

  found-Follows :
      (o : Option SchedulerJobRun) (k : SchedulerJobRun → M runs.Db (Unit {0})) (db : runs.Db)
      → ((r : SchedulerJobRun) → o ≡ some r → TableMove db (k r db).1)
      → TableMove db (found runs o k db).1
  unfolding found
  found-Follows none k db h = TableMove-refl db
  found-Follows (some r) k db h = h r refl

  updated-Follows :
      (m : M runs.Db Bool) (db : runs.Db)
      → TableMove db (m db).1
      → TableMove db ((m >>= require_updated) db).1
  updated-Follows m db h = go (m db) h
    where
      go :
          (a : Result Bool × runs.Db)
          → TableMove db a.1
          → TableMove db (then_run a require_updated).1
      go (ok b, db') h =
          TableMove-trans db db' (require_updated {S = runs.Db} b db').1 h
            (require_updated-Follows b db')
      go (err e, db') h = h

  -- `MarkRunRunning` changes rows along the diagram only, on every branch.
  pub mark_run_running-Follows :
      (id : ℕ) (executor : Text) (now : Time) → Follows (mark_run_running runs id executor now)
  unfolding mark_run_running start_found mark_run_running_row
  mark_run_running-Follows id executor now db = get_run-found id _ db λ o e.
      found-Follows o _ db λ r _. elim (Bool-cases (is_terminal r.status)) [
        | inl over ↦ rw over (TableMove-refl db)
        | inr open' ↦ rw open' (
            updated-Follows (mark_run_running_row runs id executor now) db
              (update_run-at id _ _ db (λ s _ h. start s executor now h)))
      ]

  -- `RenewRunLease` changes rows along the diagram only.
  pub renew_run_lease-Follows :
      (id : ℕ) (executor : Text) (fallback : ℤ) (now : Time)
      → Follows (renew_run_lease runs id executor fallback now)
  unfolding renew_run_lease renew_found renew_run_lease_row
  renew_run_lease-Follows id executor fallback now db = get_run-found id _ db λ o e.
      found-Follows o _ db λ r _. elim (Bool-cases (text_eq r.leased_by executor)) [
        | inr other ↦ rw other (TableMove-refl db)
        | inl own ↦
            let lease : Time = lease_end now (effective_lease_timeout r fallback) in
            rw own (
              updated-Follows (renew_run_lease_row runs id executor lease now) db
                (update_run-at id _ (set_lease lease) db (λ s _ h. renew s executor lease now h)))
      ]

  -- `CompleteRun`, from every state of the table and on every branch, keeps every run, adds none, and takes
  -- each one along the relation of a run's changes only.
  pub complete_run-Follows :
      (id : ℕ) (executor : Text) (success retryable : Bool) (message : Text) (now : Time)
      → Follows (complete_run runs id executor success retryable message now)
  unfolding complete_run complete_found complete_run_row
  complete_run-Follows id executor success retryable message now db = get_run-found id _ db λ o e.
      found-Follows o _ db λ r is_r. elim (Bool-cases (text_eq r.leased_by executor)) [
        | inr other ↦ rw other (TableMove-refl db)
        | inl own ↦ elim (Bool-cases (is_terminal r.status)) [
          | inl over ↦ rw (own, over) (TableMove-refl db)
          | inr open' ↦
              rw (own, open')
                (updated-Follows
                  (complete_run_row runs id executor (completion r success retryable message now))
                  db
                  (update_run-at id _ _ db λ s is_s h.
                    let same : r ≡ s = cc in
                    rw same (complete s executor success retryable message now h)))
        ]
      ]
