-- ===== src/Release/Ended.antt =====
-- A release that has ended: the operations of internal/release/application/service.go as a whole.
use edge_pilot.Base.{ℕ, ◌≡◌, refl, false, ◌&&◌, some, ◌==◌, ltb, Bool-cases, inl, inr, arith}
use edge_pilot.Base.Text.{Text}
use edge_pilot.Cron.Calendar.{Time}
use edge_pilot.Store.Program.{◌>>◌}
use edge_pilot.Model.Slot.{unset, slot_eq}
use edge_pilot.Model.Release.{Release, is_queued, is_ready, is_busy}
use edge_pilot.Release.World.{Backend, R}
use edge_pilot.Release.Traffic
use edge_pilot.Release.Traffic.{
  skip, skip_found, rollback_found, rolled_back_to, with_percent, set_found, set_traffic_percent,
  move_traffic, check_slot, audit_percent, found,
}
use edge_pilot.Release.Quiet.{
  Quiet, >>-Quiet, fail-Quiet, if-Quiet, audit-Quiet, update_live_slot-Quiet,
  update_traffic_flags-Quiet, require_healthy-Quiet, publish_agent-Quiet,
  enrich_release_output-Quiet,
}
use edge_pilot.Release.Kept.{
  Holds, Ends, Keeps, Quiet-Holds, Quiet-Ends, Quiet-Keeps, >>-Ends, >>-Done, if-Ends, if-Holds,
  >>-Holds, get_found-Keeps,
}
use edge_pilot.Release.Orderly.{SavesStatus, TableOrderly, TableOrderly-refl, TableOrderly-trans}
use edge_pilot.Release.Terminal.{
  idle-Ends, complete_previous-Holds, queued-not_ended, ready-not_ended,
}

pub check_slot-Quiet : (b : Backend) (percent : ℕ) (r : Release) → Quiet b (check_slot b percent r)
unfolding check_slot
check_slot-Quiet b percent r =
    if-Quiet b (percent == 0) (require_healthy-Quiet b _ _ _) (require_healthy-Quiet b _ _ _)

pub audit_percent-Quiet :
    (b : Backend) (percent : ℕ) (operator : Text) (r : Release)
    → Quiet b (audit_percent b percent operator r)
unfolding audit_percent
audit_percent-Quiet b percent operator r =
    if-Quiet b (percent == 100) (audit-Quiet b _ _ _) (audit-Quiet b _ _ _)

with_percent-id :
    (b : Backend) (percent : ℕ) (now : Time) (r : Release)
    → (with_percent b percent now r).id ≡ r.id
unfolding with_percent
with_percent-id b percent now r = ground arith

with_percent-service :
    (b : Backend) (percent : ℕ) (now : Time) (r : Release)
    → (with_percent b percent now r).service_id ≡ r.service_id
unfolding with_percent
with_percent-service b percent now r = ground arith

with_percent-idle :
    (b : Backend) (percent : ℕ) (now : Time) (r : Release)
    → is_busy (with_percent b percent now r).status ≡ false
unfolding with_percent is_busy
with_percent-idle b percent now r = ground arith

-- The rows that an operation keeps, in the sense of `TableOrderly`.
unfoldable pub IsOrderly : (b : Backend) {A : Type 0} → R b A → Type 0
IsOrderly b m = Keeps b (TableOrderly b) (TableOrderly-refl b) (TableOrderly-trans b) m

module _ (b : Backend) (saves : SavesStatus b) where
  still :
      {A : Type 0} {P : b.releases.Db → Type 0} {m : R b (Unit {0})} {k : R b A}
      → Quiet b m
      → Ends b (TableOrderly b) (TableOrderly-refl b) (TableOrderly-trans b) P k
      → Ends b (TableOrderly b) (TableOrderly-refl b) (TableOrderly-trans b) P (m >> k)
  still q e = >>-Ends b _ _ _ (Quiet-Holds b _ _ _ q) e

  skip_found-Ends :
      (id : ℕ) (operator : Text) (now : Time) (r : Release)
      → Ends b
          (TableOrderly b)
          (TableOrderly-refl b)
          (TableOrderly-trans b)
          (λ db. b.releases.row id db ≡ some r)
          (skip_found b operator now r)
  unfolding skip_found is_busy
  skip_found-Ends id operator now r = elim (Bool-cases (is_queued r.status)) [
    | inr busy ↦ rw busy (Quiet-Ends b _ _ _ (fail-Quiet b _))
    | inl waits ↦ rw waits (
        >>-Done b _ _ _ (idle-Ends b saves id r _ refl (queued-not_ended r waits) refl refl)
          (>>-Quiet b (audit-Quiet b _ _ _) (enrich_release_output-Quiet b _)))
  ]

  pub skip-IsOrderly :
      (id : ℕ) (operator : Text) (now : Time) → IsOrderly b (skip b id operator now)
  unfolding skip IsOrderly
  skip-IsOrderly id operator now =
      get_found-Keeps b _ _ _ id (skip_found b operator now) (skip_found-Ends id operator now)

  rollback_found-Ends :
      (id : ℕ) (operator : Text) (now : Time) (r : Release)
      → Ends b
          (TableOrderly b)
          (TableOrderly-refl b)
          (TableOrderly-trans b)
          (λ db. b.releases.row id db ≡ some r)
          (rollback_found b operator now r)
  unfolding rollback_found rolled_back_to is_busy
  rollback_found-Ends id operator now r = elim (Bool-cases (is_ready r.status)) [
    | inr busy ↦ rw busy (Quiet-Ends b _ _ _ (fail-Quiet b _))
    | inl ready ↦ rw ready (
        if-Ends b _ _ _ (slot_eq r.previous_live_slot unset)
          (λ _. Quiet-Ends b _ _ _ (fail-Quiet b _))
          (λ _. still (require_healthy-Quiet b _ _ _) (
            still (update_live_slot-Quiet b _ _) (
              still (update_traffic_flags-Quiet b _ _ _) (
                >>-Done b _ _ _ (idle-Ends b saves id r _ refl (ready-not_ended r ready) refl refl)
                  (>>-Quiet b (publish_agent-Quiet b _)
                    (>>-Quiet b (audit-Quiet b _ _ _) (enrich_release_output-Quiet b _))))))))
  ]

  pub rollback-IsOrderly :
      (id : ℕ) (operator : Text) (now : Time) → IsOrderly b (Traffic.rollback b id operator now)
  unfolding Traffic.rollback IsOrderly
  rollback-IsOrderly id operator now =
      get_found-Keeps b _ _ _ id (rollback_found b operator now)
        (rollback_found-Ends id operator now)

  move_traffic-Holds :
      (percent : ℕ) (operator : Text) (now : Time) (id : ℕ) (r new : Release)
      → new.id ≡ r.id
      → Holds b
          (TableOrderly b)
          (TableOrderly-refl b)
          (TableOrderly-trans b)
          (λ db. b.releases.row id db ≡ some r)
          (move_traffic b percent operator now new)
  unfolding move_traffic
  move_traffic-Holds percent operator now id r new e =
      if-Holds b _ _ _ (percent == 100)
        (λ _. >>-Holds b _ _ _ (Quiet-Holds b _ _ _ (update_live_slot-Quiet b _ _)) (
          >>-Holds b _ _ _ (Quiet-Holds b _ _ _ (update_traffic_flags-Quiet b _ _ _))
            (complete_previous-Holds b saves new operator now id r e)))
        (λ _.
          Quiet-Holds b _ _ _
            (>>-Quiet b (update_live_slot-Quiet b _ _) (update_traffic_flags-Quiet b _ _ _)))

  set_found-Ends :
      (id percent : ℕ) (operator : Text) (now : Time) (r : Release)
      → Ends b
          (TableOrderly b)
          (TableOrderly-refl b)
          (TableOrderly-trans b)
          (λ db. b.releases.row id db ≡ some r)
          (set_found b percent operator now r)
  unfolding set_found
  set_found-Ends id percent operator now r = elim (Bool-cases (is_ready r.status)) [
    | inr busy ↦ rw busy (Quiet-Ends b _ _ _ (fail-Quiet b _))
    | inl ready ↦ rw ready (
        if-Ends b _ _ _ (slot_eq r.previous_live_slot unset && ltb percent 100)
          (λ _. Quiet-Ends b _ _ _ (fail-Quiet b _))
          (λ _. still (check_slot-Quiet b percent r) (
            >>-Ends b _ _ _
              (move_traffic-Holds percent operator now id r _ (with_percent-id b percent now r))
              (>>-Done b _ _ _
                (idle-Ends b saves id r _ (with_percent-id b percent now r)
                  (ready-not_ended r ready) (with_percent-idle b percent now r)
                  (with_percent-service b percent now r))
                (>>-Quiet b (publish_agent-Quiet b _)
                  (>>-Quiet b (audit_percent-Quiet b _ _ _) (enrich_release_output-Quiet b _)))))))
  ]

  pub set_traffic_percent-IsOrderly :
      (id percent : ℕ) (operator : Text) (now : Time)
      → IsOrderly b (set_traffic_percent b id percent operator now)
  unfolding set_traffic_percent IsOrderly
  set_traffic_percent-IsOrderly id percent operator now = elim (Bool-cases (ltb 100 percent)) [
    | inl high ↦ rw high (Quiet-Keeps b _ _ _ (fail-Quiet b _))
    | inr right ↦ rw right (
        get_found-Keeps b _ _ _ id (set_found b percent operator now)
          (set_found-Ends id percent operator now))
  ]
