-- ===== src/Release/Started.antt =====
-- `Start` and `Retry` of internal/release/application/service.go, and how many releases of a service
-- are being dispatched or deployed after them.
use edge_pilot.Base.{ℕ, ◌≡◌, refl, sym, subst, false, some, arith}
use edge_pilot.Base.Text.{Text}
use edge_pilot.Cron.Calendar.{Time}
use edge_pilot.Store.Program.{◌>>=◌, ◌>>◌}
use edge_pilot.Model.Event.{Event, release_started, release_retried}
use edge_pilot.Model.Release.{Release, Task, is_busy}
use edge_pilot.Release.World.{Backend, R, Spec, ReleaseOutput, update_release}
use edge_pilot.Release.Queries.{is_active_of, has_active_release}
use edge_pilot.Release.Start.{
  prepared, dispatched_release, launch, start_checked, start_unless, start_found, start,
  retry_checked, retry_unless, retry_found, retry, complete_superseded_release, make_deploy_task,
  deployable_spec,
}
use edge_pilot.Release.Quiet.{fail-Quiet, audit-Quiet, enrich_release_output-Quiet}
use edge_pilot.Release.Reads.{
  require-Quiet, create_task-Quiet, make_deploy_task-Quiet, deployable_spec-Quiet,
  require_no_newer-Quiet, refuse_active-Quiet,
}
use edge_pilot.Release.Kept.{
  NoRow, Ends, Quiet-Holds, Quiet-Ends, Quiet-Keeps, >>-Ends, >>=-Ends, >>-Keeps, >>-After,
  has_release-Ends, update_release-Ends, get_found-Keeps,
}
use edge_pilot.Release.Orderly.{SavesStatus, KeepsService}
use edge_pilot.Release.Busy.{NoneBusy}
use edge_pilot.Release.OneBusy.{dispatched-OneBusy}
use edge_pilot.Release.Calmly.{
  KeepsOneBusy, KeepsOneBusy-refl, KeepsOneBusy-trans, Safe, Ready, Calmly-Safe, CalmlyBut-Holds,
  complete_superseded-CalmlyBut, auto_skip-Calmly, dispatch-Calmly,
}

active_free :
    (service : ℕ) (r : Release)
    → is_active_of service r ≡ false
    → r.service_id ≡ service
    → is_busy r.status ≡ false
unfolding is_active_of
active_free service r h e = ground arith

prepared-id : (spec : Spec) (r : Release) → r.id ≡ (prepared spec r).id
unfolding prepared
prepared-id spec r = refl

module _ (b : Backend) (saves : SavesStatus b) (keeps : KeepsService b) (id : ℕ) (r : Release) where
  abbrev Leads : {A : Type 0} → R b A → Type 0
  Leads m = Ends b (KeepsOneBusy b) (KeepsOneBusy-refl b) (KeepsOneBusy-trans b) (Ready b id r) m

  dispatched-Leads :
      (spec : Spec) (task : ℕ)
      → Leads (update_release b (dispatched_release task (prepared spec r)))
  unfolding KeepsOneBusy dispatched_release prepared
  dispatched-Leads spec task =
      update_release-Ends b _ _ _ _ (dispatched_release task (prepared spec r)) λ db db' p saved.
        dispatched-OneBusy b keeps (dispatched_release task (prepared spec r)) r db db'
          (subst (λ i. b.releases.row i db ≡ some r) (sym (b.releases.row_key id db r p.0)) p.0)
          refl p.1 saved

  launch-Leads :
      (event : Event) (spec : Spec) (task : Task) (operator : Text) (now : Time)
      → Leads (launch b event (prepared spec r) task operator now)
  unfolding launch Safe
  launch-Leads event spec task operator now =
      >>-Ends b _ _ _ (Quiet-Holds b _ _ _ (create_task-Quiet b task)) (
        >>-After b _ _ _ (dispatched-Leads spec task.id) (
          >>-Keeps b _ _ _ (Quiet-Keeps b _ _ _ (audit-Quiet b _ _ _))
            (Calmly-Safe b (dispatch-Calmly b saves task now))))

  -- What `Start` and `Retry` do before the release is dispatched.
  preparing-Leads :
      (operator : Text) (now : Time) (k : Spec → Task → R b ReleaseOutput)
      → ((spec : Spec) (task : Task) → Leads (k spec task))
      → Leads (
          deployable_spec b r.service_id >>= λ spec.
          (complete_superseded_release b (prepared spec r) operator now
            >> (make_deploy_task b (prepared spec r) spec now >>= k spec)))
  preparing-Leads operator now k h =
      >>=-Ends b _ _ _ (Quiet-Holds b _ _ _ (deployable_spec-Quiet b r.service_id)) λ spec.
        >>-Ends b _ _ _
          (CalmlyBut-Holds b id (prepared spec r).id r (prepared-id spec r)
            (complete_superseded-CalmlyBut b saves (prepared spec r) operator now))
          (>>=-Ends b _ _ _
            (Quiet-Holds b _ _ _ (make_deploy_task-Quiet b (prepared spec r) spec now)) (h spec))

  start_checked-Leads : (operator : Text) (now : Time) → Leads (start_checked b r operator now)
  unfolding start_checked Safe
  start_checked-Leads operator now = preparing-Leads operator now _ λ spec task.
      >>-After b _ _ _ (launch-Leads release_started spec task operator now) (
        >>-Keeps b _ _ _
          (Calmly-Safe b
            (auto_skip-Calmly b saves (dispatched_release task.id (prepared spec r)) operator now))
          (Quiet-Keeps b _ _ _ (enrich_release_output-Quiet b _)))

  retry_checked-Leads : (operator : Text) (now : Time) → Leads (retry_checked b r operator now)
  unfolding retry_checked
  retry_checked-Leads operator now = preparing-Leads operator now _ λ spec task.
      >>-After b _ _ _ (launch-Leads release_retried spec task operator now)
        (Quiet-Keeps b _ _ _ (enrich_release_output-Quiet b _))

  -- Where no release of the service is active, none is busy.
  NoRow-Ready :
      {A : Type 0} {m : R b A}
      → Leads m
      → Ends b
          (KeepsOneBusy b)
          (KeepsOneBusy-refl b)
          (KeepsOneBusy-trans b)
          (λ db. (b.releases.row id db ≡ some r) × NoRow b (is_active_of r.service_id) db)
          m
  unfolding NoneBusy
  NoRow-Ready h = record {
    ends = λ w p. h.ends w (p.0, λ i x e own. active_free r.service_id x (p.1 i x e) own);
  }

  start_found-Ends :
      (operator : Text) (now : Time)
      → Ends b
          (KeepsOneBusy b)
          (KeepsOneBusy-refl b)
          (KeepsOneBusy-trans b)
          (λ db. b.releases.row id db ≡ some r)
          (start_found b operator now r)
  unfolding start_found has_active_release start_unless
  start_found-Ends operator now = >>-Ends b _ _ _ (Quiet-Holds b _ _ _ (require-Quiet b _ _)) (
      >>-Ends b _ _ _ (Quiet-Holds b _ _ _ (require_no_newer-Quiet b r)) (
        has_release-Ends b _ _ _ _ (is_active_of r.service_id) (start_unless b r operator now)
          (Quiet-Ends b _ _ _ (refuse_active-Quiet b r.service_id))
          (NoRow-Ready (start_checked-Leads operator now))))

  retry_found-Ends :
      (operator : Text) (now : Time)
      → Ends b
          (KeepsOneBusy b)
          (KeepsOneBusy-refl b)
          (KeepsOneBusy-trans b)
          (λ db. b.releases.row id db ≡ some r)
          (retry_found b operator now r)
  unfolding retry_found has_active_release retry_unless
  retry_found-Ends operator now = >>-Ends b _ _ _ (Quiet-Holds b _ _ _ (require-Quiet b _ _)) (
      has_release-Ends b _ _ _ _ (is_active_of r.service_id) (retry_unless b r operator now)
        (Quiet-Ends b _ _ _ (fail-Quiet b _)) (NoRow-Ready (retry_checked-Leads operator now)))

module _ (b : Backend) (saves : SavesStatus b) (keeps : KeepsService b) where
  pub start-Safe : (id : ℕ) (operator : Text) (now : Time) → Safe b (start b id operator now)
  unfolding start Safe
  start-Safe id operator now =
      get_found-Keeps b _ _ _ id (start_found b operator now)
        (λ r. start_found-Ends b saves keeps id r operator now)

  pub retry-Safe : (id : ℕ) (operator : Text) (now : Time) → Safe b (retry b id operator now)
  unfolding retry Safe
  retry-Safe id operator now =
      get_found-Keeps b _ _ _ id (retry_found b operator now)
        (λ r. retry_found-Ends b saves keeps id r operator now)
