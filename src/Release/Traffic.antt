-- ===== src/Release/Traffic.antt =====
-- The operations of internal/release/application/service.go on a release that is queued or ready:
-- `Skip`, `Rollback`, `SetTrafficPercent`, and what they share with the tasks of an agent. The time
-- that the source reads from the clock is the argument `now`. A percentage below 0 is not
-- represented.
use edge_pilot.Base.{
  ℕ, Bool, true, false, ◌&&◌, ◌||◌, not, Option, none, some, ◌++◌, ◌==◌, ltb, if◌then◌else◌,
}
use edge_pilot.Base.Text.{Text, codes, trim_space}
use edge_pilot.Cron.Calendar.{Time}
use edge_pilot.Store.Effect.{bad_request, not_found, conflict}
use edge_pilot.Store.Program.{◌>>=◌, ◌>>◌, return, fail}
use edge_pilot.Model.Slot.{Slot, unset, slot_eq}
use edge_pilot.Model.Event.{
  release_skipped, rollback_completed, traffic_percent_updated, switch_confirmed,
  release_superseded,
}
use edge_pilot.Model.Release.{
  Release, RuntimeInstance, ReleaseStatus, completed, rolled_back, skipped, ready_to_switch,
  switched, is_queued, is_ready,
}
use edge_pilot.Release.World.{
  Backend, R, ReleaseOutput, get_release, update_release, audit, update_live_slot, get_instance,
  upsert_instance, publish_agent, enrich_release_output,
}

unfoldable pub is_healthy : Option RuntimeInstance → Bool
is_healthy none = false
is_healthy (some i) = is_true i.healthy
  where
    is_true : Option Bool → Bool
    is_true none = false
    is_true (some h) = h

-- The releases that `completePreviousLiveRelease` ends.
unfoldable pub may_supersede : Release → Bool
may_supersede previous = by_status previous.status previous.traffic_percent previous.completed_at
  where
    by_status : ReleaseStatus → ℕ → Option Time → Bool
    by_status ready_to_switch traffic at = true
    by_status switched traffic at = true
    by_status completed traffic none = true
    by_status completed traffic (some t) = not (traffic == 0)
    by_status _ traffic at = false

abbrev pub or_now : Option Time → Time → Option Time
or_now none now = some now
or_now (some t) now = some t

unfoldable pub superseded : Time → Release → Release
superseded now previous = record previous {
  status = completed;
  traffic_percent = 0;
  completed_at = or_now previous.completed_at now;
}

module _ (b : Backend) where
  unfoldable pub set_flags : Bool → Option RuntimeInstance → R b (Unit {0})
  set_flags accepting none = return tt
  set_flags accepting (some i) =
      upsert_instance b (record i { accepting_traffic = some accepting; active = some true })

  unfoldable pub update_traffic_flags : ℕ → Slot → Slot → R b (Unit {0})
  update_traffic_flags service live old = do
    current ← get_instance b service live
    set_flags true current
    previous ← get_instance b service old
    set_flags false previous

  unfoldable pub require_healthy : ℕ → Slot → Text → R b (Unit {0})
  require_healthy service slot message = do
    i ← get_instance b service slot
    if is_healthy i then return tt else fail (conflict message)

  unfoldable pub supersede : Text → Time → Option Release → R b (Unit {0})
  supersede operator now none = return tt
  supersede operator now (some previous) =
      if may_supersede previous
      then (do
        update_release b (superseded now previous)
        audit b (superseded now previous) release_superseded operator)
      else return tt

  unfoldable pub supersede_instance :
      Release → Text → Time → Option RuntimeInstance → R b (Unit {0})
  supersede_instance current operator now none = return tt
  supersede_instance current operator now (some i) =
      if (i.release_id == 0) || (i.release_id == current.id)
      then return tt
      else get_release b i.release_id >>= supersede operator now

  unfoldable pub complete_previous_live_release : Release → Text → Time → R b (Unit {0})
  complete_previous_live_release current operator now =
      if (current.service_id == 0) || slot_eq current.previous_live_slot unset
      then return tt
      else get_instance b current.service_id current.previous_live_slot
        >>= supersede_instance current operator now

  unfoldable pub found : {A : Type 0} → Option Release → (Release → R b A) → R b A
  found none k = fail not_found
  found (some r) k = k r

  unfoldable pub skip_found : Text → Time → Release → R b ReleaseOutput
  skip_found operator now r =
      if not (is_queued r.status)
      then fail (conflict (codes "release is not queued"))
      else skip_queued (record r { status = skipped; completed_at = some now })
    where
      skip_queued : Release → R b ReleaseOutput
      skip_queued r' = do
        update_release b r'
        audit b r' release_skipped operator
        enrich_release_output b r'

  unfoldable pub skip : ℕ → Text → Time → R b ReleaseOutput
  unfolding skip_found found
  skip id operator now = get_release b id >>= λ o. found o (skip_found operator now)

  unfoldable pub rolled_back_to : Time → Release → Release
  rolled_back_to now r = record r {
    traffic_percent = 0;
    switch_confirmed = some false;
    status = rolled_back;
    completed_at = some now;
  }

  unfoldable pub rollback_found : Text → Time → Release → R b ReleaseOutput
  unfolding rolled_back_to
  rollback_found operator now r =
      if not (is_ready r.status)
      then fail (conflict (codes "release is not ready for rollback"))
      else if slot_eq r.previous_live_slot unset
      then fail (conflict (codes "release has no rollback target"))
      else roll (rolled_back_to now r)
    where
      roll : Release → R b ReleaseOutput
      roll r' = do
        require_healthy r'.service_id r'.previous_live_slot
            (codes "rollback target runtime instance is not healthy")
        update_live_slot b r'.service_id r'.previous_live_slot
        update_traffic_flags r'.service_id r'.previous_live_slot r'.target_slot
        update_release b r'
        publish_agent b r'.agent_id
        audit b r' rollback_completed operator
        enrich_release_output b r'

  unfoldable pub rollback : ℕ → Text → Time → R b ReleaseOutput
  unfolding rollback_found found
  rollback id operator now = get_release b id >>= λ o. found o (rollback_found operator now)

  -- The release as `SetTrafficPercent` leaves it.
  unfoldable pub with_percent : ℕ → Time → Release → Release
  with_percent percent now r =
      if percent == 100
      then record r {
        traffic_percent = percent;
        switch_confirmed = some true;
        status = completed;
        completed_at = some now;
      }
      else record r {
        traffic_percent = percent;
        switch_confirmed = some false;
        status = ready_to_switch;
        completed_at = none;
      }

  -- The health check: of the slot that will take all of the traffic, or a part of it.
  unfoldable pub check_slot : ℕ → Release → R b (Unit {0})
  check_slot percent r =
      if percent == 0
      then require_healthy r.service_id r.previous_live_slot
          (codes "previous live runtime instance is not healthy")
      else require_healthy r.service_id r.target_slot
          (codes "target runtime instance is not healthy")

  unfoldable pub move_traffic : ℕ → Text → Time → Release → R b (Unit {0})
  move_traffic percent operator now r =
      if percent == 100
      then (do
        update_live_slot b r.service_id r.target_slot
        update_traffic_flags r.service_id r.target_slot r.previous_live_slot
        complete_previous_live_release r operator now)
      else (do
        update_live_slot b r.service_id r.previous_live_slot
        update_traffic_flags r.service_id r.previous_live_slot r.target_slot)

  unfoldable pub audit_percent : ℕ → Text → Release → R b (Unit {0})
  audit_percent percent operator r =
      if percent == 100
      then audit b r switch_confirmed operator
      else audit b r traffic_percent_updated
          (codes "percent=" ++ b.number_text percent ++ codes " operator=" ++ trim_space operator)

  unfoldable pub set_found : ℕ → Text → Time → Release → R b ReleaseOutput
  unfolding with_percent
  set_found percent operator now r =
      if not (is_ready r.status)
      then fail (conflict (codes "release is not ready for traffic adjustment"))
      else if slot_eq r.previous_live_slot unset && ltb percent 100
      then fail (conflict (codes "release has no live baseline for traffic split"))
      else check_slot percent r >> set_checked (with_percent percent now r)
    where
      set_checked : Release → R b ReleaseOutput
      set_checked r' = do
        move_traffic percent operator now r'
        update_release b r'
        publish_agent b r'.agent_id
        audit_percent percent operator r'
        enrich_release_output b r'

  unfoldable pub set_traffic_percent : ℕ → ℕ → Text → Time → R b ReleaseOutput
  unfolding set_found found
  set_traffic_percent id percent operator now =
      if ltb 100 percent
      then fail (bad_request (codes "traffic percent must be within 0..100"))
      else get_release b id >>= λ o. found o (set_found percent operator now)

  unfoldable pub confirm_switch : ℕ → Text → Time → R b ReleaseOutput
  unfolding set_traffic_percent
  confirm_switch id operator now = set_traffic_percent id 100 operator now
