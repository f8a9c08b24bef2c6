-- ===== src/Release/Zero.antt =====
-- Traffic set back to nothing: `SetTrafficPercent` of internal/release/application/service.go with the
-- update of internal/release/infra/repository.go, which passes gorm a struct.
use edge_pilot.Base.{ℕ, ◌≡◌, refl, ◌∙◌, ◌&&◌, not, some, ltb}
use edge_pilot.Base.Text.{Text}
use edge_pilot.Cron.Calendar.{Time}
use edge_pilot.Model.Slot.{unset, slot_eq}
use edge_pilot.Model.Release.{Release, is_ready}
use edge_pilot.Release.World.{Backend, World}
use edge_pilot.Release.Traffic.{with_percent, set_found, set_traffic_percent, move_traffic}
use edge_pilot.Release.Quiet.{
  Quiet, >>-Quiet, fail-Quiet, update_live_slot-Quiet, update_traffic_flags-Quiet,
  publish_agent-Quiet, enrich_release_output-Quiet,
}
use edge_pilot.Release.Rowwise.{Rowwise, Rowwise-refl, Rowwise-trans, Rowwise-some, Rowwise-save}
use edge_pilot.Release.Kept.{
  Ends, Quiet-Holds, Quiet-Ends, >>-Ends, >>-Done, if-Ends, update_release-Ends, get_found-Keeps,
}
use edge_pilot.Release.Ended.{check_slot-Quiet, audit_percent-Quiet}

SamePercent : Release → Release → Type 0
SamePercent old new = new.traffic_percent ≡ old.traffic_percent

SamePercent-refl : (r : Release) → SamePercent r r
unfolding SamePercent
SamePercent-refl r = refl

SamePercent-trans : (r s t : Release) → SamePercent r s → SamePercent s t → SamePercent r t
unfolding SamePercent
SamePercent-trans r s t f g = g ∙ f

TableSamePercent : (b : Backend) → b.releases.Db → b.releases.Db → Type 0
TableSamePercent = Rowwise SamePercent (λ _. Unit {0})

TableSamePercent-refl : (b : Backend) (db : b.releases.Db) → TableSamePercent b db db
unfolding TableSamePercent
TableSamePercent-refl b =
    Rowwise-refl b SamePercent (λ _. Unit {0}) SamePercent-refl SamePercent-trans (λ _ _ _ _. tt)

TableSamePercent-trans :
    (b : Backend) (db db' db'' : b.releases.Db)
    → TableSamePercent b db db'
    → TableSamePercent b db' db''
    → TableSamePercent b db db''
unfolding TableSamePercent
TableSamePercent-trans b =
    Rowwise-trans b SamePercent (λ _. Unit {0}) SamePercent-refl SamePercent-trans (λ _ _ _ _. tt)

-- gorm's update with a struct leaves out the fields that are zero.
unfoldable pub SkipsZeroPercent : Backend → Type 0
SkipsZeroPercent b =
    (old new : Release)
    → new.traffic_percent ≡ 0
    → (b.releases.merge old new).traffic_percent ≡ old.traffic_percent

zero_percent :
    (b : Backend) (now : Time) (r : Release) → (with_percent b 0 now r).traffic_percent ≡ 0
unfolding with_percent
zero_percent b now r = refl

module _ (b : Backend) (skips : SkipsZeroPercent b) where
  move_traffic_back-Quiet :
      (operator : Text) (now : Time) (r : Release) → Quiet b (move_traffic b 0 operator now r)
  unfolding move_traffic
  move_traffic_back-Quiet operator now r =
      >>-Quiet b (update_live_slot-Quiet b _ _) (update_traffic_flags-Quiet b _ _ _)

  save_zero :
      (id : ℕ) (now : Time) (r : Release) (db : b.releases.Db) (old : Release)
      → SamePercent old (b.releases.merge old (with_percent b 0 now r))
  unfolding SamePercent SkipsZeroPercent
  save_zero id now r db old = skips old (with_percent b 0 now r) (zero_percent b now r)

  set_zero-Ends :
      (id : ℕ) (operator : Text) (now : Time) (r : Release)
      → Ends b
          (TableSamePercent b)
          (TableSamePercent-refl b)
          (TableSamePercent-trans b)
          (λ db. b.releases.row id db ≡ some r)
          (set_found b 0 operator now r)
  unfolding set_found TableSamePercent
  set_zero-Ends id operator now r =
      if-Ends b _ _ _ (not (is_ready r.status)) (λ _. Quiet-Ends b _ _ _ (fail-Quiet b _))
        λ _.
          if-Ends b _ _ _ (slot_eq r.previous_live_slot unset && ltb 0 100)
            (λ _. Quiet-Ends b _ _ _ (fail-Quiet b _))
            λ _. >>-Ends b _ _ _ (Quiet-Holds b _ _ _ (check_slot-Quiet b 0 r)) (
              >>-Ends b _ _ _ (Quiet-Holds b _ _ _ (move_traffic_back-Quiet operator now _)) (
                >>-Done b _ _ _
                  (update_release-Ends b _ _ _ _ (with_percent b 0 now r) (λ db db' _.
                    Rowwise-save b SamePercent (λ _. Unit {0}) SamePercent-refl SamePercent-trans
                      (λ _ _ _ _. tt) (with_percent b 0 now r) db db'
                      (λ old _. save_zero id now r db old)))
                  (>>-Quiet b (publish_agent-Quiet b _)
                    (>>-Quiet b (audit_percent-Quiet b _ _ _) (enrich_release_output-Quiet b _)))))

  -- Where gorm's update with a struct leaves out a percentage of zero, SetTrafficPercent with 0 leaves
  -- every release in the table with the percentage it had.
  pub set_no_traffic_keeps_percent :
      (id : ℕ) (operator : Text) (now : Time) (w : World b) (k : ℕ) (r : Release)
      → b.releases.row k w.releases ≡ some r
      → (r' : Release) × ((b.releases.row k (set_traffic_percent b id 0 operator now w).1.releases
            ≡ some r')
          × (r'.traffic_percent ≡ r.traffic_percent))
  unfolding set_traffic_percent TableSamePercent SamePercent
  set_no_traffic_keeps_percent id operator now w k r h =
      let kept =
        (get_found-Keeps b (TableSamePercent b) (TableSamePercent-refl b) (TableSamePercent-trans b)
            id (set_found b 0 operator now) (set_zero-Ends id operator now)).keeps_rows
          w in
      let s =
        Rowwise-some b SamePercent (λ _. Unit {0}) SamePercent-refl SamePercent-trans
          (λ _ _ _ _. tt) w.releases (set_traffic_percent b id 0 operator now w).1.releases k r kept
          h in
      (s.0, (s.1, s.2))
