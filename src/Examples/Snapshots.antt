-- ===== src/Examples/Snapshots.antt =====
-- A ring for two snapshots to which three have been appended.
use edge_pilot.Base.{ℕ, ◌≡◌, some, List, [], ◌∷◌}
use edge_pilot.Base.Int.{pos}
use edge_pilot.Observability.Ring.{
  SnapshotRing, new_snapshot_ring, append, append_all, list, latest,
}
use edge_pilot.Observability.Latest.{latest_appended}
use edge_pilot.Observability.Recent.{listed_recent}

abbrev snapshots : List ℕ
snapshots = 5 ∷ 6 ∷ 7 ∷ []

listed_recent_example :
    (r : SnapshotRing ℕ) × (append_all snapshots (some (new_snapshot_ring 0 (pos 2))) ≡ some r)
    × (list r ≡ some (6 ∷ 7 ∷ []))
listed_recent_example = listed_recent 0 (pos 2) snapshots

latest_appended_example :
    (r r' : SnapshotRing ℕ) × (append_all snapshots (some (new_snapshot_ring 0 (pos 2))) ≡ some r)
    × (append 8 r ≡ some r')
    × (latest r' ≡ some (some 8))
latest_appended_example = latest_appended 0 (pos 2) snapshots 8
