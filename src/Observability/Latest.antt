-- ===== src/Observability/Latest.antt =====
-- The latest snapshot of the ring of internal/observability/application/snapshot_ring.go.
use edge_pilot.Base.{
  ℕ, ◌+◌, ◌-◌, ◌%◌, ◌<◌, ◌==◌, ltb, ◌≡◌, refl, false, inl, inr, some, List, ◌∷◌, ◌++◌, length,
  if◌then◌else◌, Bool-cases, arith,
}
use edge_pilot.Base.Int.{ℤ}
use edge_pilot.Observability.Ring.{
  SnapshotRing, new_snapshot_ring, append, append_all, latest, found_at, capacity_of,
}
use edge_pilot.Observability.Held.{
  Holds, filling, filled, recent, written, append-written, get_elem?-join, next_head, last_head,
}
use edge_pilot.Observability.Recent.{held_recent}

-- The index before the head is where the last snapshot was written.
before_head : (n c : ℕ) → n < c → (if (n + 1) % c == 0 then c - 1 else (n + 1) % c - 1) ≡ n
before_head n c h = elim (Bool-cases (n + 1 == c)) [
  | inl wraps ↦ rw (last_head n c (ground arith)) (ground arith)
  | inr stays ↦ rw (next_head n c (ground arith)) (ground arith)
]

module _ {A : Type 0} where
  latest-written :
      (r : SnapshotRing A) (before after : List A) (x : A)
      → r.head ≡ length before
      → length before < r.capacity
      → latest (written r (before ++ (x ∷ after))) ≡ some (some x)
  unfolding latest found_at
  latest-written r before after x at room =
      rw (some_, at, before_head (length before) r.capacity room, get_elem?-join before after x)
        refl
    where
      some_ : ((if ltb r.size r.capacity then r.size + 1 else r.size) == 0) ≡ false
      some_ = ground arith

  latest-Holds :
      (r : SnapshotRing A) (ys : List A) (x : A)
      → Holds r ys
      → (r' : SnapshotRing A) × (append x r ≡ some r') × (latest r' ≡ some (some x))
  latest-Holds r ys x (filling blank rest e at many cap) = (
    written r (ys ++ (x ∷ rest)),
    append-written r ys rest blank x e at,
    latest-written r ys rest x at (omega arith),
  )
  latest-Holds r ys x (filled newer older oldest e parts at many cap) = (
    written r (newer ++ (x ∷ older)),
    append-written r newer older oldest x parts at,
    latest-written r newer older x at (omega arith),
  )

  -- In a ring of any capacity to which any snapshots have been appended, the latest one is the one that was
  -- appended last, and no index is out of range.
  pub latest_appended :
      (blank : A) (capacity : ℤ) (xs : List A) (x : A)
      → (r r' : SnapshotRing A) × (append_all xs (some (new_snapshot_ring blank capacity)) ≡ some r)
        × (append x r ≡ some r')
        × (latest r' ≡ some (some x))
  latest_appended blank capacity xs x =
      let (r, all, held) = held_recent blank capacity xs in
      let (r', one, last) = latest-Holds r (recent (capacity_of capacity) xs) x held in
      (r, r', all, one, last)
