-- ===== src/Observability/Ring.antt =====
-- The ring of snapshots of internal/observability/application/snapshot_ring.go, over any type of
-- snapshots. `none` is an index out of range, at which Go panics.
use edge_pilot.Base.{
  ℕ, zero, suc, ◌+◌, ◌-◌, ◌%◌, ◌==◌, ltb, Option, none, some, List, [], ◌∷◌, get_elem?,
  if◌then◌else◌,
}
use edge_pilot.Base.Int.{ℤ, pos, negsuc}

pub record SnapshotRing (A : Type 0) : Type 0 where
  pub capacity : ℕ
  pub items : List A
  pub head : ℕ
  pub size : ℕ

abbrev pub capacity_of : ℤ → ℕ
capacity_of (pos n) = if n == 0 then 1 else n
capacity_of (negsuc n) = 1

module _ {A : Type 0} where
  -- `items[i] = x`.
  unfoldable pub set_at : List A → ℕ → A → Option (List A)
  set_at [] i x = none
  set_at (y ∷ ys) zero x = some (x ∷ ys)
  set_at (y ∷ ys) (suc i) x = and_rest y (set_at ys i x)
    where
      and_rest : A → Option (List A) → Option (List A)
      and_rest y none = none
      and_rest y (some zs) = some (y ∷ zs)

  unfoldable pub blanks : A → ℕ → List A
  blanks blank zero = []
  blanks blank (suc n) = blank ∷ blanks blank n

  unfoldable pub new_snapshot_ring : A → ℤ → SnapshotRing A
  unfolding blanks
  new_snapshot_ring blank capacity = record {
    capacity = capacity_of capacity;
    items = blanks blank (capacity_of capacity);
    head = 0;
    size = 0;
  }

  unfoldable pub with_items : SnapshotRing A → Option (List A) → Option (SnapshotRing A)
  with_items r none = none
  with_items r (some items) = some (record {
    capacity = r.capacity;
    items = items;
    head = (r.head + 1) % r.capacity;
    size = if ltb r.size r.capacity then r.size + 1 else r.size;
  })

  unfoldable pub append : A → SnapshotRing A → Option (SnapshotRing A)
  unfolding set_at with_items
  append item r = with_items r (set_at r.items r.head item)

  unfoldable pub found_at : Option A → Option (Option A)
  found_at none = none
  found_at (some x) = some (some x)

  unfoldable pub latest : SnapshotRing A → Option (Option A)
  unfolding found_at
  latest r =
      if r.size == 0
      then some none
      else found_at (get_elem? r.items (if r.head == 0 then r.capacity - 1 else r.head - 1))

  unfoldable pub cons_if : Option A → Option (List A) → Option (List A)
  cons_if none rest = none
  cons_if (some x) none = none
  cons_if (some x) (some xs) = some (x ∷ xs)

  -- The loop of `list`, from its counter, for as many rounds.
  unfoldable pub read_from : SnapshotRing A → ℕ → ℕ → ℕ → Option (List A)
  unfolding cons_if
  read_from r start i zero = some []
  read_from r start i (suc n) =
      cons_if (get_elem? r.items ((start + i) % r.capacity)) (read_from r start (suc i) n)

  unfoldable pub list : SnapshotRing A → Option (List A)
  unfolding read_from
  list r =
      if r.size == 0
      then some []
      else read_from r (if ltb r.head r.size then r.head + r.capacity - r.size else r.head - r.size)
          0 r.size

  -- The ring after the snapshots have been appended one after the other.
  unfoldable pub append_all : List A → Option (SnapshotRing A) → Option (SnapshotRing A)
  unfolding append
  append_all xs none = none
  append_all [] (some r) = some r
  append_all (x ∷ xs) (some r) = append_all xs (append x r)
