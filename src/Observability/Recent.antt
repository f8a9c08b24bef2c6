-- ===== src/Observability/Recent.antt =====
-- The ring of snapshots of internal/observability/application/snapshot_ring.go lists the most recent ones.
use edge_pilot.Base.{
  append-nil, ℕ, zero, suc, ◌+◌, ◌-◌, ◌≤◌, ◌<◌, leb, ◌≡◌, refl, sym, ◌∙◌, ap, subst, inl, inr, some,
  List, [], ◌∷◌, ◌++◌, length, drop, Bool-cases, arith,
}
use edge_pilot.Base.Int.{ℤ}
use edge_pilot.Observability.Ring.{
  SnapshotRing, blanks, capacity_of, new_snapshot_ring, list, append_all,
}
use edge_pilot.Observability.Held.{
  length-snoc, snoc-join, recent, length-blanks, Holds, recent_all, append-Holds, filling,
}
use edge_pilot.Observability.Listed.{list-Holds}

module _ {A : Type 0} where
  recent_cons : (c : ℕ) (o : A) (xs : List A) → c ≤ length xs → recent c (o ∷ xs) ≡ recent c xs
  recent_cons c o xs h = ap (λ n. drop n (o ∷ xs)) (one_more (length xs) h)
    where
      one_more : (n : ℕ) → c ≤ n → suc n - c ≡ suc (n - c)
      one_more n h = omega arith

  recent-recent :
      (c : ℕ) (xs : List A) (x : A) → recent c (recent c xs ++ (x ∷ [])) ≡ recent c (xs ++ (x ∷ []))
  recent-recent c [] x = ap (λ ys. recent c (ys ++ (x ∷ []))) (recent_all c [] (omega arith))
  recent-recent c (o ∷ os) x = elim (Bool-cases (leb (suc (length os)) c)) [
    | inl few ↦ ap (λ ys. recent c (ys ++ (x ∷ []))) (recent_all c (o ∷ os) (ground arith))
    | inr many ↦
        let past : c ≤ length os = ground arith in
        let longer : c ≤ length (os ++ (x ∷ [])) =
          below (length (os ++ (x ∷ []))) (length-snoc os x) past in
        ap (λ ys. recent c (ys ++ (x ∷ []))) (recent_cons c o os past)
        ∙ (recent-recent c os x ∙ sym (recent_cons c o (os ++ (x ∷ [])) longer))
  ]
    where
      below : (n : ℕ) → n ≡ suc (length os) → c ≤ length os → c ≤ n
      below n e h = omega arith

  -- The ring after more snapshots.
  append_all-Holds :
      (c : ℕ) (xs past : List A) (r : SnapshotRing A)
      → r.capacity ≡ c
      → Holds r (recent c past)
      → (r' : SnapshotRing A) × (append_all xs (some r) ≡ some r')
        × Holds r' (recent c (past ++ xs))
  unfolding append_all
  append_all-Holds c [] past r e h =
      (r, refl, subst (λ ys. Holds r (recent c ys)) (sym (append-nil past)) h)
  append_all-Holds c (x ∷ xs) past r e h =
      let (r', appended, holds, same) = append-Holds r (recent c past) x h in
      let now : Holds r' (recent c (past ++ (x ∷ []))) =
        subst (Holds r') (ap (λ n. recent n (recent c past ++ (x ∷ []))) e ∙ recent-recent c past x)
          holds in
      let (r'', all, held) = append_all-Holds c xs (past ++ (x ∷ [])) r' (same ∙ e) now in
      (
        r'',
        ap (append_all xs) appended ∙ all,
        subst (λ ys. Holds r'' (recent c ys)) (snoc-join past xs x) held,
      )

  new-Holds : (blank : A) (capacity : ℤ) → Holds (new_snapshot_ring blank capacity) []
  unfolding new_snapshot_ring
  new-Holds blank capacity = blank_ring (capacity_of capacity) (positive capacity)
    where
      positive : (capacity : ℤ) → zero < capacity_of capacity
      positive capacity = ground arith

      zero_plus : (n : ℕ) → n ≡ 0 + n
      zero_plus n = omega arith

      blank_ring :
          (n : ℕ)
          → zero < n
          → Holds (record { capacity = n; items = blanks blank n; head = 0; size = 0 }) []
      blank_ring zero h = ground arith
      blank_ring (suc n) h =
          filling blank (blanks blank n) (unfold blanks in refl) refl refl
            (ap suc (sym (length-blanks blank n)) ∙ zero_plus (suc (length (blanks blank n))))

  pub held_recent :
      (blank : A) (capacity : ℤ) (xs : List A)
      → (r : SnapshotRing A) × (append_all xs (some (new_snapshot_ring blank capacity)) ≡ some r)
        × Holds r (recent (capacity_of capacity) xs)
  held_recent blank capacity xs =
      append_all-Holds (capacity_of capacity) xs [] (new_snapshot_ring blank capacity)
        (unfold new_snapshot_ring in refl) (start blank capacity)
    where
      start :
          (blank : A) (capacity : ℤ)
          → Holds (new_snapshot_ring blank capacity) (recent (capacity_of capacity) [])
      start blank capacity =
          subst (Holds (new_snapshot_ring blank capacity))
            (sym (recent_all (capacity_of capacity) [] (omega arith))) (new-Holds blank capacity)

  -- A ring of any capacity to which any snapshots have been appended lists the most recent ones, as many as
  -- its capacity, which is 1 where it would not be positive, the oldest first, and no index is out
  -- of range.
  pub listed_recent :
      (blank : A) (capacity : ℤ) (xs : List A)
      → (r : SnapshotRing A) × (append_all xs (some (new_snapshot_ring blank capacity)) ≡ some r)
        × (list r ≡ some (recent (capacity_of capacity) xs))
  listed_recent blank capacity xs =
      let (r, all, held) = held_recent blank capacity xs in
      (r, all, list-Holds r (recent (capacity_of capacity) xs) held)
