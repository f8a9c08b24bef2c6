-- ===== src/Observability/Listed.antt =====
-- How the ring of snapshots of internal/observability/application/snapshot_ring.go is read.
use edge_pilot.Base.{
  append-nil, ℕ, zero, suc, ◌+◌, ◌-◌, ◌%◌, ◌≤◌, ◌==◌, ltb, ◌≡◌, refl, sym, ◌∙◌, ap, subst, true,
  false, ◌⊎◌, inl, inr, some, List, [], ◌∷◌, ◌++◌, length, get_elem?, if◌then◌else◌, arith,
}
use edge_pilot.Observability.Ring.{SnapshotRing, cons_if, read_from, list}
use edge_pilot.Observability.Held.{
  mod_of_either, length-snoc, snoc-join, get_elem?-join, Holds, filling, filled,
}

module _ {A : Type 0} where
  -- A part of the items is read where the counter stands at it, before or after the wrap.
  read_part :
      (r : SnapshotRing A) (start i j k m : ℕ) (before part after tail : List A)
      → r.items ≡ before ++ (part ++ after)
      → (start + i ≡ length before) ⊎ (start + i ≡ length before + r.capacity)
      → length before + length part ≤ r.capacity
      → j ≡ i + length part
      → k ≡ length part + m
      → read_from r start j m ≡ some tail
      → read_from r start i k ≡ some (part ++ tail)
  read_part r start i j k m before [] after tail e where_ fits next count rest =
      subst (λ z. read_from r start i z ≡ some tail) (sym same_k)
        (subst (λ z. read_from r start z m ≡ some tail) same_i rest)
    where
      same_k : k ≡ m
      same_k = omega arith

      same_i : j ≡ i
      same_i = omega arith
  read_part r start i j zero m before (x ∷ xs) after tail e where_ fits next count rest =
      ground arith
  read_part r start i j (suc k) m before (x ∷ xs) after tail e where_ fits next count rest =
      read_one r start i k x (xs ++ tail) here (
        read_part r start (suc i) j k m (before ++ (x ∷ [])) xs after tail
          (e ∙ sym (snoc-join before (xs ++ after) x)) (moved where_ (length-snoc before x))
          (fitting (length-snoc before x)) (omega arith) (omega arith) rest)
    where
      read_one :
          (r : SnapshotRing A) (start i k : ℕ) (x : A) (xs : List A)
          → get_elem? r.items ((start + i) % r.capacity) ≡ some x
          → read_from r start (suc i) k ≡ some xs
          → read_from r start i (suc k) ≡ some (x ∷ xs)
      read_one r start i k x xs p q = unfold read_from cons_if in rw (p, q) refl

      here : get_elem? r.items ((start + i) % r.capacity) ≡ some x
      here =
          rw (mod_of_either r.capacity (start + i) (length before) (omega arith) where_, e)
            (get_elem?-join before (xs ++ after) x)

      moved :
          (start + i ≡ length before) ⊎ (start + i ≡ length before + r.capacity)
          → length (before ++ (x ∷ [])) ≡ suc (length before)
          → (start + suc i ≡ length (before ++ (x ∷ [])))
            ⊎ (start + suc i ≡ length (before ++ (x ∷ [])) + r.capacity)
      moved (inl a) n = inl (omega arith)
      moved (inr a) n = inr (omega arith)

      fitting :
          length (before ++ (x ∷ [])) ≡ suc (length before)
          → length (before ++ (x ∷ [])) + length xs ≤ r.capacity
      fitting n = omega arith

  read_none : (r : SnapshotRing A) (start i : ℕ) → read_from r start i 0 ≡ some []
  unfolding read_from
  read_none r start i = refl

  list_from :
      (r : SnapshotRing A) (start : ℕ) (ys : List A)
      → (r.size == 0) ≡ false
      → (if ltb r.head r.size then r.head + r.capacity - r.size else r.head - r.size) ≡ start
      → read_from r start 0 r.size ≡ some ys
      → list r ≡ some ys
  unfolding list
  list_from r start ys some_ e h = rw (some_, e) h

  pub list-Holds : (r : SnapshotRing A) (ys : List A) → Holds r ys → list r ≡ some ys
  list-Holds r [] (filling blank rest e at many cap) = nothing
    where
      empty : (r.size == 0) ≡ true
      empty = ground arith

      nothing : list r ≡ some []
      nothing = unfold list in rw empty refl
  list-Holds r (y ∷ ys) (filling blank rest e at many cap) =
      list_from r 0 (y ∷ ys) full zero_start (
        ap (λ zs. zs)
          (read_part r 0 0 r.size r.size 0 [] (y ∷ ys) (blank ∷ rest) [] e (inl refl) (omega arith)
            (omega arith) (omega arith) (read_none r 0 r.size))
        ∙ ap some (append-nil (y ∷ ys)))
    where
      full : (r.size == 0) ≡ false
      full = ground arith

      zero_start : (if ltb r.head r.size then r.head + r.capacity - r.size else r.head - r.size) ≡ 0
      zero_start = ground arith
  list-Holds r ys (filled newer older oldest e parts at many cap) =
      list_from r r.head ys full head_start (
        subst (λ zs. read_from r r.head 0 r.size ≡ some zs)
          (ap (λ us. (oldest ∷ older) ++ us) (append-nil newer) ∙ sym e)
          (read_part r r.head 0 (suc (length older)) r.size (length newer) newer (oldest ∷ older) []
            (newer ++ []) (parts ∙ ap (λ us. newer ++ us) (sym (append-nil (oldest ∷ older))))
            (inl (omega arith)) (omega arith) (omega arith) (omega arith)
            (read_part r r.head (suc (length older)) r.size (length newer) 0 [] newer
              (oldest ∷ older) [] parts (inr (omega arith)) (omega arith) (omega arith)
              (omega arith) (read_none r r.head r.size))))
    where
      full : (r.size == 0) ≡ false
      full = ground arith

      head_start :
          (if ltb r.head r.size then r.head + r.capacity - r.size else r.head - r.size) ≡ r.head
      head_start = ground arith
