-- ===== src/Observability/Held.antt =====
-- What the ring of snapshots of internal/observability/application/snapshot_ring.go holds after an append.
use edge_pilot.Base.{
  append_assoc, append-nil, ℕ, zero, suc, ◌+◌, ◌-◌, ◌%◌, ◌≤◌, ◌<◌, ltb, ◌≡◌, refl, sym, ◌∙◌, ap,
  subst, ◌⊎◌, inl, inr, some, List, [], ◌∷◌, ◌++◌, length, drop, get_elem?, if◌then◌else◌, arith,
}
use native.Mathlib.Nat.{mod-eq_of_lt, add-mod_right, mod_self}
use edge_pilot.Observability.Ring.{SnapshotRing, set_at, blanks, with_items, append}

pub next_head : (n c : ℕ) → n + 1 < c → (n + 1) % c ≡ n + 1
next_head n c h = mod-eq_of_lt h

pub last_head : (n c : ℕ) → c ≡ n + 1 → (n + 1) % c ≡ 0
last_head n c h = rw h (mod_self (n + 1))

pub mod_of_either : (c i n : ℕ) → n < c → (i ≡ n) ⊎ (i ≡ n + c) → i % c ≡ n
mod_of_either c i n h (inl e) = rw e (mod-eq_of_lt h)
mod_of_either c i n h (inr e) = rw e (add-mod_right n c ∙ mod-eq_of_lt h)

module _ {A : Type 0} where
  pub length-snoc : (xs : List A) (x : A) → length (xs ++ (x ∷ [])) ≡ suc (length xs)
  length-snoc [] x = refl
  length-snoc (y ∷ ys) x = ap suc (length-snoc ys x)

  length-join : (xs ys : List A) → length (xs ++ ys) ≡ length xs + length ys
  length-join [] ys = omega arith
  length-join (x ∷ xs) ys = ground (arith, length-join xs ys)

  pub snoc-join : (xs ys : List A) (x : A) → (xs ++ (x ∷ [])) ++ ys ≡ xs ++ (x ∷ ys)
  snoc-join [] ys x = refl
  snoc-join (y ∷ xs) ys x = ap (λ zs. y ∷ zs) (snoc-join xs ys x)

  drop-snoc :
      (n : ℕ) (xs : List A) (x : A)
      → n ≤ length xs
      → drop n (xs ++ (x ∷ [])) ≡ drop n xs ++ (x ∷ [])
  drop-snoc zero xs x h = refl
  drop-snoc (suc n) [] x h = ground arith
  drop-snoc (suc n) (y ∷ ys) x h = drop-snoc n ys x (omega arith)

  set_at-join :
      (xs ys : List A) (y x : A) → set_at (xs ++ (y ∷ ys)) (length xs) x ≡ some (xs ++ (x ∷ ys))
  unfolding set_at
  set_at-join [] ys y x = refl
  set_at-join (z ∷ zs) ys y x = rw (set_at-join zs ys y x) refl

  pub get_elem?-join : (xs ys : List A) (y : A) → get_elem? (xs ++ (y ∷ ys)) (length xs) ≡ some y
  get_elem?-join [] ys y = refl
  get_elem?-join (z ∷ zs) ys y = get_elem?-join zs ys y

  -- The last `n` elements.
  abbrev pub recent : ℕ → List A → List A
  recent n xs = drop (length xs - n) xs

  pub length-blanks : (blank : A) (n : ℕ) → length (blanks blank n) ≡ n
  unfolding blanks
  length-blanks blank zero = refl
  length-blanks blank (suc n) = ap suc (length-blanks blank n)

  -- The ring holds `ys`, the oldest first: all in a row, or in two parts of which the later is older.
  pub data Holds (r : SnapshotRing A) (ys : List A) : Type 0 where
    filling :
        (blank : A) (rest : List A)
        → r.items ≡ ys ++ (blank ∷ rest)
        → r.head ≡ length ys
        → r.size ≡ length ys
        → r.capacity ≡ length ys + suc (length rest)
        → Holds r ys
    filled :
        (newer older : List A) (oldest : A)
        → ys ≡ (oldest ∷ older) ++ newer
        → r.items ≡ newer ++ (oldest ∷ older)
        → r.head ≡ length newer
        → r.size ≡ r.capacity
        → r.capacity ≡ length newer + suc (length older)
        → Holds r ys

  snoc_nonempty : (xs : List A) (x : A) → (o : A) × (os : List A) × (xs ++ (x ∷ []) ≡ o ∷ os)
  snoc_nonempty [] x = (x, [], refl)
  snoc_nonempty (y ∷ ys) x = (y, ys ++ (x ∷ []), refl)

  -- The ring once `x` is written to its items.
  abbrev pub written : SnapshotRing A → List A → SnapshotRing A
  written r items = record {
    capacity = r.capacity;
    items = items;
    head = (r.head + 1) % r.capacity;
    size = if ltb r.size r.capacity then r.size + 1 else r.size;
  }

  pub append-written :
      (r : SnapshotRing A) (before after : List A) (old x : A)
      → r.items ≡ before ++ (old ∷ after)
      → r.head ≡ length before
      → append x r ≡ some (written r (before ++ (x ∷ after)))
  unfolding append with_items
  append-written r before after old x e h = ap (with_items r) stored
    where
      stored : set_at r.items r.head x ≡ some (before ++ (x ∷ after))
      stored = rw (e, h) (set_at-join before after old x)

  pub recent_all : (c : ℕ) (xs : List A) → length xs ≤ c → recent c xs ≡ xs
  recent_all c xs h = ap (λ n. drop n xs) (none_over (length xs) h)
    where
      none_over : (n : ℕ) → n ≤ c → n - c ≡ 0
      none_over n h = omega arith

  recent_later :
      (c : ℕ) (o x : A) (xs : List A)
      → c ≡ suc (length xs)
      → recent c ((o ∷ xs) ++ (x ∷ [])) ≡ xs ++ (x ∷ [])
  recent_later c o x xs h =
      ap (λ n. drop n ((o ∷ xs) ++ (x ∷ [])))
        (one_over (length (xs ++ (x ∷ []))) (length-snoc xs x))
    where
      one_over : (n : ℕ) → n ≡ suc (length xs) → suc n - c ≡ 1
      one_over n e = omega arith

  written_last :
      (r : SnapshotRing A) (ys : List A) (x : A)
      → r.head ≡ length ys
      → r.capacity ≡ length ys + 1
      → (if ltb r.size r.capacity then r.size + 1 else r.size) ≡ r.capacity
      → Holds (written r (ys ++ (x ∷ []))) (ys ++ (x ∷ []))
  written_last r ys x at cap full =
      let (o, os, e) = snoc_nonempty ys x in
      filled [] os o (e ∙ sym (append-nil (o ∷ os))) e
        (rw at (last_head (length ys) r.capacity cap)) full (count o os e)
    where
      count : (o : A) (os : List A) → ys ++ (x ∷ []) ≡ o ∷ os → r.capacity ≡ 0 + suc (length os)
      count o os e =
          let n : suc (length ys) ≡ suc (length os) = sym (length-snoc ys x) ∙ ap length e in
          omega arith

  -- What is held after a snapshot has been appended: the most recent ones.
  pub append-Holds :
      (r : SnapshotRing A) (ys : List A) (x : A)
      → Holds r ys
      → (r' : SnapshotRing A) × (append x r ≡ some r')
        × Holds r' (recent r.capacity (ys ++ (x ∷ [])))
        × (r'.capacity ≡ r.capacity)
  append-Holds r ys x (filling blank [] e at many cap) = (
    written r (ys ++ (x ∷ [])),
    append-written r ys [] blank x e at,
    subst (Holds (written r (ys ++ (x ∷ []))))
        (sym (recent_all r.capacity (ys ++ (x ∷ [])) (fits (length-snoc ys x))))
        (written_last r ys x at (omega arith) full),
    refl,
  )
    where
      fits : length (ys ++ (x ∷ [])) ≡ suc (length ys) → length (ys ++ (x ∷ [])) ≤ r.capacity
      fits n = omega arith

      full : (if ltb r.size r.capacity then r.size + 1 else r.size) ≡ r.capacity
      full = ground arith
  append-Holds r ys x (filling blank (next ∷ rest) e at many cap) = (
    written r (ys ++ (x ∷ next ∷ rest)),
    append-written r ys (next ∷ rest) blank x e at,
    subst (Holds (written r (ys ++ (x ∷ next ∷ rest))))
        (sym (recent_all r.capacity (ys ++ (x ∷ [])) (fits (length-snoc ys x))))
        (filling next rest (sym (snoc-join ys (next ∷ rest) x))
          (rw at (next_head (length ys) r.capacity below) ∙ (plus_one ∙ sym (length-snoc ys x)))
          (more ∙ sym (length-snoc ys x))
          (cap ∙ (counted ∙ ap (λ n. n + suc (length rest)) (sym (length-snoc ys x))))),
    refl,
  )
    where
      fits : length (ys ++ (x ∷ [])) ≡ suc (length ys) → length (ys ++ (x ∷ [])) ≤ r.capacity
      fits n = omega arith

      below : length ys + 1 < r.capacity
      below = omega arith

      plus_one : length ys + 1 ≡ suc (length ys)
      plus_one = omega arith

      more : (if ltb r.size r.capacity then r.size + 1 else r.size) ≡ suc (length ys)
      more = ground arith

      counted : length ys + suc (suc (length rest)) ≡ suc (length ys) + suc (length rest)
      counted = omega arith
  append-Holds r ys x (filled newer [] oldest e parts at many cap) = (
    written r (newer ++ (x ∷ [])),
    append-written r newer [] oldest x parts at,
    subst (Holds (written r (newer ++ (x ∷ []))))
        (sym (
          ap (λ zs. recent r.capacity (zs ++ (x ∷ []))) e
          ∙ recent_later r.capacity oldest x newer (omega arith)))
        (written_last r newer x at (omega arith) full),
    refl,
  )
    where
      full : (if ltb r.size r.capacity then r.size + 1 else r.size) ≡ r.capacity
      full = ground arith
  append-Holds r ys x (filled newer (next ∷ older) oldest e parts at many cap) = (
    written r (newer ++ (x ∷ next ∷ older)),
    append-written r newer (next ∷ older) oldest x parts at,
    subst (Holds (written r (newer ++ (x ∷ next ∷ older))))
        (sym (
          ap (λ zs. recent r.capacity (zs ++ (x ∷ []))) e
          ∙ recent_later r.capacity oldest x ((next ∷ older) ++ newer)
              (all_counted (length-join (next ∷ older) newer))))
        (filled (newer ++ (x ∷ [])) older next (append_assoc (next ∷ older) newer (x ∷ []))
          (sym (snoc-join newer (next ∷ older) x))
          (rw at (next_head (length newer) r.capacity below)
            ∙ (plus_one ∙ sym (length-snoc newer x)))
          full (cap ∙ (counted ∙ ap (λ n. n + suc (length older)) (sym (length-snoc newer x))))),
    refl,
  )
    where
      all_counted :
          length ((next ∷ older) ++ newer) ≡ suc (length older) + length newer
          → r.capacity ≡ suc (length ((next ∷ older) ++ newer))
      all_counted n = omega arith

      below : length newer + 1 < r.capacity
      below = omega arith

      plus_one : length newer + 1 ≡ suc (length newer)
      plus_one = omega arith

      full : (if ltb r.size r.capacity then r.size + 1 else r.size) ≡ r.capacity
      full = ground arith

      counted : length newer + suc (suc (length older)) ≡ suc (length newer) + suc (length older)
      counted = omega arith
