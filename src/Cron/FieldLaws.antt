-- ===== src/Cron/FieldLaws.antt =====
-- Which values a field of a cron expression holds:
-- internal/scheduler/application/cron.go, `parseCronField` and `addCronSegment`.
use native.Mathlib.Nat.{mod-eq-sub-mod, mod-eq_of_lt}
use edge_pilot.Base.{
  ℕ, zero, suc, ◌+◌, ◌-◌, ◌%◌, ◌≤◌, ◌<◌, ◌≡◌, refl, ◌∙◌, ◌⊎◌, inl, inr, Bool, true, false, ◌&&◌,
  ◌||◌, List, leb, ◌==◌, arith, Bool-cases,
}
use edge_pilot.Base.Int.{ℤ, pos, negsuc, leb_ℤ, eqb_ℤ, eqb_ℤ→eq, eqb_ℤ-self}
use edge_pilot.Base.Text.{int_limit}
use edge_pilot.Cron.Field.{ok, member, insert, advance, fill}

pub member-insert : (v i : ℤ) (out : List ℤ) → member v (insert i out) ≡ (eqb_ℤ v i || member v out)
unfolding insert
member-insert v i out = elim (Bool-cases (member i out)) [
  | inl there ↦ rw there (old v i out there)
  | inr new ↦ rw new refl
]
  where
    old :
        (v i : ℤ) (out : List ℤ) → member i out ≡ true → member v out ≡ (eqb_ℤ v i || member v out)
    old v i out there = elim (Bool-cases (eqb_ℤ v i)) [
      | inl same ↦ rw (eqb_ℤ→eq v i same, eqb_ℤ-self i) there
      | inr other ↦ rw other refl
    ]

advance-pos : (i step : ℕ) → i + step < int_limit → advance (pos i) step ≡ pos (i + step)
unfolding advance
advance-pos i step h = ground arith

-- The values from `first` to `last` in steps of `step`.
abbrev pub covers : ℕ → ℕ → ℕ → ℤ → Bool
covers first last step (pos v) = leb first v && leb v last && ((v - first) % step == 0)
covers first last step (negsuc v) = false

-- The remainder of the distance to `v`, before `first + step` and from there on.
mod_near : (first step v : ℕ) → v < first + step → (v - first) % step ≡ v - first ⊎ (v < first)
mod_near first step v h = ground (arith, mod-eq_of_lt {n = v - first} {m = step})

mod_far : (first step v : ℕ) → first + step ≤ v → (v - first) % step ≡ (v - (first + step)) % step
mod_far first step v h =
    let split : (v - first) - step ≡ v - (first + step) = omega arith in
    rw (← split) (mod-eq-sub-mod {n = v - first} {m = step} (omega arith))

covers-step :
    (first last step : ℕ) (v : ℤ)
    → 0 < step
    → first ≤ last
    → covers first last step v ≡ (eqb_ℤ v (pos first) || covers (first + step) last step v)
covers-step first last step (negsuc v) h g = ground arith
covers-step first last step (pos v) h g =
    ground (arith, mod_near first step v, mod_far first step v)

fill-more :
    (fuel : ℕ) (out : List ℤ) (i last : ℤ) (step : ℕ)
    → leb_ℤ i last ≡ true
    → fill (suc fuel) out i last step ≡ fill fuel (insert i out) (advance i step) last step
unfolding fill
fill-more fuel out i last step h = rw (h, fill)

fill-done :
    (fuel : ℕ) (out : List ℤ) (i last : ℤ) (step : ℕ)
    → leb_ℤ i last ≡ false
    → fill (suc fuel) out i last step ≡ ok out
unfolding fill
fill-done fuel out i last step h = rw (h, fill)

module _ (last step : ℕ) (positive : 0 < step) (small : last + step < int_limit) where
  pub fill-member :
      (fuel first : ℕ) (out : List ℤ)
      → last + 1 - first < fuel
      → (out' : List ℤ) × (fill fuel out (pos first) (pos last) step ≡ ok out')
        × ((v : ℤ) → member v out' ≡ (covers first last step v || member v out))
  fill-member zero first out h = elim h [ ]
  fill-member (suc fuel) first out h = elim (Bool-cases (leb_ℤ (pos first) (pos last))) [
    | inl more ↦
        let (out', e, members) =
          fill-member fuel (first + step) (insert (pos first) out) (ground arith) in
        (
          out',
          fill-more fuel out (pos first) (pos last) step more
              ∙ rw (advance-pos first step (ground arith)) e,
          λ v.
              ground
                (arith, members v, member-insert v (pos first) out, covers-step first last step v),
        )
    | inr done ↦ (
      out,
      fill-done fuel out (pos first) (pos last) step done,
      λ v. nothing_left v first out done,
    )
  ]
    where
      nothing_left :
          (v : ℤ) (first : ℕ) (out : List ℤ)
          → leb_ℤ (pos first) (pos last) ≡ false
          → member v out ≡ (covers first last step v || member v out)
      nothing_left (pos v) first out done = ground arith
      nothing_left (negsuc v) first out done = refl
