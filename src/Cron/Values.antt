-- ===== src/Cron/Values.antt =====
-- The values that a whole field of a cron expression holds: `parseCronField` of
-- internal/scheduler/application/cron.go, against a description of each segment by its bounds and step.
use edge_pilot.Base.{
  ℕ, ◌^◌, ◌≤◌, ◌<◌, ◌≡◌, refl, ◌⊎◌, inl, inr, Bool, false, ◌||◌, List, [], ◌∷◌, arith, Bool-cases,
  if◌then◌else◌, All, any,
}
use edge_pilot.Base.Int.{ℤ, pos, negsuc, pos_part}
use edge_pilot.Base.Text.{Text, is_empty, trim_space, split}
use edge_pilot.Cron.Field.{
  Result, CronError, empty_field, ok, err, nonempty, Segment, member, fill, rounds, parse_step,
  step_of_parts, check_range, >>=_reads, parse_base, parse_segment, split_step, add_cron_segment,
  add_segments, parse_cron_field,
}
use edge_pilot.Cron.FieldLaws.{covers, fill-member}

parse_step-positive : (text : Text) (step : ℕ) → parse_step text ≡ ok step → 0 < step
unfolding parse_step
parse_step-positive text step h = ground arith

step_of_parts-positive : (parts : List Text) (r : Text × ℕ) → step_of_parts parts ≡ ok r → 0 < r.1
unfolding step_of_parts
step_of_parts-positive (base ∷ text ∷ []) r h =
    let (step, parsed, e) = >>=_reads (parse_step text) (λ step. ok (base, step)) h in
    ground (arith, parse_step-positive text step)
step_of_parts-positive [] r h = cc
step_of_parts-positive (base ∷ []) r h = cc
step_of_parts-positive (base ∷ text ∷ more ∷ rest) r h = cc

split_step-positive : (seg : Text) (r : Text × ℕ) → split_step seg ≡ ok r → 0 < r.1
unfolding split_step
split_step-positive seg r h = ground (arith, step_of_parts-positive (split b'/' seg) r)

-- What the range check leaves: bounds within those of the field, in order, and a positive step.
abbrev pub InField : ℕ → ℕ → Segment → Type 0
InField lo hi s =
    (s.first ≡ pos (pos_part s.first))
    × (s.last ≡ pos (pos_part s.last))
    × (lo ≤ pos_part s.first)
    × (pos_part s.first ≤ pos_part s.last)
    × (pos_part s.last ≤ hi)
    × (0 < s.step)

check_range-InField :
    (lo hi step : ℕ) (a b : ℤ) (s : Segment)
    → 0 < step
    → check_range lo hi step a b ≡ ok s
    → InField lo hi s
unfolding check_range
check_range-InField lo hi step (pos a) (pos b) s p h = ground arith
check_range-InField lo hi step (pos a) (negsuc b) s p h = ground arith
check_range-InField lo hi step (negsuc a) b s p h = ground arith

parse_segment-InField :
    (seg : Text) (lo hi : ℕ) (s : Segment) → parse_segment seg lo hi ≡ ok s → InField lo hi s
unfolding parse_segment
parse_segment-InField seg lo hi s h =
    let (r, split, e) = >>=_reads (split_step seg) _ h in
    let (range, based, checked) = >>=_reads (parse_base r.0 lo hi) _ e in
    check_range-InField lo hi r.1 range.0 range.1 s (split_step-positive seg r split) checked

-- Below this step the loop over a segment cannot overflow.
abbrev pub step_limit : ℕ
step_limit = 2 ^ 62

abbrev pub segment_covers : Result Segment → ℤ → Bool
segment_covers (ok s) v = covers (pos_part s.first) (pos_part s.last) s.step v
segment_covers (err e) v = false

-- Whether a segment of the text, white space round it left out, names the value.
abbrev pub names : ℕ → ℕ → ℤ → Text → Bool
names lo hi v raw =
    if is_empty (trim_space raw)
    then false
    else segment_covers (parse_segment (trim_space raw) lo hi) v

abbrev pub SmallStep : ℕ → ℕ → Text → Type 0
SmallStep lo hi raw =
    (s : Segment) → parse_segment (trim_space raw) lo hi ≡ ok s → s.step < step_limit

fill_segment :
    (lo hi : ℕ) (s : Segment) (out : List ℤ)
    → hi ≤ 59
    → InField lo hi s
    → s.step < step_limit
    → (out' : List ℤ) × (fill rounds out s.first s.last s.step ≡ ok out')
      × ((v : ℤ) → member v out' ≡ (segment_covers (ok s) v || member v out))
fill_segment lo hi s out h (f, l, low, order, high, positive) small =
    rw (f, l)
      (fill-member (pos_part s.last) s.step positive (omega arith) rounds (pos_part s.first) out
        (omega arith))

add_segment :
    (lo hi : ℕ) (seg : Text) (out out' : List ℤ)
    → hi ≤ 59
    → ((s : Segment) → parse_segment seg lo hi ≡ ok s → s.step < step_limit)
    → add_cron_segment out seg lo hi ≡ ok out'
    → (v : ℤ) → member v out' ≡ (segment_covers (parse_segment seg lo hi) v || member v out)
unfolding add_cron_segment
add_segment lo hi seg out out' h small e v =
    let (s, parsed, filled) = >>=_reads (parse_segment seg lo hi) _ e in
    let (out'', filled', members) =
      fill_segment lo hi s out h (parse_segment-InField seg lo hi s parsed) (small s parsed) in
    rw parsed (cc (members v, filled, filled'))

or_comm : (a b c : Bool) → (c || (a || b)) ≡ ((a || c) || b)
or_comm a b c = ground arith

add_segments-member :
    (lo hi : ℕ) (parts : List Text) (out out' : List ℤ)
    → hi ≤ 59
    → All (SmallStep lo hi) parts
    → add_segments out parts lo hi ≡ ok out'
    → (v : ℤ) → member v out' ≡ (member v out || any (names lo hi v) parts)
unfolding add_segments any
add_segments-member lo hi [] out out' h small e v = ground arith
add_segments-member lo hi (raw ∷ rest) out out' h (s, small) e v =
    elim (Bool-cases (is_empty (trim_space raw))) [
      | inl blank ↦
          rw blank
            (add_segments-member lo hi rest out out' h small (rw (blank, add_segments) at e) v)
      | inr text ↦ elim (added (add_cron_segment out (trim_space raw) lo hi)) [
        | inl (mid, e') ↦
            let later =
              add_segments-member lo hi rest mid out' h small (rw (text, e', add_segments) at e)
                v in
            ground (arith, later, add_segment lo hi (trim_space raw) out mid h s e' v)
        | inr (x, e') ↦ let clash : err x ≡ ok out' = rw (text, e', add_segments) at e in cc clash
      ]
    ]
  where
    added :
        (r : Result (List ℤ)) → ((mid : List ℤ) × (r ≡ ok mid)) ⊎ ((x : CronError) × (r ≡ err x))
    added (ok mid) = inl (mid, refl)
    added (err x) = inr (x, refl)

nonempty-eq : (found out : List ℤ) → nonempty found ≡ ok out → found ≡ out
nonempty-eq [] out h = cc
nonempty-eq (i ∷ found) out h = cc

-- A field that parses, with bounds up to 59 and with no step of 2 ^ 62 or more, holds exactly the
-- values that one of its segments names.
pub parse_cron_field-member :
    (expr : Text) (lo hi : ℕ) (out : List ℤ)
    → hi ≤ 59
    → All (SmallStep lo hi) (split b',' (trim_space expr))
    → parse_cron_field expr lo hi ≡ ok out
    → (v : ℤ) → member v out ≡ any (names lo hi v) (split b',' (trim_space expr))
unfolding parse_cron_field member any
parse_cron_field-member expr lo hi out h small e v =
    elim (Bool-cases (is_empty (trim_space expr))) [
      | inl blank ↦
          let clash : err empty_field ≡ ok out = rw (blank, parse_cron_field) at e in cc clash
      | inr text ↦
          let (found, added, e') =
            >>=_reads (add_segments [] (split b',' (trim_space expr)) lo hi) nonempty {out = out}
              (rw (text, parse_cron_field) at e) in
          cc (
            add_segments-member lo hi (split b',' (trim_space expr)) [] found h small added v,
            nonempty-eq found out e',
          )
    ]
