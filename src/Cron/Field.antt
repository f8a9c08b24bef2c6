-- ===== src/Cron/Field.antt =====
-- One field of a cron expression: `parseCronField` and `addCronSegment` of
-- internal/scheduler/application/cron.go. A `map[int]struct{}` is the list of its keys, each once.
use edge_pilot.Base.{
  ◌≡◌, refl, ℕ, zero, suc, ◌-◌, Bool, true, false, ◌||◌, Option, none, some, List, [], ◌∷◌,
  if◌then◌else◌,
}
use edge_pilot.Base.Int.{ℤ, pos, negsuc, ltb_ℤ, leb_ℤ, eqb_ℤ, ◌+ℤ◌, pos_part}
use edge_pilot.Base.Text.{Text, text_eq, is_empty, trim_space, contains, split, atoi, int_limit}

pub data CronError : Type 0 where
  field_count empty_field no_valid_values step_syntax step_value : CronError
  range_syntax range_start range_end invalid_value out_of_range : CronError
  day_of_week_token : CronError
  not_found : CronError
  -- The model's loop ran out of its fuel; no run of the source ends so.
  stuck : CronError

pub data Result {ℓ} (A : Type ℓ) : Type ℓ where
  ok : A → Result A
  err : CronError → Result A

infixl 5 ◌>>=◌
-- The next step of the parser, unless an error has stopped it.
abbrev pub ◌>>=◌ {κ ℓ} : {P : Type κ} {Q : Type ℓ} → Result P → (P → Result Q) → Result Q
err why >>= parse = err why
ok read >>= parse = parse read

-- A parser that succeeds has read something that its next step has taken up.
pub >>=_reads {κ ℓ} :
    {P : Type κ} {Q : Type ℓ} (first : Result P) (parse : P → Result Q) {out : Q}
    → (first >>= parse) ≡ ok out
    → (read : P) × (first ≡ ok read) × (parse read ≡ ok out)
>>=_reads (err why) parse e = cc
>>=_reads (ok read) parse e = (read, refl, e)

abbrev pub or_fail {ℓ} : {A : Type ℓ} → Option A → CronError → Result A
or_fail none e = err e
or_fail (some a) e = ok a

unfoldable pub member : ℤ → List ℤ → Bool
member i [] = false
member i (x ∷ xs) = eqb_ℤ i x || member i xs

-- `out[i] = struct{}{}`.
unfoldable pub insert : ℤ → List ℤ → List ℤ
unfolding member
insert i out = if member i out then out else i ∷ out

-- `i += step` on a 64-bit `int`, which wraps.
unfoldable pub advance : ℤ → ℕ → ℤ
unfolding ◌+ℤ◌
advance i step =
    let j = i +ℤ pos step in
    if ltb_ℤ j (pos int_limit) then j else negsuc (int_limit - 1 - (pos_part j - int_limit))

-- The loop of `addCronSegment`, on fuel.
unfoldable pub fill : ℕ → List ℤ → ℤ → ℤ → ℕ → Result (List ℤ)
unfolding insert advance
fill zero out i last step = err stuck
fill (suc fuel) out i last step = elim (leb_ℤ i last) [
  | true ↦ fill fuel (insert i out) (advance i step) last step
  | false ↦ ok out
]

pub record Segment : Type 0 where
  pub first : ℤ
  pub last : ℤ
  pub step : ℕ

-- The step behind a `/`, which has to be positive.
unfoldable pub parse_step : Text → Result ℕ
parse_step text = elim (atoi text) [
  | some (pos (suc n)) ↦ ok (suc n)
  | some (pos zero) ↦ err step_value
  | some (negsuc n) ↦ err step_value
  | none ↦ err step_value
]

unfoldable pub step_of_parts : List Text → Result (Text × ℕ)
unfolding parse_step
step_of_parts [] = err step_syntax
step_of_parts (base ∷ []) = err step_syntax
step_of_parts (base ∷ text ∷ []) = parse_step text >>= λ step. ok (base, step)
step_of_parts (base ∷ text ∷ more ∷ rest) = err step_syntax

-- The base of a segment and its step.
unfoldable pub split_step : Text → Result (Text × ℕ)
unfolding step_of_parts
split_step seg = if contains b'/' seg then step_of_parts (split b'/' seg) else ok (seg, 1)

range_of_parts : List Text → Result (ℤ × ℤ)
range_of_parts [] = err range_syntax
range_of_parts (left ∷ []) = err range_syntax
range_of_parts (left ∷ right ∷ []) = do
  a ← or_fail (atoi left) range_start
  b ← or_fail (atoi right) range_end
  ok (a, b)
range_of_parts (left ∷ right ∷ more ∷ rest) = err range_syntax

-- The `switch` on the base: the first and the last value.
unfoldable pub parse_base : Text → ℕ → ℕ → Result (ℤ × ℤ)
unfolding range_of_parts
parse_base base lo hi =
    if text_eq base (b'*' ∷ []) || is_empty base
    then ok (pos lo, pos hi)
    else if contains b'-' base
    then range_of_parts (split b'-' base)
    else or_fail (atoi base) invalid_value >>= λ v. ok (v, v)

-- The range check.
unfoldable pub check_range : ℕ → ℕ → ℕ → ℤ → ℤ → Result Segment
check_range lo hi step a b =
    if ltb_ℤ a (pos lo) || ltb_ℤ (pos hi) b || ltb_ℤ b a
    then err out_of_range
    else ok (record { first = a; last = b; step = step })

-- `addCronSegment` up to its loop.
unfoldable pub parse_segment : Text → ℕ → ℕ → Result Segment
unfolding split_step parse_base check_range
parse_segment seg lo hi = split_step seg >>= λ (base, step).
    parse_base base lo hi >>= λ (a, b). check_range lo hi step a b

-- Enough rounds for every field: see `FieldLaws`.
abbrev pub rounds : ℕ
rounds = 130

unfoldable pub add_cron_segment : List ℤ → Text → ℕ → ℕ → Result (List ℤ)
unfolding parse_segment fill
add_cron_segment out seg lo hi =
    parse_segment seg lo hi >>= λ s. fill rounds out s.first s.last s.step

-- The loop over the segments.
unfoldable pub add_segments : List ℤ → List Text → ℕ → ℕ → Result (List ℤ)
add_segments out [] lo hi = ok out
add_segments out (raw ∷ rest) lo hi =
    let seg = trim_space raw in
    elim (is_empty seg) [
      | true ↦ add_segments out rest lo hi
      | false ↦ elim (add_cron_segment out seg lo hi) [
        | ok out' ↦ add_segments out' rest lo hi
        | err e ↦ err e
      ]
    ]

abbrev pub nonempty : List ℤ → Result (List ℤ)
nonempty [] = err no_valid_values
nonempty (i ∷ out) = ok (i ∷ out)

unfoldable pub parse_cron_field : Text → ℕ → ℕ → Result (List ℤ)
parse_cron_field expr lo hi =
    let text = trim_space expr in
    if is_empty text then err empty_field else add_segments [] (split b',' text) lo hi >>= nonempty
