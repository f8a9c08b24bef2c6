-- ===== src/Cron/Schedule.antt =====
-- A whole cron expression: `parseCronSchedule` and `normalizeDow` of
-- internal/scheduler/application/cron.go.
use edge_pilot.Base.{Option, none, some, List, [], ◌∷◌, ◌++◌, if◌then◌else◌}
use edge_pilot.Base.Int.{ℤ}
use edge_pilot.Base.Text.{
  Text, codes, text_eq, is_empty, trim_space, contains, split, fields, to_upper, join,
}
use edge_pilot.Cron.Field.{
  Result, ok, err, ◌>>=◌, or_fail, parse_cron_field, field_count, day_of_week_token,
}

pub record CronSchedule : Type 0 where
  pub minutes : List ℤ
  pub hours : List ℤ
  pub doms : List ℤ
  pub months : List ℤ
  pub dows : List ℤ

-- The map `mapping`.
unfoldable pub day_number : Text → Option Text
unfolding text_eq
day_number v =
    if text_eq v (codes "SUN")
    then some (codes "0")
    else if text_eq v (codes "MON")
    then some (codes "1")
    else if text_eq v (codes "TUE")
    then some (codes "2")
    else if text_eq v (codes "WED")
    then some (codes "3")
    else if text_eq v (codes "THU")
    then some (codes "4")
    else if text_eq v (codes "FRI")
    then some (codes "5")
    else if text_eq v (codes "SAT")
    then some (codes "6")
    else none

-- The body of the loop of `normalizeDow`, for a part that is not empty.
unfoldable pub dow_part : Text → Result Text
unfolding day_number contains split
dow_part v = elim (day_number v) [
  | some mapped ↦ ok mapped
  | none ↦
      if contains b'-' v
      then elim (split b'-' v) [
        | left ∷ right ∷ [] ↦
            (or_fail (day_number left) day_of_week_token >>= λ l.
            or_fail (day_number right) day_of_week_token >>= λ r. ok (l ++ b'-' ∷ r))
        | _ ↦ err day_of_week_token
      ]
      else ok v
]

unfoldable pub dow_parts : List Text → Result (List Text)
unfolding dow_part trim_space is_empty
dow_parts [] = ok []
dow_parts (part ∷ rest) =
    let v = trim_space part in
    let later = dow_parts rest in
    if is_empty v then later else dow_part v >>= λ out. later >>= λ outs. ok (out ∷ outs)

abbrev joined : List Text → Result Text
joined [] = err day_of_week_token
joined (w ∷ ws) = ok (join b',' (w ∷ ws))

unfoldable pub normalize_dow : Text → Result Text
unfolding dow_parts trim_space split to_upper join
normalize_dow raw = dow_parts (split b',' (to_upper (trim_space raw))) >>= joined

-- The day of the week, as it stands or with its names replaced by numbers.
unfoldable pub parse_dow : Text → Result (List ℤ)
unfolding parse_cron_field normalize_dow
parse_dow text = elim (parse_cron_field text 0 6) [
  | ok dows ↦ ok dows
  | err e ↦ elim (normalize_dow text) [
    | ok normalized ↦ parse_cron_field normalized 0 6
    | err _ ↦ err e
  ]
]

unfoldable pub parse_cron_schedule : Text → Result CronSchedule
unfolding parse_cron_field parse_dow trim_space fields
parse_cron_schedule expr = elim (fields (trim_space expr)) [
  | minute ∷ hour ∷ dom ∷ month ∷ dow ∷ [] ↦ (do
    minutes ← parse_cron_field minute 0 59
    hours ← parse_cron_field hour 0 23
    doms ← parse_cron_field dom 1 31
    months ← parse_cron_field month 1 12
    dows ← parse_dow dow
    ok (record { minutes = minutes; hours = hours; doms = doms; months = months; dows = dows }))
  | _ ↦ err field_count
]
