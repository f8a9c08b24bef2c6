-- ===== src/Examples/Schedules.antt =====
-- A cron expression and a schedule of internal/scheduler/application/cron.go.
use edge_pilot.Base.{◌*◌, ◌<◌, ◌≡◌, refl, [], ◌∷◌, any, arith, All}
use edge_pilot.Base.Int.{pos, negsuc}
use edge_pilot.Base.Text.{codes, text_eq, contains, split, atoi, trim_space, is_empty}
use edge_pilot.Cron.Field.{
  ok, err, member, parse_cron_field, parse_segment, Segment, add_segments, add_cron_segment,
  out_of_range,
}
use edge_pilot.Cron.Values.{names, SmallStep, step_limit, parse_cron_field-member}
use edge_pilot.Cron.Schedule.{CronSchedule}
use edge_pilot.Cron.Calendar.{second}
use edge_pilot.Cron.Next.{next_match}
use edge_pilot.Cron.NextLaws.{Earliest, next_match-Earliest}

ranges_and_steps :
    parse_cron_field (codes "1-10/3, 5") 0 59 ≡ ok (pos 5 ∷ pos 10 ∷ pos 7 ∷ pos 4 ∷ pos 1 ∷ [])
unfolding parse_cron_field add_segments add_cron_segment trim_space is_empty text_eq contains split
    atoi
ranges_and_steps = refl

too_large : parse_cron_field (codes "60") 0 59 ≡ err out_of_range
unfolding parse_cron_field add_segments add_cron_segment trim_space is_empty text_eq contains split
    atoi
too_large = refl

-- The largest step overflows the loop's counter, and the field takes in values that are not in its range.
step_overflows :
    parse_cron_field (codes "1/9223372036854775807") 0 59
    ≡ ok (negsuc 0 ∷ negsuc 9223372036854775807 ∷ pos 1 ∷ [])
unfolding parse_cron_field add_segments add_cron_segment trim_space is_empty text_eq contains split
    atoi
step_overflows = refl

small : (a s : Segment) → ok a ≡ ok s → a.step < step_limit → s.step < step_limit
small a s e h = let same : a ≡ s = cc in rw same at h

segments-SmallStep : All (SmallStep 0 59) (split b',' (trim_space (codes "1-10/3, 5")))
unfolding trim_space split parse_segment is_empty text_eq contains atoi
segments-SmallStep = (
  λ s e. small (record { first = pos 1; last = pos 10; step = 3 }) s e (omega arith),
  (λ s e. small (record { first = pos 5; last = pos 5; step = 1 }) s e (omega arith), tt),
)

parse_cron_field-member_example :
    member (pos 7) (pos 5 ∷ pos 10 ∷ pos 7 ∷ pos 4 ∷ pos 1 ∷ [])
    ≡ any (names 0 59 (pos 7)) (split b',' (trim_space (codes "1-10/3, 5")))
parse_cron_field-member_example =
    parse_cron_field-member (codes "1-10/3, 5") 0 59 (pos 5 ∷ pos 10 ∷ pos 7 ∷ pos 4 ∷ pos 1 ∷ [])
      (omega arith) segments-SmallStep ranges_and_steps (pos 7)

-- Half past noon, on every Thursday.
abbrev thursdays : CronSchedule
thursdays = record {
  minutes = pos 30 ∷ [];
  hours = pos 12 ∷ [];
  doms = pos 29 ∷ [];
  months = pos 2 ∷ [];
  dows = pos 4 ∷ [];
}

next_match-Earliest_example :
    Earliest thursdays (1709210096 * second) (next_match thursdays (1709210096 * second))
next_match-Earliest_example = next_match-Earliest thursdays (1709210096 * second)
