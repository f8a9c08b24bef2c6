-- ===== src/Cron/Next.antt =====
-- The next minute that a schedule names: `nextCronTimeUTC` of
-- internal/scheduler/application/cron.go.
use edge_pilot.Base.{
  ℕ, zero, suc, ◌+◌, ◌*◌, Bool, true, false, not, ◌&&◌, ◌||◌, ltb, ◌==◌, if◌then◌else◌, length,
}
use edge_pilot.Base.Int.{pos}
use edge_pilot.Base.Text.{Text}
use edge_pilot.Cron.Field.{Result, ok, err, ◌>>=◌, not_found, stuck, member}
use edge_pilot.Cron.Schedule.{CronSchedule, parse_cron_schedule}
use edge_pilot.Cron.Calendar.{Time, minute, day, Fields, civil, truncate_minute}

-- The two tests on the day. Where both the day of the month and the weekday are restricted, either
-- will do.
unfoldable pub day_matches : CronSchedule → Fields → Bool
unfolding member
day_matches s f =
    let dom = member (pos f.day_of) s.doms in
    let dow = member (pos f.weekday_of) s.dows in
    if not (length s.doms == 31) && not (length s.dows == 7) then dom || dow else dom && dow

-- The tests that make the loop return at `current`.
unfoldable pub matches : CronSchedule → Time → Bool
unfolding day_matches member
matches s current =
    let f = civil current in
    member (pos f.minute_of) s.minutes
    && member (pos f.hour_of) s.hours
    && member (pos f.month_of) s.months
    && day_matches s f

-- The loop, on fuel.
unfoldable pub search_minute : ℕ → CronSchedule → Time → Time → Result Time
unfolding matches
search_minute zero s current deadline = err stuck
search_minute (suc fuel) s current deadline = elim (ltb deadline current) [
  | true ↦ err not_found
  | false ↦ elim (matches s current) [
    | true ↦ ok current
    | false ↦ search_minute fuel s (current + minute) deadline
  ]
]

abbrev pub window : ℕ
window = 366 * day

-- A round for every minute of the window, its end included, and one to leave.
abbrev pub search_rounds : ℕ
search_rounds = 527042

unfoldable pub next_match : CronSchedule → Time → Result Time
unfolding search_minute truncate_minute
next_match s from =
    let current = truncate_minute from + minute in
    search_minute search_rounds s current (current + window)

unfoldable pub next_cron_time : Text → Time → Result Time
unfolding next_match parse_cron_schedule
next_cron_time expr from = parse_cron_schedule expr >>= λ s. next_match s from
