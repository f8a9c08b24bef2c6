-- ===== src/Cron/NextLaws.antt =====
-- What the search of internal/scheduler/application/cron.go finds.
use edge_pilot.Base.{
  ℕ, zero, suc, ◌+◌, ◌-◌, ◌*◌, ◌%◌, ◌≤◌, ◌<◌, ◌≡◌, refl, ◌≢◌, ◌⊎◌, inl, inr, true, false, ltb,
  ltb→lt, lt→ltb, arith, Bool-cases, ◌/◌, ◌↔◌, length,
}
use edge_pilot.Base.Int.{pos}
use edge_pilot.Cron.Field.{Result, ok, err, not_found, member}
use edge_pilot.Cron.Schedule.{CronSchedule}
use edge_pilot.Cron.Calendar.{Time, minute, civil, truncate_minute}
use edge_pilot.Cron.Next.{matches, search_minute, next_match, window}

-- The minute `k` steps behind `current`.
abbrev at : Time → ℕ → Time
at current k = current + k * minute

-- The first of the minutes from `current` to `deadline` that the schedule names, or none of them.
abbrev Finds : CronSchedule → Time → Time → Result Time → Type 0
Finds s current deadline (ok t) =
    (k : ℕ) × (t ≡ at current k)
    × (t ≤ deadline)
    × (matches s t ≡ true)
    × ((j : ℕ) → j < k → matches s (at current j) ≡ false)
Finds s current deadline (err e) =
    (e ≡ not_found) × ((j : ℕ) → at current j ≤ deadline → matches s (at current j) ≡ false)

at-suc : (current : Time) (j : ℕ) → at current (suc j) ≡ at (current + minute) j
at-suc current j = omega arith

at-zero : (current : Time) → at current zero ≡ current
at-zero current = omega arith

module _ (s : CronSchedule) (current deadline : Time) (miss : matches s current ≡ false) where
  -- The minutes from `current` on that miss, given those from the next one on.
  before :
      (k : ℕ)
      → ((i : ℕ) → i < k → matches s (at (current + minute) i) ≡ false)
      → (j : ℕ) → j < suc k
      → matches s (at current j) ≡ false
  before k later zero h = rw (at-zero current) miss
  before k later (suc j) h = rw (at-suc current j) (later j (omega arith))

  up_to_deadline :
      ((i : ℕ) → at (current + minute) i ≤ deadline → matches s (at (current + minute) i) ≡ false)
      → (j : ℕ) → at current j ≤ deadline
      → matches s (at current j) ≡ false
  up_to_deadline later zero h = rw (at-zero current) miss
  up_to_deadline later (suc j) h = rw (at-suc current j) (later j (omega arith))

  Finds-later :
      (r : Result Time) → Finds s (current + minute) deadline r → Finds s current deadline r
  Finds-later (ok t) (k, e, within, hit, later) = (suc k, omega arith, within, hit, before k later)
  Finds-later (err e) (is_not_found, later) = (is_not_found, up_to_deadline later)

search_minute-Finds :
    (fuel : ℕ) (s : CronSchedule) (current deadline : Time)
    → deadline < current + fuel * minute
    → Finds s current deadline (search_minute (suc fuel) s current deadline)
unfolding search_minute
search_minute-Finds zero s current deadline h =
    rw (lt→ltb deadline current (omega arith), Finds) (refl, λ j g. absurd (omega arith))
search_minute-Finds (suc fuel) s current deadline h = elim (Bool-cases (ltb deadline current)) [
  | inl late ↦ rw (late, Finds) (refl, λ j g. absurd (omega (arith, ltb→lt deadline current late)))
  | inr early ↦ elim (Bool-cases (matches s current)) [
    | inl hit ↦
        rw (early, hit, Finds) (0, omega arith, ground arith, hit, λ j g. absurd (omega arith))
    | inr miss ↦
        rw (early, miss, Finds)
          (Finds-later s current deadline miss _
            (search_minute-Finds fuel s (current + minute) deadline (omega arith)))
  ]
]

next_match-Finds :
    (s : CronSchedule) (from : Time)
    → let start = truncate_minute from + minute in
      Finds s start (start + window) (next_match s from)
unfolding next_match
next_match-Finds s from =
    search_minute-Finds 527041 s (truncate_minute from + minute)
      (truncate_minute from + minute + window) (omega arith)

-- A whole minute later than `from` is some number of minutes behind the start of the search.
at-start :
    (from u : Time)
    → u % minute ≡ 0
    → from < u
    → u ≡ at (truncate_minute from + minute) ((u - (truncate_minute from + minute)) / minute)
unfolding truncate_minute
at-start from u whole later = omega arith

start_after : (from : Time) → from < truncate_minute from + minute
unfolding truncate_minute
start_after from = omega arith

start_whole : (from k : Time) → at (truncate_minute from + minute) k % minute ≡ 0
unfolding truncate_minute
start_whole from k = omega arith

truncate_minute-le : (from : Time) → truncate_minute from ≤ from
unfolding truncate_minute
truncate_minute-le from = omega arith

-- What a caller of `nextCronTimeUTC` gets from a schedule: the earliest whole minute later than
-- `from` that the schedule names, or `not_found` where no minute up to 366 days later is named.
abbrev pub Earliest : CronSchedule → Time → Result Time → Type 0
Earliest s from (ok t) =
    (t % minute ≡ 0)
    × (from < t)
    × (t ≤ from + minute + window)
    × (matches s t ≡ true)
    × ((u : Time) → u % minute ≡ 0 → from < u → u < t → matches s u ≡ false)
Earliest s from (err e) =
    (e ≡ not_found)
    × ((u : Time) → u % minute ≡ 0 → from < u → u ≤ from + window → matches s u ≡ false)

Finds-Earliest :
    (s : CronSchedule) (from : Time) (r : Result Time)
    → let start = truncate_minute from + minute in
      Finds s start (start + window) r → Earliest s from r
Finds-Earliest s from (ok t) (k, e, within, hit, earlier) = (
  rw e (start_whole from k),
  omega (arith, start_after from),
  omega (arith, truncate_minute-le from),
  hit,
  λ u whole later sooner.
      let start : Time = truncate_minute from + minute in
      let there = at-start from u whole later in
      rw there (earlier ((u - start) / minute) (omega (arith, there))),
)
Finds-Earliest s from (err e) (is_not_found, none_named) = (
  is_not_found,
  λ u whole later within.
      let start : Time = truncate_minute from + minute in
      let there = at-start from u whole later in
      rw there (none_named ((u - start) / minute) (omega (arith, there, start_after from))),
)

-- The search for the next time that a schedule names always ends. It returns the earliest whole
-- minute that is later than `from` and that the schedule names, at most 366 days and a minute away;
-- or it reports `not_found`, and then no whole minute of the next 366 days is named.
pub next_match-Earliest : (s : CronSchedule) (from : Time) → Earliest s from (next_match s from)
next_match-Earliest s from = Finds-Earliest s from _ (next_match-Finds s from)

-- A time is named by a schedule exactly when its minute, its hour and its month are, and its day is:
-- by the day of the month or by the weekday where both of these are restricted, and by both where
-- one of them is not.
pub matches_iff :
    (s : CronSchedule) (t : Time)
    → let f = civil t in
      let dom = member (pos f.day_of) s.doms in
      let dow = member (pos f.weekday_of) s.dows in
      (matches s t ≡ true) ↔ (
        (member (pos f.minute_of) s.minutes ≡ true)
        × (member (pos f.hour_of) s.hours ≡ true)
        × (member (pos f.month_of) s.months ≡ true)
        × (((length s.doms ≢ 31) × (length s.dows ≢ 7) × ((dom ≡ true) ⊎ (dow ≡ true)))
            ⊎ (((length s.doms ≡ 31) ⊎ (length s.dows ≡ 7)) × (dom ≡ true) × (dow ≡ true))))
unfolding matches
matches_iff s t = ground arith
