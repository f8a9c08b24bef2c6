-- ===== src/Scheduler/Pick.antt =====
-- Which executor gets a run: `executorDispatchable` and the pure parts of `pickExecutorID` of
-- internal/scheduler/application/service.go, with the helpers that read a service's identifier.
-- `uuid.Parse` is a parameter; `uuid.Nil` is 0.
use edge_pilot.Base.{
  ℕ, zero, suc, ◌+◌, ◌*◌, ◌%◌, Bool, true, false, ◌&&◌, ◌||◌, not, Option, none, some, List, [],
  ◌∷◌, ltb, ◌==◌, if◌then◌else◌, length, get_elem?,
}
use edge_pilot.Base.Int.{ℤ, pos, leb_ℤ, pos_part}
use edge_pilot.Base.Text.{Text, codes, text_eq, is_empty, trim_space}
use edge_pilot.Cron.Calendar.{Time, second}
use edge_pilot.Store.Effect.{Result, ok, err, bad_request}
use edge_pilot.Model.Slot.{Slot, slot_eq}
use edge_pilot.Model.Scheduler.{
  SchedulerJobRun, SchedulerExecutor, SchedulerDispatchCursor, Payload, Value, null, text,
}
use edge_pilot.Scheduler.Lease.{payload_get}

pub record OnlineExecutor : Type 0 where
  pub executor_id : Text
  pub group : Text
  pub live_slot : Slot
  pub service_instance : Bool
  pub service_id : Text

unfoldable pub is_on : Option Bool → Bool
is_on none = false
is_on (some e) = e

-- The heartbeat's timeout in nanoseconds, 15 seconds where none is configured.
unfoldable pub heartbeat_timeout : ℤ → ℕ
heartbeat_timeout configured = if leb_ℤ configured (pos 0) then 15 * second else pos_part configured

-- `LastSeenAt.After(now - timeout)`.
unfoldable pub seen_lately : ℕ → Time → Option Time → Bool
seen_lately timeout now none = false
seen_lately timeout now (some seen) = ltb now (seen + timeout)

unfoldable pub executor_dispatchable : ℤ → Time → Option SchedulerExecutor → Bool
unfolding is_on heartbeat_timeout seen_lately
executor_dispatchable configured now none = false
executor_dispatchable configured now (some executor) =
    is_on executor.enabled && seen_lately (heartbeat_timeout configured) now executor.last_seen_at

-- The order of Go's strings, by bytes.
unfoldable pub text_lt : Text → Text → Bool
text_lt s [] = false
text_lt [] (d ∷ t) = true
text_lt (c ∷ s) (d ∷ t) = ltb c d || ((c == d) && text_lt s t)

unfoldable pub insert_by_id : OnlineExecutor → List OnlineExecutor → List OnlineExecutor
insert_by_id x [] = x ∷ []
insert_by_id x (y ∷ ys) =
    if text_lt y.executor_id x.executor_id then y ∷ insert_by_id x ys else x ∷ y ∷ ys

-- `sort.Slice` by `ExecutorID`.
unfoldable pub sort_by_id : List OnlineExecutor → List OnlineExecutor
sort_by_id [] = []
sort_by_id (x ∷ xs) = insert_by_id x (sort_by_id xs)

-- The value at `serviceId`, or else at `serviceID`; `none` also for a null.
unfoldable pub service_value : Payload → Option Value
service_value payload = first_of (payload_get (codes "serviceId") payload)
  where
    first_of : Option Value → Option Value
    first_of (some v) = some v
    first_of none = payload_get (codes "serviceID") payload

module _ (parse_id : Text → Result ℕ) where
  unfoldable pub service_id_of_value : Option Value → Result ℕ
  service_id_of_value none =
      err (bad_request (codes "serviceId required in payload for fixed_live_slot"))
  service_id_of_value (some null) =
      err (bad_request (codes "serviceId required in payload for fixed_live_slot"))
  service_id_of_value (some (text s)) = parse_id (trim_space s)
  service_id_of_value (some v) = err (bad_request (codes "serviceId must be string"))

  unfoldable pub run_payload : SchedulerJobRun → Payload
  run_payload run = of run.payload
    where
      of : Option Payload → Payload
      of none = []
      of (some p) = p

  unfoldable pub target_service_id : SchedulerJobRun → Result ℕ
  unfolding service_id_of_value
  target_service_id run =
      if run.service_id == 0
      then service_id_of_value (service_value (run_payload run))
      else ok run.service_id

  -- `serviceInstanceServiceID`.
  unfoldable pub service_instance_service_id : OnlineExecutor → Option ℕ
  service_instance_service_id x =
      if is_empty (trim_space x.service_id)
      then none
      else id_of (parse_id (trim_space x.service_id))
    where
      id_of : Result ℕ → Option ℕ
      id_of (ok id) = some id
      id_of (err e) = none

  unfoldable pub is_id : ℕ → Option ℕ → Bool
  is_id service none = false
  is_id service (some id) = id == service

  -- An instance of the service itself, in the live slot.
  unfoldable pub is_instance_for : Slot → ℕ → OnlineExecutor → Bool
  unfolding is_id
  is_instance_for slot service x =
      slot_eq x.live_slot slot
      && x.service_instance
      && is_id service (service_instance_service_id x)

  unfoldable pub is_plain_for : Slot → OnlineExecutor → Bool
  is_plain_for slot x = slot_eq x.live_slot slot && not x.service_instance

  -- The first that meets a condition.
  unfoldable pub first_match : (OnlineExecutor → Bool) → List OnlineExecutor → Option OnlineExecutor
  first_match p [] = none
  first_match p (x ∷ xs) = let rest = first_match p xs in if p x then some x else rest

  unfoldable pub or_else : Option OnlineExecutor → Option OnlineExecutor → Option OnlineExecutor
  or_else none y = y
  or_else (some x) y = some x

  -- The two loops for the policy `fixed_live_slot`.
  unfoldable pub pick_fixed : Slot → ℕ → List OnlineExecutor → Option OnlineExecutor
  unfolding is_instance_for is_plain_for first_match or_else
  pick_fixed slot service online =
      or_else (first_match (is_instance_for slot service) online)
        (first_match (is_plain_for slot) online)

-- The position of an executor.
unfoldable pub index_of : Text → List OnlineExecutor → Option ℕ
index_of id [] = none
index_of id (x ∷ xs) = found_at (text_eq x.executor_id id) (index_of id xs)
  where
    found_at : Bool → Option ℕ → Option ℕ
    found_at true later = some 0
    found_at false none = none
    found_at false (some i) = some (suc i)

-- The remainder by a length that Go's loop knows not to be 0.
unfoldable pub wrap : ℕ → ℕ → ℕ
wrap i zero = 0
wrap i (suc n) = i % suc n

-- `start`: the one after the executor that got the last run, or the first.
unfoldable pub start_index : Option SchedulerDispatchCursor → List OnlineExecutor → ℕ
start_index none online = 0
start_index (some cursor) online =
    if is_empty cursor.last_executor_id then 0 else after (index_of cursor.last_executor_id online)
  where
    after : Option ℕ → ℕ
    after none = 0
    after (some i) = wrap (suc i) (length online)

unfoldable pub pick_round_robin :
    Option SchedulerDispatchCursor → List OnlineExecutor → Option OnlineExecutor
unfolding start_index
pick_round_robin cursor online = get_elem? online (start_index cursor online)

-- The cursor that is saved.
unfoldable pub moved_cursor :
    SchedulerJobRun → Text → Option SchedulerDispatchCursor → SchedulerDispatchCursor
moved_cursor run chosen none = record {
  job_id = run.job_id;
  executor_group = run.executor_group;
  last_executor_id = chosen;
}
moved_cursor run chosen (some cursor) = record cursor { last_executor_id = chosen }
