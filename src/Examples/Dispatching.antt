-- ===== src/Examples/Dispatching.antt =====
-- An engine of the scheduler, internal/scheduler, with two executors that are online.
use edge_pilot.Base.{
  ℕ, zero, suc, ◌*◌, ◌≡◌, refl, true, false, Option, none, some, List, [], ◌∷◌, arith, get_elem?,
}
use edge_pilot.Base.Int.{pos}
use edge_pilot.Base.Text.{Text, codes, is_empty}
use edge_pilot.Cron.Calendar.{second}
use edge_pilot.Store.Base.{done, fault}
use edge_pilot.Store.Effect.{Result, err, bad_request}
use edge_pilot.Model.Slot.{Slot, blue, green}
use edge_pilot.Model.Scheduler.{SchedulerExecutor, SchedulerDispatchCursor, direct}
use edge_pilot.Scheduler.Moves.{RowMove}
use edge_pilot.Scheduler.Pick.{OnlineExecutor, pick_round_robin, pick_fixed}
use edge_pilot.Scheduler.PickLaws.{
  HasKeys, cursor_after, pick_round_robin_turns, PicksLive, pick_fixed-PicksLive,
}
use edge_pilot.Scheduler.Dispatch.{Engine, Board, dispatch_due_runs}
use edge_pilot.Scheduler.Dispatched.{dispatch_due_runs-Moved}
use edge_pilot.Examples.Runs.{table, fresh, holding}

abbrev worker : Text → Slot → OnlineExecutor
worker id slot = record {
  executor_id = id;
  group = codes "batch";
  live_slot = slot;
  service_instance = false;
  service_id = [];
}

abbrev workers : List OnlineExecutor
workers = worker (codes "a") blue ∷ worker (codes "b") green ∷ []

abbrev seen : Text → SchedulerExecutor
seen id = record {
  id = id;
  token_hash = [];
  group = codes "batch";
  channel_mode = direct;
  relay_agent_id = [];
  relay_routing_key = [];
  enabled = some true;
  last_seen_at = some (1000 * second);
  live_slot = blue;
  instance_meta = none;
}

abbrev no_id : Text → Result ℕ
no_id s = err (bad_request [])

abbrev pub engine : Engine
engine = record {
  runs = table;
  Cursors = Option SchedulerDispatchCursor;
  get_dispatch_cursor = λ job group c. done c;
  save_dispatch_cursor = λ c old. done (some c);
  get_executor = λ id. done (some (seen id));
  resolve_live_slot = none;
  parse_id = no_id;
  list_online_executors = λ group. workers;
  dispatch_run = λ executor run. fault (codes "connection lost");
  error_text = λ e. [];
  default_lease = pos 30;
  heartbeat_timeout = pos 0;
  dispatch_batch_size = none;
}

abbrev board : Board engine
board = record { runs = holding fresh; cursors = none }

-- The run is claimed, and the claim is given back, as the delivery fails.
dispatch_due_runs-Moved_example :
    RowMove
      (table.row 7 board.runs)
      (table.row 7 (dispatch_due_runs engine (1001 * second) board).1.runs)
dispatch_due_runs-Moved_example = dispatch_due_runs-Moved engine (1001 * second) board 7

workers-named :
    (i : ℕ) (x : OnlineExecutor) → get_elem? workers i ≡ some x → is_empty x.executor_id ≡ false
unfolding is_empty
workers-named zero x h = ground arith
workers-named (suc zero) x h = ground arith
workers-named (suc (suc i)) x h = ground arith

workers-apart :
    (i j : ℕ) (x y : OnlineExecutor)
    → get_elem? workers i ≡ some x
    → get_elem? workers j ≡ some y
    → x.executor_id ≡ y.executor_id
    → i ≡ j
workers-apart zero zero x y h g e = refl
workers-apart zero (suc zero) x y h g e = ground arith
workers-apart zero (suc (suc j)) x y h g e = ground arith
workers-apart (suc zero) zero x y h g e = ground arith
workers-apart (suc zero) (suc zero) x y h g e = refl
workers-apart (suc zero) (suc (suc j)) x y h g e = ground arith
workers-apart (suc (suc i)) j x y h g e = ground arith

workers-HasKeys : HasKeys workers
workers-HasKeys = record { named = workers-named; apart = workers-apart }

pick_round_robin_turns_example :
    pick_round_robin (cursor_after fresh workers 5) workers ≡ some (worker (codes "b") green)
pick_round_robin_turns_example =
    pick_round_robin_turns fresh workers 5 workers-HasKeys (omega arith)

pick_fixed-PicksLive_example : PicksLive no_id green 3 workers (pick_fixed no_id green 3 workers)
pick_fixed-PicksLive_example = pick_fixed-PicksLive no_id green 3 workers
