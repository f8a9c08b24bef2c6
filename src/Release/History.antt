-- ===== src/Release/History.antt =====
-- All operations of internal/release/application/service.go that change releases, in any order.
use edge_pilot.Base.{ℕ, List, [], ◌∷◌}
use edge_pilot.Base.Text.{Text}
use edge_pilot.Cron.Calendar.{Time}
use edge_pilot.Release.World.{Backend, World}
use edge_pilot.Release.Start
use edge_pilot.Release.Orderly.{SavesStatus, KeepsService}
use edge_pilot.Release.Busy.{OneBusy, TableOrderly-calm}
use edge_pilot.Release.OneBusy.{calm-OneBusy}
use edge_pilot.Release.Calmly.{Safe, KeepsOneBusy}
use edge_pilot.Release.Started.{start-Safe, retry-Safe}
use edge_pilot.Release.Operations.{Call, after, after-TableOrderly}

pub data Request : Type 0 where
  start retry : (id : ℕ) (operator : Text) (now : Time) → Request
  call : Call → Request

-- The state after a request, whether it returns a value or an error.
unfoldable pub answered : (b : Backend) → Request → World b → World b
answered b (start id operator now) w = (Start.start b id operator now w).1
answered b (retry id operator now) w = (Start.retry b id operator now w).1
answered b (call c) w = after b c w

unfoldable pub answered_all : (b : Backend) → List Request → World b → World b
answered_all b [] w = w
answered_all b (q ∷ qs) w = answered_all b qs (answered b q w)

answered-OneBusy :
    (b : Backend) (saves : SavesStatus b) (keeps : KeepsService b) (q : Request) (w : World b)
    → OneBusy b w.releases
    → OneBusy b (answered b q w).releases
unfolding answered Safe KeepsOneBusy
answered-OneBusy b saves keeps (start id operator now) w =
    (start-Safe b saves keeps id operator now).keeps_rows w
answered-OneBusy b saves keeps (retry id operator now) w =
    (retry-Safe b saves keeps id operator now).keeps_rows w
answered-OneBusy b saves keeps (call c) w =
    calm-OneBusy b w.releases (after b c w).releases
      (TableOrderly-calm b keeps w.releases (after b c w).releases (after-TableOrderly b saves c w))

-- Where gorm's update takes over the status and leaves the service of a release as it is, and no two
-- releases of a service are being dispatched or deployed, none are after any sequence of requests, one
-- after the other: of Start and Retry as well as CreateFromCI, Skip, Rollback, SetTrafficPercent,
-- ConfirmSwitch, HandleTaskUpdate, RecoverAgentTasks, FailStaleTasks and RecordAgentOfflineTimeout,
-- whichever of them fail and wherever.
pub one_deployment_of_a_service :
    (b : Backend) (saves : SavesStatus b) (keeps : KeepsService b) (requests : List Request)
    (w : World b)
    → OneBusy b w.releases
    → OneBusy b (answered_all b requests w).releases
unfolding answered_all
one_deployment_of_a_service b saves keeps [] w h = h
one_deployment_of_a_service b saves keeps (q ∷ qs) w h =
    one_deployment_of_a_service b saves keeps qs (answered b q w)
      (answered-OneBusy b saves keeps q w h)
