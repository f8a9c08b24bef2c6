-- ===== src/Agent/Host.antt =====
-- What the executor of tasks works with: the calls of internal/agent/domain/runtime_contract.go to Docker
-- and the proxy, the clock, and the errors of internal/agent/application/taskexec/executor.go. Each call
-- answers with a value or the text of an error, and with the host as it is afterwards.
use edge_pilot.Base.{ℕ, Bool, true, false, Option, List, ◌∷◌, ◌==◌, if◌then◌else◌}
use edge_pilot.Base.Int.{ℤ}
use edge_pilot.Base.Text.{Text}
use edge_pilot.Store.Base.{Answer, done, fault}
use edge_pilot.Release.Reported.{TaskUpdate}
use edge_pilot.Agent.Containers.{
  TaskCommand, ContainerRuntime, ContainerStatus, ManagedContainer, ManagedContainerIdentity,
}

pub record Backend : Type 1 where
  pub Host : Type 0
  pub agent_id : Text
  pub sha1_hex : Text → Text
  -- `time.Now`, in nanoseconds, and `ctx.Err`.
  pub clock : Host → ℕ
  pub context_error : Host → Option Text
  -- A timer or the end of the context, whichever is first.
  pub wait : ℕ → Host → Answer (Unit {0}) × Host
  pub http_probe : Text → Text → List (Text × Text) → ℤ → ℤ → Host → Answer (Unit {0}) × Host
  pub ensure_ready : Host → Answer (Unit {0}) × Host
  pub ensure_image : Text → TaskCommand → Host → Answer (Unit {0}) × Host
  pub deploy_container : TaskCommand → Host → Answer ContainerRuntime × Host
  pub inspect_container : Text → Host → Answer (Option ContainerStatus) × Host
  pub find_managed_container_by_identity :
      ManagedContainerIdentity → Host → Answer (Option ManagedContainer) × Host
  pub resolve_listen_address : Text → ℤ → Host → Answer Text × Host
  pub read_container_logs : Text → ℕ → ℕ → Host → Answer Text × Host
  pub remove_container : Text → Host → Answer (Unit {0}) × Host
  pub remove_image : Text → Host → Answer (Unit {0}) × Host
  -- Whether the channel `outbound` to the control plane takes a message. If it is closed, the send panics and ends the
  -- program; if it is full and nobody reads it any more, the send blocks.
  pub outbound : TaskUpdate → Host → Bool × Host
  -- The containers of an agent and a service; a pointer may be nil.
  pub list_managed_containers : Text → Text → Host → Answer (List (Option ManagedContainer)) × Host

pub record TaskFailureDiagnostic : Type 0 where
  pub container_id : Text
  pub docker_health : Text
  pub failure_logs : Text
  pub cleanup_completed : Bool

-- An error, or a `TaskExecutionError`.
pub data ExecError : Type 0 where
  plain : Text → ExecError
  at_step : Text → Text → Option TaskFailureDiagnostic → ExecError

abbrev pub error_text : ExecError → Text
error_text (plain text) = text
error_text (at_step step text diagnostic) = text

-- `unfinished` is a step that does not go on.
pub data Outcome (A : Type 0) : Type 0 where
  returned : A → Outcome A
  failed : ExecError → Outcome A
  unfinished : Outcome A

-- What the executor does that can be seen: updates that are sent, checks of health with their result, and
-- removals with whether they succeeded.
pub data Event : Type 0 where
  sent : TaskUpdate → Event
  verified : Bool → Event
  removed : Text → Bool → Event
  removed_image : Text → Bool → Event

-- The stats of an index, `SnapshotStats`.
pub record SnapshotStats : Type 0 where
  pub total_managed : ℕ
  pub identity_conflicts : ℕ
  pub last_refresh_at : ℕ
  pub last_duration : ℕ
  pub last_error : Text

pub record ManagedContainerIndex : Type 0 where
  pub containers : List ManagedContainer
  pub identity_index : List (Text × List ManagedContainer)
  pub stats : SnapshotStats

module _ (b : Backend) where
  -- The host, the index, the tasks that run, and what has been done, the latest first.
  pub record World : Type 0 where
    pub host : b.Host
    pub index : Option ManagedContainerIndex
    pub running : List Text
    pub log : List Event

module _ (b : Backend) where
  abbrev pub E : Type 0 → Type 0
  E A = World b → Outcome A × World b

module _ {b : Backend} where
  abbrev pub then_run : {A B : Type 0} → Outcome A × World b → (A → E b B) → Outcome B × World b
  then_run (returned x, w) f = f x w
  then_run (failed e, w) f = (failed e, w)
  then_run (unfinished, w) f = (unfinished, w)

  abbrev pub rescue : {A : Type 0} → Outcome A × World b → (ExecError → E b A) → Outcome A × World b
  rescue (returned x, w) h = (returned x, w)
  rescue (failed e, w) h = h e w
  rescue (unfinished, w) h = (unfinished, w)

  infixl 5 ◌>>=◌ ◌>>◌
  unfoldable pub ◌>>=◌ : {A B : Type 0} → E b A → (A → E b B) → E b B
  ◌>>=◌ m f w = then_run (m w) f

  unfoldable pub ◌>>◌ : {B : Type 0} → E b (Unit {0}) → E b B → E b B
  ◌>>◌ m k w = then_run (m w) (λ _. k)

  unfoldable pub return : {A : Type 0} → A → E b A
  return x w = (returned x, w)

  unfoldable pub fail : {A : Type 0} → ExecError → E b A
  fail e w = (failed e, w)

  -- A step that does not go on: a loop without fuel, or a message that the channel does not take.
  unfoldable pub stopped : {A : Type 0} → E b A
  stopped w = (unfinished, w)

  -- What is done where a step fails.
  unfoldable pub on_failure : {A : Type 0} → E b A → (ExecError → E b A) → E b A
  on_failure m h w = rescue (m w) h

module _ (b : Backend) where
  -- A call with its answer.
  unfoldable pub attempt : {A : Type 0} → (b.Host → Answer A × b.Host) → E b (Answer A)
  attempt f w = (returned (f w.host).0, record w { host = (f w.host).1 })

  unfoldable pub note : Event → E b (Unit {0})
  note e w = (returned tt, record w { log = e ∷ w.log })

  unfoldable pub read_clock : E b ℕ
  read_clock w = (returned (b.clock w.host), w)

  unfoldable pub context_ended : E b (Option Text)
  context_ended w = (returned (b.context_error w.host), w)

  unfoldable pub or_fail : {A : Type 0} → (Text → ExecError) → Answer A → E b A
  or_fail e (done x) = return x
  or_fail e (fault text) = fail (e text)

  -- A call whose error ends the task.
  unfoldable pub call : {A : Type 0} → (b.Host → Answer A × b.Host) → E b A
  unfolding or_fail
  call f = attempt f >>= or_fail plain

  abbrev pub is_done : {A : Type 0} → Answer A → Bool
  is_done (done x) = true
  is_done (fault text) = false

  unfoldable pub remove_container : Text → E b (Answer (Unit {0}))
  unfolding attempt note
  remove_container id =
      attempt (b.remove_container id) >>= λ a. note (removed id (is_done a)) >> return a

  unfoldable pub remove_image : Text → E b (Answer (Unit {0}))
  unfolding attempt note
  remove_image image =
      attempt (b.remove_image image) >>= λ a. note (removed_image image (is_done a)) >> return a

  -- `sleepWithContext`.
  unfoldable pub sleep : ℕ → E b (Unit {0})
  unfolding call
  sleep d = if d == 0 then return tt else call (b.wait d)
