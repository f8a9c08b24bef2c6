-- ===== src/Lib.antt =====
-- Edge Pilot: the control plane that releases services to edge agents and schedules jobs on executors.
--
-- The parts that are modelled, with their files here:
--
--   - Model: the entities of internal/shared/model/entities.go. `Slot`, `Release`, `Service` and `Scheduler`
--     hold its structs as records and its enumerations as data types, `Event` the kinds of an audit.
--   - Store: what the services use of gorm, of the database and of Go's errors, which are not part of the
--     repository. A table is a parameter: its statements, and the laws that the program relies on. `Base` is a
--     table whose updates name the columns and a condition, as those of the scheduler do; `Entities` one whose
--     updates take a struct, as those of the releases and the services do, where `merge old new` is the row
--     that such an update leaves. `Memory` and `EntityMemory` are tables that meet the laws. `Effect` and
--     `Program` are the services' operations: functions from a state to a value or an error and a state. An
--     error keeps what the statements before it have written.
--   - Cron: internal/scheduler/application/cron.go. `Field.parse_cron_field` is parseCronField with
--     addCronSegment, `Schedule.parse_cron_schedule` is parseCronSchedule with normalizeDow, and
--     `Next.next_cron_time` is nextCronTimeUTC. `Calendar` is what it uses of Go's UTC calendar.
--   - Scheduler: `Statements` has the conditional updates of internal/scheduler/infra/repository.go, each by
--     its condition and its columns; `Lease`, `Runs`, `Enqueue`, `Pick` and `Dispatch` are the functions of
--     internal/scheduler/application/service.go of the same names in antt's spelling: MarkRunRunning,
--     RenewRunLease, CompleteRun, enqueueDueJobs, pickExecutorID, pickExecutorAndClaim and dispatchDueRuns.
--     `Lifecycle` is the specification: the relation of the changes that a run may undergo, with its
--     invariant, and `Requests` the operations on runs one after the other.
--   - Release: `World` has internal/release/infra/repository.go and the interfaces that the service calls,
--     `Queries` those queries of it on which the service decides; of internal/release/application/service.go,
--     `Traffic` is Skip, Rollback, SetTrafficPercent and ConfirmSwitch, `Reported` and `Tasks` are
--     HandleTaskUpdate, `Deploy` is newDeployTask and the time that a task has, `Start` is CreateFromCI, Start
--     and Retry, and `Recovery` is RecoverAgentTasks, FailStaleTasks and RecordAgentOfflineTimeout. The other
--     files of Release are proofs: `Kept` has rules for sequences of steps, over what may happen to the table
--     of releases; `Rowwise`, `Orderly`, `Busy` and `OneBusy` say what may happen to it.
--   - Catalog: `Routes` and `Ports` are the normalisations and checks of
--     internal/servicecatalog/application/service.go and proxy_config.go, `Build` is buildServiceEntity and
--     toDeploymentSpec, `Services` is Create, Update, Delete, Get, GetSpecByID and GetSpecByKey with what they
--     check, `World` has internal/servicecatalog/infra/repository.go and what the catalogue asks of other
--     parts, and `Names` the names in the proxy's configuration. The other files of Catalog are proofs:
--     `Learns` and `Safe` have rules for steps that read and steps that write, `Apart` says when two services
--     clash.
--   - Observability: `Ring` is internal/observability/application/snapshot_ring.go, over any type of
--     snapshots; its lock makes each operation one step. `Held`, `Listed`, `Recent` and `Latest` are proofs.
--   - Agent: the executor of tasks on an agent. `Containers` is internal/agent/domain/managed_container.go and
--     runtime_contract.go with the command of a task, `Index` is
--     internal/agent/application/containerindex/index.go; of internal/agent/application/taskexec/executor.go,
--     `Checks` is normalizeHealthConfig and verifyHealth, `Health` waitForHealth, `Cleanup` the clean-ups of
--     containers and the scan at the start, `Existing` ensureDeployContainer, `Diagnosis` wrapTaskFailure, and
--     `Executor` is Execute with the deployment and the switch of traffic; `Client` is handleTask of
--     adapter/grpc/agent/client.go with TryStart and Done of taskexec/runtime_state.go. `Host` has the state:
--     the host of the agent, which is a parameter, the index, the running tasks, and a log that the source
--     does not keep, of the messages sent, the checks of health made and the removals asked for. The other
--     files of Agent are proofs: `Runs` and `Leaves` have rules for steps that end and for what steps leave
--     behind, `Clock` says what is relied on of the clock and of the channel to the control plane, and `Waits`
--     and `Calm` that the steps end.
--   - Examples: an agent, concrete services, snapshots, runs, jobs, executors, schedules and releases to which
--     the theorems apply.
--
-- The scheduler reads cron expressions for its next times; the release service asks the catalogue of services
-- for specifications and sets its live slots. To the release service the catalogue, and to all, the publisher
-- of proxy configurations, the connected executors and the delivery of runs, and to the agent Docker, the
-- proxy, the probes of HTTP and the clock, are parameters of the records `Agent.Host.Backend`,
-- `Release.World.Backend`, `Catalog.World.Backend`, `Scheduler.Dispatch.Engine` and
-- `Scheduler.Enqueue.Planner`.
--
-- Numbers and time: a time is a natural number of nanoseconds since 1970, and the time that the source reads
-- from the clock is an argument `now`. Go's 64-bit overflow is written out in the loop over a cron segment,
-- `Cron.Field.advance`. A UUID is a natural number, and uuid.Nil is 0. A percentage is not negative, and the
-- limit of cores, a float in the source, is an integer. The duration of a number of seconds,
-- `Base.Duration.seconds`, and sums of durations wrap around at 64 bits, as in Go; the agent's seconds have 32
-- bits, which do not. Texts are lists of bytes; white space is that of Unicode in UTF-8, letters are those of
-- ASCII. A map is the list of its entries in the order in which it is read, and an error has its text without
-- the port or the service that the source names in it.
--
-- Fuel: the loop over a cron segment has 130 rounds, which suffice for bounds up to 59 and steps below 2 ^ 62,
-- as the theorem on fields shows; the search for the next minute has 527042 rounds, one for each minute of 366
-- days and one to leave, and never runs out, as the theorem on the search shows; the two loops of
-- waitForHealth have two rounds more than their time has nanoseconds, which suffices since each round waits,
-- as the theorem on the end of tasks shows. `stuck`, and `unfinished` in the agent, is the result without
-- fuel.
--
-- Not modelled: what the release service only reads for its lists; the scheduler's operations on jobs and
-- executors and its lock; the list of services and the proxy's configuration of them; of the agent, the
-- registry of agents, the requests for its containers and the configuration of its proxy; the sessions of
-- administrators; the sampling of snapshots; registry credentials; the SDK; and what is input and output or
-- generated: HTTP and gRPC adapters but handleTask, the clients of Docker and HAProxy, protocol code,
-- configuration and start-up. An agent's tasks run one after the other here, and a message that the channel
-- does not take stops its task for good, which is `unfinished`: the source panics on a closed channel, and
-- blocks on a full one. Between two statements of an operation nobody else writes to the tables, except that
-- every conditional update decides on the row as it is when it runs.
mod Base
pub mod Cron
pub mod Catalog
pub mod Store
pub mod Model
pub mod Scheduler
pub mod Release
mod Examples
pub mod Observability
pub mod Agent
