-- ===== src/Agent/Waits.antt =====
-- The wait for a container's health ends, and reports only that the task is on its way: `waitForHealth` of
-- internal/agent/application/taskexec/executor.go.
use edge_pilot.Base.{
  ℕ, zero, suc, ◌+◌, ◌-◌, ◌≤◌, ◌<◌, ◌≡◌, refl, false, ltb, leb, ◌||◌, ◌&&◌, not, Option, none, some,
  ◌∷◌, Bool-cases, inl, inr, arith,
}
use edge_pilot.Base.Int.{ℤ, pos}
use edge_pilot.Base.Text.{Text, is_empty, trim_space}
use edge_pilot.Store.Base.{Answer, done, fault}
use edge_pilot.Release.Reported.{TaskUpdate, running}
use edge_pilot.Agent.Containers.{TaskCommand, ContainerRuntime, ContainerStatus, is_terminal}
use edge_pilot.Agent.Host.{Backend, E, Event, verified, attempt, note, context_ended, call}
use edge_pilot.Agent.Health.{
  Probing, Round, healthy, again, min_duration, http_probe_required, grace_status, grace_rounds,
  resolved, judged, checked, inspected, unless_ended, next_round, health_rounds, wait_out_grace,
  wait_for_health,
}
use edge_pilot.Agent.Checks.{
  default_positive, seconds, running_update, docker_unhealthy, probe, verify_after, verify_health,
}
use edge_pilot.Agent.Runs.{
  Frame, Runs, >>=-Runs, >>-Runs, return-Runs, fail-Runs, if-Runs, attempt-Runs, call-Runs,
  note-Runs,
}
use edge_pilot.Agent.Clock.{
  HostLaws, Progress, Saw-one, task_frame, forward-Allowed, clock-Runs, sleep-Runs,
}

min_duration_pos : (interval rest : ℕ) → zero < interval → zero < min_duration interval rest
unfolding min_duration
min_duration_pos interval rest h = ground arith

interval_pos : (value : ℤ) → zero < seconds (default_positive (pos 1) value)
unfolding default_positive
interval_pos value = ground arith

module _ (b : Backend) (laws : HostLaws b) (id : Text) where
  abbrev frame : Frame b
  frame = task_frame b id

  abbrev pub Steady : {A : Type 0} → ℕ → E b A → Type 0
  Steady t m = Runs (task_frame b id) t m

  pub asked-Steady :
      {A : Type 0} (t : ℕ) (c : b.Host → Answer A × b.Host)
      → ((h : b.Host) → b.clock h ≤ b.clock (c h).1)
      → Steady t (attempt b c)
  asked-Steady t c law = attempt-Runs frame t c (forward-Allowed b id c law)

  pub called-Steady :
      {A : Type 0} (t : ℕ) (c : b.Host → Answer A × b.Host)
      → ((h : b.Host) → b.clock h ≤ b.clock (c h).1)
      → Steady t (call b c)
  called-Steady t c law = call-Runs frame t c (forward-Allowed b id c law)

  pub noted-Steady : (t : ℕ) (e : Event) → Progress id e → Steady t (note b e)
  unfolding task_frame
  noted-Steady t e h =
      note-Runs frame t e
        λ w. (omega arith, Saw-one b (Progress id) w (record w { log = e ∷ w.log }) e h refl)

  probe-Steady : (t : ℕ) (task : TaskCommand) (address : Text) → Steady t (probe b task address)
  unfolding probe
  probe-Steady t task address =
      if-Runs frame (is_empty (trim_space task.http_health_path)) (return-Runs frame t none) (
        >>=-Runs frame (asked-Steady t _ (laws.probe_forward address _ _ _ _))
          λ a. return-Runs frame t _)

  verify_after-Steady :
      (t : ℕ) (task : TaskCommand) (address : Text) (e : Option Text)
      → Steady t (verify_after b task address e)
  unfolding verify_after
  verify_after-Steady t task address (some e) =
      >>-Runs frame (noted-Steady t (verified false) tt) (return-Runs frame t _)
  verify_after-Steady t task address none =
      >>=-Runs frame (probe-Steady t task address)
        λ e. >>-Runs frame (noted-Steady t _ tt) (return-Runs frame t e)

  pub verify-Steady :
      (t : ℕ) (task : TaskCommand) (status : Option ContainerStatus) (address : Text)
      → Steady t (verify_health b task status address)
  unfolding verify_health
  verify-Steady t task status address =
      verify_after-Steady t task address (docker_unhealthy task status)

  grace_status-Steady : (t : ℕ) (status : Option ContainerStatus) → Steady t (grace_status b status)
  unfolding grace_status
  grace_status-Steady t status =
      if-Runs frame (is_terminal status) (fail-Runs frame (Unit {0}) t _) (return-Runs frame t tt)

  grace_rounds-Steady :
      (fuel interval deadline t : ℕ) (container : Text)
      → zero < fuel
      → zero < interval
      → deadline + 1 ≤ fuel + t
      → Steady t (grace_rounds b fuel interval deadline container)
  unfolding grace_rounds
  grace_rounds-Steady zero interval deadline t container h i k = ground arith
  grace_rounds-Steady (suc fuel) interval deadline t container h i k = clock-Runs b id λ now later.
      elim (Bool-cases (ltb now deadline)) [
        | inr over ↦ rw over (return-Runs frame now tt)
        | inl within ↦
            let early : now < deadline = ground arith in
            rw within (
              >>=-Runs frame (called-Steady now _ (laws.inspect_forward container)) λ status.
                >>-Runs frame (grace_status-Steady now status) (
                  clock-Runs b id λ now' later'.
                    let d : zero < min_duration interval (deadline - now') =
                      min_duration_pos interval (deadline - now') i in
                    sleep-Runs b id laws now' (min_duration interval (deadline - now')) (
                      grace_rounds-Steady fuel interval deadline _ container (omega arith) i
                        (omega arith))))
      ]

  module _ (task : TaskCommand) (report : TaskUpdate → E b (Unit {0}))
      (reports : (t : ℕ) (u : TaskUpdate)
        → u.status ≡ running
        → u.task_id ≡ task.task_id
        → Steady t (report u)) where
    reported-Steady :
        (t : ℕ) (step container message : Text)
        → Steady t (report (running_update task step container message))
    unfolding running_update
    reported-Steady t step container message = reports t _ refl refl

    resolved-Steady : (t : ℕ) (p : Probing) → Steady t (resolved b task report p)
    unfolding resolved
    resolved-Steady t p =
        if-Runs frame (http_probe_required task && is_empty (trim_space p.runtime.listen_address))
          (>>=-Runs frame
            (asked-Steady t _ (laws.address_forward p.runtime.container_id task.container_port))
            λ a. return-Runs frame t _)
          (return-Runs frame t p)

    judged-Steady :
        (t threshold : ℕ) (p : Probing) (e : Option Text)
        → Steady t (judged b task report threshold p e)
    unfolding judged
    judged-Steady t threshold p none =
        if-Runs frame (leb threshold (p.consecutive_success + 1)) (return-Runs frame t _)
          (return-Runs frame t _)
    judged-Steady t threshold p (some e) =
        if-Runs frame p.retry_reported (return-Runs frame t _)
          (>>-Runs frame (reported-Steady t _ _ _) (return-Runs frame t _))

    checked-Steady :
        (t threshold : ℕ) (status : Option ContainerStatus) (p : Probing)
        → Steady t (checked b task report threshold status p)
    unfolding checked
    checked-Steady t threshold status p =
        if-Runs frame
          (not (http_probe_required task) || not (is_empty (trim_space p.runtime.listen_address)))
          (>>=-Runs frame (verify-Steady t task status p.runtime.listen_address)
            (judged-Steady t threshold p))
          (return-Runs frame t _)

    inspected-Steady :
        (t threshold : ℕ) (p : Probing) (a : Answer (Option ContainerStatus))
        → Steady t (inspected b task report threshold p a)
    unfolding inspected
    inspected-Steady t threshold p (fault e) = return-Runs frame t _
    inspected-Steady t threshold p (done status) =
        if-Runs frame (is_terminal status) (fail-Runs frame Round t _)
          (>>=-Runs frame (resolved-Steady t p) (checked-Steady t threshold status))

    unless_ended-Steady : (t : ℕ) (e : Option Text) → Steady t (unless_ended b task report e)
    unfolding unless_ended
    unless_ended-Steady t none = return-Runs frame t tt
    unless_ended-Steady t (some e) = fail-Runs frame (Unit {0}) t _

    ended-Steady : (t : ℕ) → Steady t (context_ended b)
    unfolding context_ended task_frame
    ended-Steady t = record { runs = λ w p. ((task_frame b id).stay w, tt) }

    next_round-Steady :
        (fuel interval deadline t : ℕ) (rest : Probing → E b ContainerRuntime) (round : Round)
        → zero < interval
        → deadline + 2 ≤ suc fuel + t
        → ((s : ℕ) (p : Probing) → zero < fuel → deadline + 2 ≤ fuel + s → Steady s (rest p))
        → Steady t (next_round b task report rest interval deadline round)
    unfolding next_round
    next_round-Steady fuel interval deadline t rest (healthy r) i k loop = return-Runs frame t r
    next_round-Steady fuel interval deadline t rest (again p) i k loop =
        clock-Runs b id λ now later. elim (Bool-cases (ltb deadline now)) [
          | inl over ↦ rw over (fail-Runs frame ContainerRuntime now _)
          | inr within ↦
              let early : now ≤ deadline = ground arith in
              rw within (
                sleep-Runs b id laws now interval
                  (loop (now + interval) p (omega arith) (omega arith)))
        ]

    health_rounds-Steady :
        (fuel interval deadline threshold t : ℕ) (p : Probing)
        → zero < fuel
        → zero < interval
        → deadline + 2 ≤ fuel + t
        → Steady t (health_rounds b task report fuel interval deadline threshold p)
    unfolding health_rounds
    health_rounds-Steady zero interval deadline threshold t p h i k = ground arith
    health_rounds-Steady (suc fuel) interval deadline threshold t p h i k =
        >>=-Runs frame (ended-Steady t) λ ended. >>-Runs frame (unless_ended-Steady t ended) (
          >>=-Runs frame (asked-Steady t _ (laws.inspect_forward p.runtime.container_id)) λ a.
            >>=-Runs frame (inspected-Steady t threshold p a) λ round.
              next_round-Steady fuel interval deadline t
                (health_rounds b task report fuel interval deadline threshold) round i k
                (λ s q h' k'. health_rounds-Steady fuel interval deadline threshold s q h' i k'))

    wait_out_grace-Steady :
        (t : ℕ) (runtime : ContainerRuntime) → Steady t (wait_out_grace b task report runtime)
    unfolding wait_out_grace
    wait_out_grace-Steady t runtime = if-Runs frame _ (return-Runs frame t tt) (
        >>-Runs frame (reported-Steady t _ _ _) (
          clock-Runs b id λ now later.
            grace_rounds-Steady _ _ _ now runtime.container_id (omega arith)
              (interval_pos task.http_probe_interval_second) (omega arith)))

    -- The wait ends, whatever the host answers.
    pub wait-Steady :
        (t : ℕ) (runtime : ContainerRuntime) → Steady t (wait_for_health b task report runtime)
    unfolding wait_for_health
    wait-Steady t runtime = clock-Runs b id λ now later.
        >>-Runs frame (wait_out_grace-Steady now runtime) (
          health_rounds-Steady _ _ _ _ now _ (omega arith)
            (interval_pos task.http_probe_interval_second) (omega arith))
