-- ===== src/Agent/Healthy.antt =====
-- A container is reported as healthy after checks that have succeeded: `waitForHealth` of
-- internal/agent/application/taskexec/executor.go.
use edge_pilot.Base.{
  ℕ, zero, suc, ◌+◌, ◌≤◌, ◌<◌, ◌≡◌, refl, sym, subst, true, ◌==◌, ltb, leb, ◌&&◌, ◌||◌, not, Option,
  none, some, List, [], ◌∷◌, arith,
}
use edge_pilot.Base.Text.{Text, is_empty, trim_space}
use edge_pilot.Store.Base.{Answer, done, fault}
use edge_pilot.Release.Reported.{TaskUpdate}
use edge_pilot.Agent.Containers.{TaskCommand, ContainerRuntime, ContainerStatus, is_terminal}
use edge_pilot.Agent.Host.{
  Backend, World, E, returned, ExecError, Event, verified, stopped, attempt, note, read_clock,
  context_ended, call, or_fail, plain, sleep,
}
use edge_pilot.Agent.Health.{
  Probing, Round, healthy, again, http_probe_required, with_address, resolved, judged, checked,
  inspected, unless_ended, next_round, health_rounds, success_threshold, wait_out_grace,
  wait_for_health,
}
use edge_pilot.Agent.Checks.{
  default_positive, docker_unhealthy, is_none, probe, verify_after, verify_health,
}
use edge_pilot.Agent.Leaves.{
  Leaves, >>=-Leaves, >>-Leaves, return-Leaves, fail-Leaves, any-Leaves, if-Leaves,
}

-- The last `n` events are checks that have succeeded.
abbrev pub Recent : ℕ → List Event → Type 0
Recent zero log = Unit
Recent (suc n) [] = ⊥
Recent (suc n) (e ∷ log) = (e ≡ verified true) × Recent n log

module _ (b : Backend) where
  abbrev pub Fresh : ℕ → World b → Type 0
  Fresh n w = Recent n w.log

  attempt-Leaves :
      {A : Type 0} (n : ℕ) (c : b.Host → Answer A × b.Host)
      → Leaves (Fresh n) (λ _. Fresh n) (attempt b c)
  unfolding attempt
  attempt-Leaves n c = record { leaves = λ w x p e. p }

  context-Leaves : (n : ℕ) → Leaves (Fresh n) (λ _. Fresh n) (context_ended b)
  unfolding context_ended
  context-Leaves n = record { leaves = λ w x p e. p }

  clock-Leaves : (n : ℕ) → Leaves (Fresh n) (λ _. Fresh n) (read_clock b)
  unfolding read_clock
  clock-Leaves n = record { leaves = λ w x p e. p }

  or_fail-Leaves :
      {A : Type 0} (n : ℕ) (f : Text → ExecError) (a : Answer A)
      → Leaves (Fresh n) (λ _. Fresh n) (or_fail b f a)
  unfolding or_fail
  or_fail-Leaves n f (done x) = return-Leaves (Fresh n) (λ _. Fresh n) x (λ w p. p)
  or_fail-Leaves {A} n f (fault e) = fail-Leaves (Fresh n) (λ (_ : A). Fresh n) (f e)

  sleep-Leaves : (n d : ℕ) → Leaves (Fresh n) (λ _. Fresh n) (sleep b d)
  unfolding sleep call
  sleep-Leaves n d =
      if-Leaves (d == 0) (λ _. return-Leaves (Fresh n) (λ _. Fresh n) tt (λ w p. p))
        (λ _. >>=-Leaves (attempt-Leaves n (b.wait d)) (or_fail-Leaves n plain))

  -- A check that succeeds adds to those before.
  unfoldable pub Checked : ℕ → Option Text → World b → Type 0
  Checked n none w = Recent (suc n) w.log
  Checked n (some e) w = Unit

  note-Leaves :
      (n : ℕ) (e : Option Text)
      → Leaves (Fresh n) (λ _. Checked n e) (note b (verified (is_none e)))
  unfolding note Checked
  note-Leaves n none = record { leaves = λ w x p e. (refl, p) }
  note-Leaves n (some t) = record { leaves = λ w x p e. tt }

  probe-Leaves :
      (n : ℕ) (task : TaskCommand) (address : Text)
      → Leaves (Fresh n) (λ _. Fresh n) (probe b task address)
  unfolding probe
  probe-Leaves n task address =
      if-Leaves (is_empty (trim_space task.http_health_path))
        (λ _. return-Leaves (Fresh n) (λ _. Fresh n) none (λ w p. p))
        (λ _.
          >>=-Leaves (attempt-Leaves n _) λ a. return-Leaves (Fresh n) (λ _. Fresh n) _ (λ w p. p))

  verify_after-Leaves :
      (n : ℕ) (task : TaskCommand) (address : Text) (e : Option Text)
      → Leaves (Fresh n) (Checked n) (verify_after b task address e)
  unfolding verify_after Checked
  verify_after-Leaves n task address (some e) =
      >>-Leaves (note-Leaves n (some e)) (return-Leaves _ (Checked n) (some e) (λ w p. p))
  verify_after-Leaves n task address none =
      >>=-Leaves (probe-Leaves n task address)
        λ e. >>-Leaves (note-Leaves n e) (return-Leaves _ (Checked n) e (λ w p. p))

  pub verify-Leaves :
      (n : ℕ) (task : TaskCommand) (status : Option ContainerStatus) (address : Text)
      → Leaves (Fresh n) (Checked n) (verify_health b task status address)
  unfolding verify_health
  verify-Leaves n task status address =
      verify_after-Leaves n task address (docker_unhealthy task status)

  pub Recent-le : (m n : ℕ) (log : List Event) → m ≤ n → Recent n log → Recent m log
  Recent-le zero n log h r = tt
  Recent-le (suc m) zero log h r = ground arith
  Recent-le (suc m) (suc n) [] h r = r
  Recent-le (suc m) (suc n) (e ∷ log) h r = (r.0, Recent-le m n log (omega arith) r.1)

  -- What a round of the loop comes to: enough checks in a row, or as many as it counts.
  Judged : ℕ → Round → World b → Type 0
  Judged threshold (healthy r) w = Recent threshold w.log
  Judged threshold (again p) w = Recent p.consecutive_success w.log

  module _ (task : TaskCommand) (report : TaskUpdate → E b (Unit {0})) where
    judged-Leaves :
        (threshold : ℕ) (p : Probing) (e : Option Text)
        → Leaves
            (Checked p.consecutive_success e)
            (Judged threshold)
            (judged b task report threshold p e)
    unfolding judged Checked Judged
    judged-Leaves threshold p none =
        if-Leaves (leb threshold (p.consecutive_success + 1))
          (λ reached.
            return-Leaves _ (Judged threshold) _
              λ w r. Recent-le threshold (suc p.consecutive_success) w.log (ground arith) r)
          (λ short. return-Leaves _ (Judged threshold) _ λ w r.
            Recent-le (p.consecutive_success + 1) (suc p.consecutive_success) w.log (omega arith) r)
    judged-Leaves threshold p (some e) =
        if-Leaves p.retry_reported (λ _. return-Leaves _ (Judged threshold) _ (λ w r. tt))
          (λ _. >>-Leaves (any-Leaves _ _) (return-Leaves _ (Judged threshold) _ (λ w r. tt)))

    checked-Leaves :
        (threshold : ℕ) (status : Option ContainerStatus) (p : Probing)
        → Leaves
            (Fresh p.consecutive_success)
            (Judged threshold)
            (checked b task report threshold status p)
    unfolding checked Judged
    checked-Leaves threshold status p =
        if-Leaves
          (not (http_probe_required task) || not (is_empty (trim_space p.runtime.listen_address)))
          (λ _.
            >>=-Leaves (verify-Leaves p.consecutive_success task status p.runtime.listen_address)
              (judged-Leaves threshold p))
          (λ _. return-Leaves _ (Judged threshold) _ (λ w r. r))

    Counts : ℕ → Probing → World b → Type 0
    Counts n q w = (q.consecutive_success ≡ n) × Recent n w.log

    with_address-count :
        (a : Answer Text) (p : Probing)
        → (with_address a p).consecutive_success ≡ p.consecutive_success
    unfolding with_address
    with_address-count (done x) p = refl
    with_address-count (fault e) p = refl

    resolved-Leaves :
        (p : Probing)
        → Leaves
            (Fresh p.consecutive_success)
            (Counts p.consecutive_success)
            (resolved b task report p)
    unfolding resolved Counts
    resolved-Leaves p =
        if-Leaves (http_probe_required task && is_empty (trim_space p.runtime.listen_address))
          (λ _. >>=-Leaves (attempt-Leaves p.consecutive_success _) λ a.
            return-Leaves _ (Counts p.consecutive_success) _ (λ w r. (with_address-count a p, r)))
          (λ _. return-Leaves _ (Counts p.consecutive_success) _ (λ w r. (refl, r)))

    inspected-Leaves :
        (threshold : ℕ) (p : Probing) (a : Answer (Option ContainerStatus))
        → Leaves
            (Fresh p.consecutive_success)
            (Judged threshold)
            (inspected b task report threshold p a)
    unfolding inspected Judged Counts
    inspected-Leaves threshold p (fault e) = return-Leaves _ (Judged threshold) _ (λ w r. r)
    inspected-Leaves threshold p (done status) =
        if-Leaves (is_terminal status) (λ _. fail-Leaves _ (Judged threshold) _)
          (λ _. >>=-Leaves (resolved-Leaves p) λ q. record {
            leaves = λ w x r e.
                (checked-Leaves threshold status q).leaves w x
                  (subst (λ n. Recent n w.log) (sym r.0) r.1) e;
          })

    unless-Leaves :
        (n : ℕ) (e : Option Text) → Leaves (Fresh n) (λ _. Fresh n) (unless_ended b task report e)
    unfolding unless_ended
    unless-Leaves n none = return-Leaves (Fresh n) (λ _. Fresh n) tt (λ w p. p)
    unless-Leaves n (some e) = fail-Leaves (Fresh n) (λ (_ : Unit {0}). Fresh n) _

    next-Leaves :
        (threshold interval deadline : ℕ) (rest : Probing → E b ContainerRuntime) (round : Round)
        → ((p : Probing) → Leaves (Fresh p.consecutive_success) (λ _. Fresh threshold) (rest p))
        → Leaves
            (Judged threshold round)
            (λ _. Fresh threshold)
            (next_round b task report rest interval deadline round)
    unfolding next_round Judged
    next-Leaves threshold interval deadline rest (healthy r) loop =
        return-Leaves _ (λ _. Fresh threshold) r (λ w p. p)
    next-Leaves threshold interval deadline rest (again p) loop =
        >>=-Leaves (clock-Leaves p.consecutive_success) λ now.
          if-Leaves (ltb deadline now)
            (λ _. fail-Leaves _ (λ (_ : ContainerRuntime). Fresh threshold) _)
            (λ _. >>-Leaves (sleep-Leaves p.consecutive_success interval) (loop p))

    rounds-Leaves :
        (fuel interval deadline threshold : ℕ) (p : Probing)
        → Leaves
            (Fresh p.consecutive_success)
            (λ _. Fresh threshold)
            (health_rounds b task report fuel interval deadline threshold p)
    unfolding health_rounds stopped
    rounds-Leaves zero interval deadline threshold p = record { leaves = λ w x r e. ground arith }
    rounds-Leaves (suc fuel) interval deadline threshold p =
        let n = p.consecutive_success in
        >>=-Leaves (context-Leaves n) λ ended. >>-Leaves (unless-Leaves n ended) (
          >>=-Leaves (attempt-Leaves n _) λ a. >>=-Leaves (inspected-Leaves threshold p a) λ round.
            next-Leaves threshold interval deadline
              (health_rounds b task report fuel interval deadline threshold) round
              (rounds-Leaves fuel interval deadline threshold))

    pub wait-Leaves :
        (runtime : ContainerRuntime) (P : World b → Type 0)
        → Leaves P
            (λ _. Fresh (success_threshold b task report))
            (wait_for_health b task report runtime)
    unfolding wait_for_health
    wait-Leaves runtime P = >>=-Leaves (any-Leaves P (read_clock b)) λ now.
        >>-Leaves (any-Leaves _ (wait_out_grace b task report runtime))
          (rounds-Leaves _ _ _ (success_threshold b task report) _)

    -- If the wait for the health of a container succeeds, the last things it has done are as many checks as the
    -- task asks for, each of which has succeeded, with no check that has failed and no report in between.
    pub wait_for_health_proves :
        (runtime r : ContainerRuntime) (w : World b)
        → (wait_for_health b task report runtime w).0 ≡ returned r
        → Recent (success_threshold b task report) (wait_for_health b task report runtime w).1.log
    wait_for_health_proves runtime r w e = (wait-Leaves runtime (λ _. Unit)).leaves w r tt e

    pub positive_threshold : zero < success_threshold b task report
    unfolding default_positive
    positive_threshold = ground arith
