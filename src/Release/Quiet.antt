-- ===== src/Release/Quiet.antt =====
-- The steps of internal/release/application/service.go that leave the table of releases alone.
use edge_pilot.Base.{
  ℕ, ◌≡◌, refl, ◌∙◌, Bool, true, false, not, Option, none, some, if◌then◌else◌, Bool-cases, inl,
  inr,
}
use edge_pilot.Base.Text.{Text, trim_space, is_empty}
use edge_pilot.Store.Base.{Answer, done, fault}
use edge_pilot.Store.Effect.{Result, ok, err, Error, not_found, then_run, read_answer}
use edge_pilot.Store.Program.{◌>>=◌, ◌>>◌, return, fail}
use edge_pilot.Model.Slot.{Slot}
use edge_pilot.Model.Event.{Event}
use edge_pilot.Model.Release.{Release, RuntimeInstance, Task, TaskAttempt, AuditLog, is_queued}
use edge_pilot.Release.World.{
  Backend, World, R, Spec, get_release, get_task, update_task, create_task_attempt, audit,
  update_live_slot, get_instance, upsert_instance, publish_agent, enrich_release_output, new_id,
  stored_log, stored_task, stored_instance, stored_catalog, published, log_attempt, log_audit,
  audit_row, find_instances, is_at, first_of, publish_by, count_before, upsert_over, with_queue,
  with_spec,
}
use edge_pilot.Release.Traffic.{update_traffic_flags, require_healthy, set_flags, is_healthy}

module _ (b : Backend) where
  -- A step that leaves the table of releases as it is, whether it succeeds or fails.
  pub record Quiet {A : Type 0} (m : R b A) : Type 0 where
    pub keeps : (w : World b) → (m w).1.releases ≡ w.releases

  then_run-keeps :
      {A B : Type 0} (db : b.releases.Db) (a : Result A × World b) (f : A → R b B)
      → a.1.releases ≡ db
      → ((x : A) → Quiet (f x))
      → (then_run a f).1.releases ≡ db
  then_run-keeps db (ok x, w) f h g = (g x).keeps w ∙ h
  then_run-keeps db (err e, w) f h g = h

  pub >>=-Quiet :
      {A B : Type 0} {m : R b A} {f : A → R b B}
      → Quiet m
      → ((x : A) → Quiet (f x))
      → Quiet (m >>= f)
  unfolding ◌>>=◌
  >>=-Quiet {m} {f} h g = record { keeps = λ w. then_run-keeps w.releases (m w) f (h.keeps w) g }

  pub >>-Quiet : {B : Type 0} {m : R b (Unit {0})} {k : R b B} → Quiet m → Quiet k → Quiet (m >> k)
  unfolding ◌>>◌
  >>-Quiet {m} {k} h g = record {
    keeps = λ w. then_run-keeps w.releases (m w) (λ _. k) (h.keeps w) (λ _. g);
  }

  pub return-Quiet : {A : Type 0} (x : A) → Quiet (return {S = World b} x)
  unfolding return
  return-Quiet x = record { keeps = λ w. refl }

  pub fail-Quiet : {A : Type 0} (e : Error) → Quiet (fail {S = World b} {A = A} e)
  unfolding fail
  fail-Quiet e = record { keeps = λ w. refl }

  pub if-Quiet :
      {A : Type 0} (t : Bool) {m n : R b A} → Quiet m → Quiet n → Quiet (if t then m else n)
  if-Quiet true h g = h
  if-Quiet false h g = g

  read_answer-keeps :
      {A : Type 0} (w : World b) (a : Answer A) → (read_answer w a).1.releases ≡ w.releases
  read_answer-keeps w (done x) = refl
  read_answer-keeps w (fault e) = refl

  pub get_release-Quiet : (id : ℕ) → Quiet (get_release b id)
  unfolding get_release
  get_release-Quiet id = record {
    keeps = λ w. read_answer-keeps w (b.releases.first id w.releases);
  }

  pub get_task-Quiet : (id : ℕ) → Quiet (get_task b id)
  unfolding get_task
  get_task-Quiet id = record { keeps = λ w. read_answer-keeps w (b.tasks.first id w.tasks) }

  stored_log-keeps : (w : World b) (a : Answer b.Log) → (stored_log b w a).1.releases ≡ w.releases
  unfolding stored_log
  stored_log-keeps w (done x) = refl
  stored_log-keeps w (fault e) = refl

  stored_task-keeps :
      (w : World b) (a : Answer b.tasks.Db) → (stored_task b w a).1.releases ≡ w.releases
  unfolding stored_task
  stored_task-keeps w (done x) = refl
  stored_task-keeps w (fault e) = refl

  stored_instance-keeps :
      (w : World b) (a : Answer b.instances.Db) → (stored_instance b w a).1.releases ≡ w.releases
  unfolding stored_instance
  stored_instance-keeps w (done x) = refl
  stored_instance-keeps w (fault e) = refl

  stored_catalog-keeps :
      (w : World b) (a : Answer b.Catalog) → (stored_catalog b w a).1.releases ≡ w.releases
  unfolding stored_catalog
  stored_catalog-keeps w (done x) = refl
  stored_catalog-keeps w (fault e) = refl

  published-keeps :
      (w : World b) (a : Answer (Unit {0})) → (published b w a).1.releases ≡ w.releases
  unfolding published
  published-keeps w (done x) = refl
  published-keeps w (fault e) = refl

  pub new_id-Quiet : Quiet (new_id b)
  unfolding new_id
  new_id-Quiet = record { keeps = λ w. refl }

  pub update_task-Quiet : (t : Task) → Quiet (update_task b t)
  unfolding update_task
  update_task-Quiet t = record { keeps = λ w. stored_task-keeps w (b.tasks.save t w.tasks) }

  log_attempt-Quiet : (attempt : TaskAttempt) → Quiet (log_attempt b attempt)
  unfolding log_attempt
  log_attempt-Quiet attempt = record {
    keeps = λ w. stored_log-keeps w (b.create_attempt attempt w.log);
  }

  pub log_audit-Quiet : (a : AuditLog) → Quiet (log_audit b a)
  unfolding log_audit
  log_audit-Quiet a = record { keeps = λ w. stored_log-keeps w (b.create_audit a w.log) }

  pub create_task_attempt-Quiet :
      (attempt : ℕ → TaskAttempt) → Quiet (create_task_attempt b attempt)
  unfolding create_task_attempt
  create_task_attempt-Quiet attempt = >>=-Quiet new_id-Quiet (λ id. log_attempt-Quiet (attempt id))

  pub audit-Quiet : (r : Release) (event : Event) (message : Text) → Quiet (audit b r event message)
  unfolding audit
  audit-Quiet r event message =
      >>=-Quiet new_id-Quiet (λ id. log_audit-Quiet (audit_row b r event message id))

  pub update_live_slot-Quiet : (service : ℕ) (slot : Slot) → Quiet (update_live_slot b service slot)
  unfolding update_live_slot
  update_live_slot-Quiet service slot = record {
    keeps = λ w. stored_catalog-keeps w (b.set_live_slot service slot w.catalog);
  }

  find_instances-Quiet : (service : ℕ) (slot : Slot) → Quiet (find_instances b service slot)
  unfolding find_instances
  find_instances-Quiet service slot = record {
    keeps = λ w. read_answer-keeps w (b.instances.find (is_at b service slot) (some 1) w.instances);
  }

  pub get_instance-Quiet : (service : ℕ) (slot : Slot) → Quiet (get_instance b service slot)
  unfolding get_instance
  get_instance-Quiet service slot =
      >>=-Quiet (find_instances-Quiet service slot) (λ rows. return-Quiet (first_of b rows))

  upsert_over-Quiet : (i : RuntimeInstance) (o : Option RuntimeInstance) → Quiet (upsert_over b i o)
  unfolding upsert_over
  upsert_over-Quiet i none = record {
    keeps = λ w. stored_instance-keeps w (b.instances.create i w.instances);
  }
  upsert_over-Quiet i (some c) = record {
    keeps = λ w. stored_instance-keeps w (b.instances.save (record i { id = c.id }) w.instances);
  }

  pub upsert_instance-Quiet : (i : RuntimeInstance) → Quiet (upsert_instance b i)
  unfolding upsert_instance
  upsert_instance-Quiet i = >>=-Quiet (get_instance-Quiet i.service_id i.slot) (upsert_over-Quiet i)

  publish_by-keeps :
      (agent : Text) (p : Option (Text → Answer (Unit {0}))) (w : World b)
      → (publish_by b agent p w).1.releases ≡ w.releases
  unfolding publish_by
  publish_by-keeps agent none w = refl
  publish_by-keeps agent (some publish) w = elim (Bool-cases (is_empty (trim_space agent))) [
    | inl blank ↦ rw blank refl
    | inr named ↦ rw named (published-keeps w (publish agent))
  ]

  pub publish_agent-Quiet : (agent : Text) → Quiet (publish_agent b agent)
  unfolding publish_agent
  publish_agent-Quiet agent = record { keeps = publish_by-keeps agent b.publisher }

  count_before-Quiet : (r : Release) → Quiet (count_before b r)
  unfolding count_before
  count_before-Quiet r = record { keeps = λ w. read_answer-keeps w _ }

  with_queue-Quiet : (r : Release) (spec : Option Spec) → Quiet (with_queue b r spec)
  unfolding with_queue
  with_queue-Quiet r spec =
      if-Quiet (not (is_queued r.status)) (return-Quiet _)
        (>>=-Quiet (count_before-Quiet r) (λ rows. return-Quiet _))

  with_spec-Quiet : (r : Release) (s : Result Spec) → Quiet (with_spec b r s)
  unfolding with_spec
  with_spec-Quiet r (ok spec) = with_queue-Quiet r (some spec)
  with_spec-Quiet r (err not_found) = with_queue-Quiet r none
  with_spec-Quiet r (err e) = fail-Quiet _

  pub enrich_release_output-Quiet : (r : Release) → Quiet (enrich_release_output b r)
  unfolding enrich_release_output
  enrich_release_output-Quiet r = record {
    keeps = λ w. (with_spec-Quiet r (b.get_spec r.service_id w.catalog)).keeps w;
  }

  set_flags-Quiet :
      (accepting : Bool) (o : Option RuntimeInstance) → Quiet (set_flags b accepting o)
  unfolding set_flags
  set_flags-Quiet accepting none = return-Quiet tt
  set_flags-Quiet accepting (some i) = upsert_instance-Quiet _

  pub update_traffic_flags-Quiet :
      (service : ℕ) (live old : Slot) → Quiet (update_traffic_flags b service live old)
  unfolding update_traffic_flags
  update_traffic_flags-Quiet service live old =
      >>=-Quiet (get_instance-Quiet service live) λ current.
        >>-Quiet (set_flags-Quiet true current)
          (>>=-Quiet (get_instance-Quiet service old) (set_flags-Quiet false))

  pub require_healthy-Quiet :
      (service : ℕ) (slot : Slot) (message : Text) → Quiet (require_healthy b service slot message)
  unfolding require_healthy
  require_healthy-Quiet service slot message =
      >>=-Quiet (get_instance-Quiet service slot)
        λ i. if-Quiet (is_healthy i) (return-Quiet tt) (fail-Quiet _)
