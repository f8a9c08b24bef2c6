-- ===== src/Release/Sealed.antt =====
-- The secrets of a deployment, and the time it is given: `newDeployTask`, `prepareTaskSensitive` and
-- `taskTimedOut` of internal/release/application/service.go.
use edge_pilot.Base.{
  ◌<◌, ℕ, ◌+◌, ◌*◌, ◌≡◌, ◌≤◌, refl, Bool, true, false, ◌&&◌, ◌⊎◌, inl, inr, not, Option, none, some,
  List, [], Bool-cases, if◌then◌else◌, arith, subst, ◌==◌,
}
use edge_pilot.Base.Int.{pos, ◌+ℤ◌, ltb_ℤ}
use edge_pilot.Base.Duration.{seconds, plus, +ℤ-pos, seconds-small, plus-small}
use edge_pilot.Base.Text.{Text, is_empty, trim_space}
use edge_pilot.Cron.Calendar.{Time, minute, second}
use edge_pilot.Store.Effect.{Result, ok, err, other_error}
use edge_pilot.Model.Release.{Release, Task, TaskType, TaskSensitivePayload}
use edge_pilot.Release.World.{Backend, Spec, Credential}
use edge_pilot.Release.Deploy.{
  no_entries, sealed, seal_with, prepare_task_sensitive, deploy_payload, sealed_task,
  new_deploy_task, task_timed_out, timeout_for_task, default_int,
}

-- What may be stored in the open: no secret of a registry, and an environment only where there is no
-- codec and the service does not ask for encryption.
OpenAtMost :
    Option (TaskSensitivePayload → Result (Text × Text))
    → Bool
    → List (Text × Text)
    → TaskSensitivePayload
    → Type 0
OpenAtMost codec encrypted env plain =
    (plain.registry_secret ≡ [])
    × ((plain.env ≡ []) ⊎ ((codec ≡ none) × (encrypted ≡ false) × (plain.env ≡ env)))

ok_injective : {A : Type 0} (x y : A) → ok x ≡ ok y → x ≡ y
ok_injective x y h = cc

sealed-open :
    (c : TaskSensitivePayload → Result (Text × Text)) (encrypted : Bool) (env : List (Text × Text))
    (a : Result (Text × Text)) (s : Text × Text × TaskSensitivePayload)
    → sealed a ≡ ok s
    → OpenAtMost (some c) encrypted env s.2
unfolding sealed OpenAtMost
sealed-open c encrypted env (ok (x, y)) s h = ground arith
sealed-open c encrypted env (err e) s h = ground arith

seal_with-open :
    (codec : Option (TaskSensitivePayload → Result (Text × Text))) (encrypted : Bool)
    (p : TaskSensitivePayload) (s : Text × Text × TaskSensitivePayload)
    → seal_with codec encrypted p ≡ ok s
    → OpenAtMost codec encrypted p.env s.2
unfolding seal_with OpenAtMost
seal_with-open none encrypted p s h =
    elim (Bool-cases
      (not encrypted && not (no_entries p.env) && is_empty (trim_space p.registry_secret))) [
        | inl plain ↦ of_plain plain (rw plain at h)
        | inr refused ↦ (let no_value : err other_error ≡ ok s = rw refused at h in ground arith)
      ]
  where
    unencrypted : (t u v : Bool) → (not t && u && v) ≡ true → t ≡ false
    unencrypted t u v e = ground arith

    of_plain :
        (not encrypted && not (no_entries p.env) && is_empty (trim_space p.registry_secret)) ≡ true
        → ◌≡◌ {A = Result (Text × Text × TaskSensitivePayload)}
            (ok ([], [], record { env = p.env; registry_secret = [] }))
            (ok s)
        → OpenAtMost none encrypted p.env s.2
    of_plain e q =
        subst (λ x. OpenAtMost none encrypted p.env x.2) (ok_injective _ s q)
          (
            refl,
            inr (
              refl,
              unencrypted encrypted (not (no_entries p.env))
                  (is_empty (trim_space p.registry_secret)) e,
              refl,
            ),
          )
seal_with-open (some c) encrypted p s h = sealed-open c encrypted p.env (c p) s h

prepare-open :
    (b : Backend) (spec : Spec) (p : TaskSensitivePayload) (s : Text × Text × TaskSensitivePayload)
    → prepare_task_sensitive b spec p ≡ ok s
    → OpenAtMost b.encrypt spec.env_encrypted p.env s.2
unfolding prepare_task_sensitive OpenAtMost
prepare-open b spec p s h =
    elim (Bool-cases (no_entries p.env && is_empty (trim_space p.registry_secret))) [
      | inl empty ↦ nothing (rw empty at h)
      | inr full ↦ seal_with-open b.encrypt spec.env_encrypted p s (rw full at h)
    ]
  where
    nothing :
        ◌≡◌ {A = Result (Text × Text × TaskSensitivePayload)}
          (ok ([], [], record { env = []; registry_secret = [] }))
          (ok s)
        → OpenAtMost b.encrypt spec.env_encrypted p.env s.2
    nothing q =
        subst (λ x. OpenAtMost b.encrypt spec.env_encrypted p.env x.2) (ok_injective _ s q)
          (refl, inl refl)

sealed_task-open :
    (b : Backend) (r : Release) (spec : Spec) (auth : Option Credential) (now : Time) (id : ℕ)
    (env : List (Text × Text)) (a : Result (Text × Text × TaskSensitivePayload)) (task : Task)
    → ((s : Text × Text × TaskSensitivePayload)
        → a ≡ ok s
        → OpenAtMost b.encrypt spec.env_encrypted env s.2)
    → sealed_task b r spec auth now id a ≡ ok task
    → OpenAtMost b.encrypt spec.env_encrypted env
        (record { env = task.payload.env; registry_secret = task.payload.registry_secret })
unfolding sealed_task deploy_payload OpenAtMost
sealed_task-open b r spec auth now id env (err e) task k h = ground arith
sealed_task-open b r spec auth now id env (ok s) task k h =
    subst
      (λ t.
        OpenAtMost b.encrypt spec.env_encrypted env
          (record { env = t.payload.env; registry_secret = t.payload.registry_secret }))
      (ok_injective _ task h) (k s refl)

-- A task that newDeployTask makes carries no secret of a registry in the open, and environment
-- variables only where the control plane has no codec and the service does not ask for encryption; they
-- are then those of the service.
pub deploy_task_seals_secrets :
    (b : Backend) (r : Release) (spec : Spec) (auth : Option Credential) (now : Time) (id : ℕ)
    (task : Task)
    → new_deploy_task b r spec auth now id ≡ ok task
    → (task.payload.registry_secret ≡ [])
      × ((task.payload.env ≡ [])
          ⊎ ((b.encrypt ≡ none) × (spec.env_encrypted ≡ false) × (task.payload.env ≡ spec.env)))
unfolding new_deploy_task OpenAtMost
deploy_task_seals_secrets b r spec auth now id task h =
    sealed_task-open b r spec auth now id spec.env _ task (prepare-open b spec _) h

default_int-pos : (n d : ℕ) → default_int (pos n) (pos d) ≡ pos (if n == 0 then d else n)
unfolding default_int
default_int-pos n d = ground arith

timeout_lem :
    (task : Task) (grace http : ℕ)
    → task.payload.startup_grace_second ≡ pos grace
    → task.payload.http_timeout_second ≡ pos http
    → grace + http < 9_000_000_000
    → (n : ℕ) × (timeout_for_task task ≡ pos n) × (minute ≤ n)
unfolding timeout_for_task
timeout_lem task grace http g h l = by_type task.type
  where
    of_deploy :
        (a c : ℕ)
        → a + c < 9_000_000_200
        → plus
            (plus (plus (pos (5 * minute)) (seconds (pos a))) (seconds (pos c)))
            (pos (30 * second))
          ≡ pos (5 * minute + a * second + c * second + 30 * second)
    of_deploy a c small =
        rw
          (
            seconds-small a (omega arith),
            seconds-small c (omega arith),
            plus-small (5 * minute) (a * second) (omega arith),
            plus-small (5 * minute + a * second) (c * second) (omega arith),
          )
          (plus-small (5 * minute + a * second + c * second) (30 * second) (omega arith))

    by_type :
        (t : TaskType)
        → (n : ℕ) × (elim t [
          | TaskType.deploy_green ↦
              plus
                (plus
                  (plus
                    (pos (5 * minute))
                    (seconds (default_int task.payload.startup_grace_second (pos 15))))
                  (seconds (default_int task.payload.http_timeout_second (pos 90))))
                (pos (30 * second))
          | TaskType.switch_traffic ↦ pos minute
          | TaskType.rollback ↦ pos minute
          | TaskType.cleanup_old ↦ pos minute
        ]
            ≡ pos n)
          × (minute ≤ n)
    by_type TaskType.deploy_green =
        rw (g, h, default_int-pos grace 15, default_int-pos http 90)
          (
            _,
            of_deploy (if grace == 0 then 15 else grace) (if http == 0 then 90 else http)
                (ground arith),
            omega arith,
          )
    by_type TaskType.switch_traffic = (minute, refl, omega arith)
    by_type TaskType.rollback = (minute, refl, omega arith)
    by_type TaskType.cleanup_old = (minute, refl, omega arith)

-- A task with a payload of durations that are not negative and less than 9 000 000 000 seconds together, and
-- that was last written at most a minute ago, has not timed out.
pub fresh_task_has_time :
    (task : Task) (now grace http : ℕ)
    → task.payload.startup_grace_second ≡ pos grace
    → task.payload.http_timeout_second ≡ pos http
    → grace + http < 9_000_000_000
    → now ≤ task.updated_at + minute
    → task_timed_out task now ≡ false
unfolding task_timed_out
fresh_task_has_time task now grace http g h small l =
    let t = timeout_lem task grace http g h small in
    rw t.1 (enough task.updated_at task.created_at t.0 t.2 l)
  where
    enough :
        (updated created n : ℕ)
        → minute ≤ n
        → now ≤ updated + minute
        → (if (if updated == 0 then created else updated) == 0
            then false
            else ltb_ℤ (pos (if updated == 0 then created else updated) +ℤ pos n) (pos now))
          ≡ false
    enough updated created n m l = elim (Bool-cases (updated == 0)) [
      | inl never ↦ rw (never, +ℤ-pos) (ground arith)
      | inr written ↦ rw (written, written, +ℤ-pos) (ground arith)
    ]
