-- ===== src/Agent/Clock.antt =====
-- What the executor of tasks relies on of the clock, and the frame of its steps: the clock does not go back,
-- and what is sent are updates of the task on its way.
use edge_pilot.Base.{
  true, append_assoc, ℕ, ◌+◌, ◌≤◌, ◌≡◌, refl, sym, ◌∙◌, ap, Bool-cases, inl, inr, ◌==◌, List, [],
  ◌∷◌, ◌++◌, All, arith,
}
use edge_pilot.Base.Int.{ℤ}
use edge_pilot.Base.Text.{Text}
use edge_pilot.Store.Base.{Answer, done, fault}
use edge_pilot.Release.Reported.{TaskUpdate, running}
use edge_pilot.Agent.Containers.{TaskCommand, ManagedContainerIdentity}
use edge_pilot.Agent.Host.{
  Backend, World, E, Event, sent, verified, removed, removed_image, ◌>>=◌, ◌>>◌, read_clock, sleep,
  call, attempt, or_fail, plain, return, fail,
}
use edge_pilot.Agent.Runs.{Frame, Runs, Ended}

-- The clock does not go back over a call, after a wait at least its duration has passed, and the channel to the
-- control plane stays open and takes every message.
pub record HostLaws (b : Backend) : Type 0 where
  pub wait_forward : (d : ℕ) (h : b.Host) → b.clock h ≤ b.clock (b.wait d h).1
  pub wait_passes :
      (d : ℕ) (h : b.Host) → (b.wait d h).0 ≡ done tt → b.clock h + d ≤ b.clock (b.wait d h).1
  pub probe_forward :
      (address path : Text) (headers : List (Text × Text)) (code timeout : ℤ) (h : b.Host)
      → b.clock h ≤ b.clock (b.http_probe address path headers code timeout h).1
  pub ready_forward : (h : b.Host) → b.clock h ≤ b.clock (b.ensure_ready h).1
  pub image_forward :
      (ref : Text) (task : TaskCommand) (h : b.Host)
      → b.clock h ≤ b.clock (b.ensure_image ref task h).1
  pub deploy_forward :
      (task : TaskCommand) (h : b.Host) → b.clock h ≤ b.clock (b.deploy_container task h).1
  pub inspect_forward : (id : Text) (h : b.Host) → b.clock h ≤ b.clock (b.inspect_container id h).1
  pub find_forward :
      (id : ManagedContainerIdentity) (h : b.Host)
      → b.clock h ≤ b.clock (b.find_managed_container_by_identity id h).1
  pub address_forward :
      (id : Text) (port : ℤ) (h : b.Host)
      → b.clock h ≤ b.clock (b.resolve_listen_address id port h).1
  pub logs_forward :
      (id : Text) (lines bytes : ℕ) (h : b.Host)
      → b.clock h ≤ b.clock (b.read_container_logs id lines bytes h).1
  pub remove_forward : (id : Text) (h : b.Host) → b.clock h ≤ b.clock (b.remove_container id h).1
  pub image_removed_forward :
      (image : Text) (h : b.Host) → b.clock h ≤ b.clock (b.remove_image image h).1
  pub outbound_takes : (u : TaskUpdate) (h : b.Host) → (b.outbound u h).0 ≡ true
  pub outbound_forward : (u : TaskUpdate) (h : b.Host) → b.clock h ≤ b.clock (b.outbound u h).1
  pub list_forward :
      (agent service : Text) (h : b.Host)
      → b.clock h ≤ b.clock (b.list_managed_containers agent service h).1

-- What may be seen of the task with an identifier before it is over.
abbrev pub Progress : Text → Event → Type 0
Progress id (sent u) = (u.status ≡ running) × (u.task_id ≡ id)
Progress id (verified ok) = Unit
Progress id (removed container ok) = Unit
Progress id (removed_image image ok) = Unit

All-append : {A : Type 0} (P : A → Type 0) (xs ys : List A) → All P xs → All P ys → All P (xs ++ ys)
All-append P [] ys h g = g
All-append P (x ∷ xs) ys h g = (h.0, All-append P xs ys h.1 g)

module _ (b : Backend) where
  -- The later world has seen more events, all of which satisfy `P`.
  abbrev pub Saw : (Event → Type 0) → World b → World b → Type 0
  Saw P u v = (more : List Event) × (v.log ≡ more ++ u.log) × All P more

  pub Saw-nothing : (P : Event → Type 0) (u v : World b) → v.log ≡ u.log → Saw P u v
  Saw-nothing P u v e = ([], e, tt)

  pub Saw-one :
      (P : Event → Type 0) (u v : World b) (e : Event) → P e → v.log ≡ e ∷ u.log → Saw P u v
  Saw-one P u v e h q = (e ∷ [], q, (h, tt))

  pub Saw_follow : (P : Event → Type 0) (u v w : World b) → Saw P u v → Saw P v w → Saw P u w
  Saw_follow P u v w (xs, e, h) (ys, q, g) =
      (ys ++ xs, (q ∙ ap (λ l. ys ++ l) e) ∙ sym (append_assoc ys xs u.log), All-append P ys xs g h)

  abbrev pub Forward : World b → World b → Type 0
  Forward u v = b.clock u.host ≤ b.clock v.host

  -- The frame of the steps of a task; a step that is out of fuel is ruled out.
  unfoldable pub task_frame : Text → Frame b
  unfolding Saw_follow Saw-nothing All-append
  task_frame id = record {
    Rel = λ u v. Forward u v × Saw (Progress id) u v;
    From = λ t w. t ≤ b.clock w.host;
    Stuck = ⊥;
    stay = λ w. (omega arith, Saw-nothing (Progress id) w w refl);
    follow = λ u v w p q. (omega arith, Saw_follow (Progress id) u v w p.1 q.1);
    remain = λ t u v p q. omega arith;
  }

  -- The frame of the steps of a clean-up, whatever the clock does.
  unfoldable pub plain_frame : (Event → Type 0) → Frame b
  unfolding Saw_follow Saw-nothing All-append
  plain_frame P = record {
    Rel = Saw P;
    From = λ t w. Unit;
    Stuck = Unit;
    stay = λ w. Saw-nothing P w w refl;
    follow = Saw_follow P;
    remain = λ t u v p q. tt;
  }

  module _ (id : Text) where
    pub weaken-Runs :
        {A : Type 0} {m : E b A} (s t : ℕ)
        → s ≤ t
        → Runs (task_frame id) s m
        → Runs (task_frame id) t m
    unfolding task_frame
    weaken-Runs s t h r = record { runs = λ w p. r.runs w (omega arith) }

    pub forward-Allowed :
        {A : Type 0} (c : b.Host → Answer A × b.Host)
        → ((h : b.Host) → b.clock h ≤ b.clock (c h).1)
        → (w : World b) → (task_frame id).Rel w (record w { host = (c w.host).1 })
    unfolding task_frame
    forward-Allowed c law w =
        (law w.host, Saw-nothing (Progress id) w (record w { host = (c w.host).1 }) refl)

    pub clock-Runs :
        {B : Type 0} {t : ℕ} {k : ℕ → E b B}
        → ((now : ℕ) → t ≤ now → Runs (task_frame id) now (k now))
        → Runs (task_frame id) t (read_clock b >>= k)
    unfolding read_clock ◌>>=◌ task_frame
    clock-Runs h = record { runs = λ w p. (h (b.clock w.host) p).runs w (omega arith) }

    module _ (laws : HostLaws b) where
      after_wait :
          {B : Type 0} (t d : ℕ) (k : E b B) (w : World b) (v : World b) (a : Answer (Unit {0}))
          → Runs (task_frame id) (t + d) k
          → t ≤ b.clock w.host
          → (task_frame id).Rel w v
          → (a ≡ done tt → b.clock w.host + d ≤ b.clock v.host)
          → (task_frame id).Rel w ((or_fail b plain a >> k) v).1
            × Ended (task_frame id) ((or_fail b plain a >> k) v).0
      unfolding task_frame or_fail ◌>>◌ return fail
      after_wait t d k w v (done x) r p q passed =
          let (s, e) = r.runs v (omega (arith, passed refl)) in
          ((omega arith, Saw_follow (Progress id) w v (k v).1 q.1 s.1), e)
      after_wait t d k w v (fault text) r p q passed = (q, tt)

      waited-Runs :
          {B : Type 0} {k : E b B} (t d : ℕ)
          → Runs (task_frame id) (t + d) k
          → Runs (task_frame id) t (call b (b.wait d) >> k)
      unfolding call attempt ◌>>=◌ ◌>>◌ task_frame
      waited-Runs {k} t d r = record {
        runs = λ w p.
            after_wait t d k w (record w { host = (b.wait d w.host).1 }) (b.wait d w.host).0 r p
              (forward-Allowed (b.wait d) (laws.wait_forward d) w) (laws.wait_passes d w.host);
      }

      pub sleep-Runs :
          {B : Type 0} {k : E b B} (t d : ℕ)
          → Runs (task_frame id) (t + d) k
          → Runs (task_frame id) t (sleep b d >> k)
      unfolding sleep ◌>>◌ return
      sleep-Runs t d r = elim (Bool-cases (d == 0)) [
        | inl none_ ↦
            rw none_ (weaken-Runs (t + d) t (ground arith) (record { runs = λ w p. r.runs w p }))
        | inr some_ ↦ rw some_ (waited-Runs t d r)
      ]
