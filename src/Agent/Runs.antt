-- ===== src/Agent/Runs.antt =====
-- Rules for the steps of the executor: a relation between the worlds before and after that each step
-- respects, what may be assumed of the world before, and what it means to run out of fuel.
use edge_pilot.Base.{ℕ, ◌≡◌, refl, Bool, true, false, ◌∷◌, if◌then◌else◌}
use edge_pilot.Base.Text.{Text}
use edge_pilot.Store.Base.{Answer, done, fault}
use edge_pilot.Release.Reported.{TaskUpdate}
use edge_pilot.Agent.Host.{
  Backend, World, E, Outcome, returned, failed, unfinished, ExecError, Event, sent, then_run,
  rescue, ◌>>=◌, ◌>>◌, return, fail, on_failure, attempt, note, or_fail, call,
}

pub record Frame (b : Backend) : Type 1 where
  -- What a step respects, and what holds of a world at a time or later.
  pub Rel : World b → World b → Type 0
  pub From : ℕ → World b → Type 0
  -- What is known of a step that has run out of fuel.
  pub Stuck : Type 0
  pub stay : (w : World b) → Rel w w
  pub follow : (u v w : World b) → Rel u v → Rel v w → Rel u w
  pub remain : (t : ℕ) (u v : World b) → From t u → Rel u v → From t v

module _ {b : Backend} (f : Frame b) where
  abbrev pub Ended : {A : Type 0} → Outcome A → Type 0
  Ended (returned x) = Unit
  Ended (failed e) = Unit
  Ended unfinished = f.Stuck

  -- From a time on, the step respects the relation and ends.
  pub record Runs {A : Type 0} (t : ℕ) (m : E b A) : Type 0 where
    pub runs : (w : World b) → f.From t w → f.Rel w (m w).1 × Ended (m w).0

  then-Runs :
      {A B : Type 0} (t : ℕ) (w : World b) (a : Outcome A × World b) (k : A → E b B)
      → f.From t w
      → f.Rel w a.1 × Ended a.0
      → ((x : A) → Runs t (k x))
      → f.Rel w (then_run a k).1 × Ended (then_run a k).0
  then-Runs t w (returned x, v) k p h g =
      let (r, e) = (g x).runs v (f.remain t w v p h.0) in (f.follow w v _ h.0 r, e)
  then-Runs t w (failed e, v) k p h g = h
  then-Runs t w (unfinished, v) k p h g = h

  pub >>=-Runs :
      {A B : Type 0} {t : ℕ} {m : E b A} {k : A → E b B}
      → Runs t m
      → ((x : A) → Runs t (k x))
      → Runs t (m >>= k)
  unfolding ◌>>=◌
  >>=-Runs {t} {m} {k} h g = record { runs = λ w p. then-Runs t w (m w) k p (h.runs w p) g }

  pub >>-Runs :
      {B : Type 0} {t : ℕ} {m : E b (Unit {0})} {k : E b B} → Runs t m → Runs t k → Runs t (m >> k)
  unfolding ◌>>◌
  >>-Runs {t} {m} {k} h g = record {
    runs = λ w p. then-Runs t w (m w) (λ _. k) p (h.runs w p) (λ _. g);
  }

  rescue-Runs :
      {A : Type 0} (t : ℕ) (w : World b) (a : Outcome A × World b) (k : ExecError → E b A)
      → f.From t w
      → f.Rel w a.1 × Ended a.0
      → ((e : ExecError) → Runs t (k e))
      → f.Rel w (rescue a k).1 × Ended (rescue a k).0
  rescue-Runs t w (returned x, v) k p h g = h
  rescue-Runs t w (failed e, v) k p h g =
      let (r, q) = (g e).runs v (f.remain t w v p h.0) in (f.follow w v _ h.0 r, q)
  rescue-Runs t w (unfinished, v) k p h g = h

  pub on_failure-Runs :
      {A : Type 0} {t : ℕ} {m : E b A} {k : ExecError → E b A}
      → Runs t m
      → ((e : ExecError) → Runs t (k e))
      → Runs t (on_failure m k)
  unfolding on_failure
  on_failure-Runs {t} {m} {k} h g = record {
    runs = λ w p. rescue-Runs t w (m w) k p (h.runs w p) g;
  }

  pub return-Runs : {A : Type 0} (t : ℕ) (x : A) → Runs t (return {b = b} x)
  unfolding return
  return-Runs t x = record { runs = λ w p. (f.stay w, tt) }

  pub fail-Runs : (A : Type 0) (t : ℕ) (e : ExecError) → Runs {A = A} t (fail e)
  unfolding fail
  fail-Runs A t e = record { runs = λ w p. (f.stay w, tt) }

  pub or_fail-Runs :
      {A : Type 0} (t : ℕ) (e : Text → ExecError) (a : Answer A) → Runs t (or_fail b e a)
  unfolding or_fail
  or_fail-Runs t e (done x) = return-Runs t x
  or_fail-Runs {A} t e (fault text) = fail-Runs A t (e text)

  pub if-Runs :
      {A : Type 0} {t : ℕ} (test : Bool) {m n : E b A}
      → Runs t m
      → Runs t n
      → Runs t (if test then m else n)
  if-Runs true h g = h
  if-Runs false h g = g

  -- A call of the host that the relation allows.
  abbrev pub Allowed : {A : Type 0} → (b.Host → Answer A × b.Host) → Type 0
  Allowed c = (w : World b) → f.Rel w (record w { host = (c w.host).1 })

  pub attempt-Runs :
      {A : Type 0} (t : ℕ) (c : b.Host → Answer A × b.Host) → Allowed c → Runs t (attempt b c)
  unfolding attempt
  attempt-Runs t c h = record { runs = λ w p. (h w, tt) }

  pub call-Runs :
      {A : Type 0} (t : ℕ) (c : b.Host → Answer A × b.Host) → Allowed c → Runs t (call b c)
  unfolding call
  call-Runs t c h = >>=-Runs (attempt-Runs t c h) (or_fail-Runs t _)

  pub note-Runs :
      (t : ℕ) (e : Event)
      → ((w : World b) → f.Rel w (record w { log = e ∷ w.log }))
      → Runs t (note b e)
  unfolding note
  note-Runs t e h = record { runs = λ w p. (h w, tt) }

  -- The step that returns has sent one update at the very end, of which `F` holds.
  abbrev pub EndsAs : (TaskUpdate → Type 0) → {A : Type 0} → World b → Outcome A × World b → Type 0
  EndsAs F w (returned x, v) =
      (u : World b) × (update : TaskUpdate) × (f.Rel w u
        × (v ≡ record u { log = sent update ∷ u.log })
        × F update)
  EndsAs F w (failed e, v) = f.Rel w v
  EndsAs F w (unfinished, v) = f.Stuck

  pub record Ends {A : Type 0} (F : TaskUpdate → Type 0) (t : ℕ) (m : E b A) : Type 0 where
    pub ends : (w : World b) → f.From t w → EndsAs F w (m w)

  then-Ends :
      {A B : Type 0} (F : TaskUpdate → Type 0) (t : ℕ) (w : World b) (a : Outcome A × World b)
      (k : A → E b B)
      → f.From t w
      → f.Rel w a.1 × Ended a.0
      → ((x : A) → Ends F t (k x))
      → EndsAs F w (then_run a k)
  then-Ends F t w (returned x, v) k p h g =
      later F w v (k x v) h.0 ((g x).ends v (f.remain t w v p h.0))
    where
      later :
          {B : Type 0} (F : TaskUpdate → Type 0) (w v : World b) (o : Outcome B × World b)
          → f.Rel w v
          → EndsAs F v o
          → EndsAs F w o
      later F w v (returned y, z) r (u, update, (q, e, s)) = (u, update, (f.follow w v u r q, e, s))
      later F w v (failed y, z) r q = f.follow w v z r q
      later F w v (unfinished, z) r q = q
  then-Ends F t w (failed e, v) k p h g = h.0
  then-Ends F t w (unfinished, v) k p h g = h.1

  pub >>=-Ends :
      {A B : Type 0} {F : TaskUpdate → Type 0} {t : ℕ} {m : E b A} {k : A → E b B}
      → Runs t m
      → ((x : A) → Ends F t (k x))
      → Ends F t (m >>= k)
  unfolding ◌>>=◌
  >>=-Ends {F} {t} {m} {k} h g = record { ends = λ w p. then-Ends F t w (m w) k p (h.runs w p) g }

  pub >>-Ends :
      {B : Type 0} {F : TaskUpdate → Type 0} {t : ℕ} {m : E b (Unit {0})} {k : E b B}
      → Runs t m
      → Ends F t k
      → Ends F t (m >> k)
  unfolding ◌>>◌
  >>-Ends {F} {t} {m} {k} h g = record {
    ends = λ w p. then-Ends F t w (m w) (λ _. k) p (h.runs w p) (λ _. g);
  }

  -- A step that never returns ends with no update.
  pub fail-Ends :
      (A : Type 0) (F : TaskUpdate → Type 0) (t : ℕ) (e : ExecError) → Ends {A = A} F t (fail e)
  unfolding fail
  fail-Ends A F t e = record { ends = λ w p. f.stay w }

  pub note-Ends :
      (F : TaskUpdate → Type 0) (t : ℕ) (update : TaskUpdate)
      → F update
      → Ends F t (note b (sent update))
  unfolding note
  note-Ends F t update h = record { ends = λ w p. (w, update, (f.stay w, refl, h)) }
