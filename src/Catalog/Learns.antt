-- ===== src/Catalog/Learns.antt =====
-- Rules for the operations on the catalogue: what a step that only reads finds out, and what a later
-- step does with it.
use edge_pilot.Base.{◌≡◌, refl, sym, ◌∙◌, subst, Bool, true, false, arith}
use edge_pilot.Store.Base.{Answer, done, fault}
use edge_pilot.Store.Effect.{Error, Result, ok, err, then_run, read_answer}
use edge_pilot.Store.Program.{◌>>=◌, ◌>>◌, return, fail}
use edge_pilot.Catalog.World.{Backend, World, C, given, stored}
use edge_pilot.Catalog.Services.{require}

module _ (b : Backend) where
  -- The step leaves the table alone, and if it returns a value, `Q` holds of it and the table.
  pub record Learns {A : Type 0} (Q : A → b.services.Db → Type 0) (m : C b A) : Type 0 where
    pub same : (w : World b) → (m w).1.services ≡ w.services
    pub learns : (w : World b) (x : A) → (m w).0 ≡ ok x → Q x w.services

  -- A step that leaves the table alone.
  abbrev pub Quiet : {A : Type 0} → C b A → Type 0
  Quiet m = Learns (λ _ _. Unit {0}) m

  pub weaken-Learns :
      {A : Type 0} {Q R : A → b.services.Db → Type 0} {m : C b A}
      → ((x : A) (db : b.services.Db) → Q x db → R x db)
      → Learns Q m
      → Learns R m
  weaken-Learns k h = record { same = h.same; learns = λ w x e. k x w.services (h.learns w x e) }

  pub Learns-Quiet :
      {A : Type 0} {Q : A → b.services.Db → Type 0} {m : C b A} → Learns Q m → Quiet m
  Learns-Quiet h = weaken-Learns (λ _ _ _. tt) h

  then_run-same :
      {A B : Type 0} (db : b.services.Db) (a : Result A × World b) (f : A → C b B)
      → a.1.services ≡ db
      → ((x : A) (w : World b) → (f x w).1.services ≡ w.services)
      → (then_run a f).1.services ≡ db
  then_run-same db (ok x, w) f h g = g x w ∙ h
  then_run-same db (err e, w) f h g = h

  then_run-learns :
      {A B : Type 0} (Q : A → b.services.Db → Type 0) (R : B → b.services.Db → Type 0)
      (db : b.services.Db) (a : Result A × World b) (f : A → C b B)
      → a.1.services ≡ db
      → ((x : A) → a.0 ≡ ok x → Q x db)
      → ((x : A) → Learns (λ y d. Q x d → R y d) (f x))
      → (y : B) → (then_run a f).0 ≡ ok y
      → R y db
  then_run-learns Q R db (ok x, w) f h q g y e =
      subst (λ d. Q x d → R y d) h ((g x).learns w y e) (q x refl)
  then_run-learns Q R db (err x, w) f h q g y e = ground arith

  pub >>=-Learns :
      {A B : Type 0} {Q : A → b.services.Db → Type 0} {R : B → b.services.Db → Type 0} {m : C b A}
      {f : A → C b B}
      → Learns Q m
      → ((x : A) → Learns (λ y d. Q x d → R y d) (f x))
      → Learns R (m >>= f)
  unfolding ◌>>=◌
  >>=-Learns {Q} {R} {m} {f} h g = record {
    same = λ w. then_run-same w.services (m w) f (h.same w) (λ x. (g x).same);
    learns = λ w. then_run-learns Q R w.services (m w) f (h.same w) (h.learns w) g;
  }

  pub >>-Learns :
      {B : Type 0} {Q : b.services.Db → Type 0} {R : B → b.services.Db → Type 0}
      {m : C b (Unit {0})} {k : C b B}
      → Learns (λ _. Q) m
      → Learns (λ y d. Q d → R y d) k
      → Learns R (m >> k)
  unfolding ◌>>◌
  >>-Learns {Q} {R} {m} {k} h g = record {
    same = λ w. then_run-same w.services (m w) (λ _. k) (h.same w) (λ _. g.same);
    learns =
        λ w. then_run-learns (λ _. Q) R w.services (m w) (λ _. k) (h.same w) (h.learns w) (λ _. g);
  }

  pub given-Learns : {A : Type 0} (a : Result A) → Learns (λ x _. a ≡ ok x) (given b a)
  unfolding given
  given-Learns a = record { same = λ w. refl; learns = λ w x e. e }

  pub return-Learns :
      {A : Type 0} (Q : A → b.services.Db → Type 0) (x : A)
      → ((db : b.services.Db) → Q x db)
      → Learns Q (return {S = World b} x)
  unfolding return
  return-Learns {A} Q x h = record {
    same = λ w. refl;
    learns = λ w y e. subst (λ z. Q z w.services) (of_ok x y e) (h w.services);
  }
    where
      of_ok : (x y : A) → ok x ≡ ok y → x ≡ y
      of_ok x y e = cc

  pub fail-Learns :
      {A : Type 0} (Q : A → b.services.Db → Type 0) (e : Error)
      → Learns Q (fail {S = World b} {A = A} e)
  unfolding fail
  fail-Learns Q e = record { same = λ w. refl; learns = λ w x h. ground arith }

  pub require-Learns : (test : Bool) (e : Error) → Learns (λ _ _. test ≡ true) (require b test e)
  unfolding require
  require-Learns true e = return-Learns (λ _ _. true ≡ true) tt (λ _. refl)
  require-Learns false e = fail-Learns _ e

  answer-same :
      {A : Type 0} (w : World b) (a : Answer A) → (read_answer w a).1.services ≡ w.services
  answer-same w (done x) = refl
  answer-same w (fault e) = refl

  answer-value :
      {A : Type 0} (w : World b) (a : Answer A) (x : A) → (read_answer w a).0 ≡ ok x → a ≡ done x
  answer-value w (done y) x e = cc
  answer-value w (fault f) x e = ground arith

  -- What depends on the table alone.
  pub answer-Learns :
      {A : Type 0} (f : b.services.Db → Answer A)
      → Learns (λ x db. f db ≡ done x) (λ w. read_answer w (f w.services))
  answer-Learns f = record {
    same = λ w. answer-same w (f w.services);
    learns = λ w x e. answer-value w (f w.services) x e;
  }

  module _ (Rel : b.services.Db → b.services.Db → Type 0)
      (Rel_refl : (db : b.services.Db) → Rel db db) where
    -- Under `P` the step changes the table as `Rel` allows.
    pub record Leads {A : Type 0} (P : b.services.Db → Type 0) (m : C b A) : Type 0 where
      pub leads : (w : World b) → P w.services → Rel w.services (m w).1.services

    pub Learns-Leads :
        {A : Type 0} {P : b.services.Db → Type 0} {Q : A → b.services.Db → Type 0} {m : C b A}
        → Learns Q m
        → Leads P m
    Learns-Leads h = record {
      leads = λ w p. subst (Rel w.services) (sym (h.same w)) (Rel_refl w.services);
    }

    then_run-leads :
        {A B : Type 0} (P : b.services.Db → Type 0) (Q : A → b.services.Db → Type 0)
        (db : b.services.Db) (a : Result A × World b) (f : A → C b B)
        → a.1.services ≡ db
        → ((x : A) → a.0 ≡ ok x → Q x db)
        → P db
        → ((x : A) → Leads (λ d. P d × Q x d) (f x))
        → Rel db (then_run a f).1.services
    then_run-leads P Q db (ok x, w) f h q p g =
        subst (λ d. P d × Q x d → Rel d (f x w).1.services) h ((g x).leads w) (p, q x refl)
    then_run-leads P Q db (err x, w) f h q p g = subst (Rel db) (sym h) (Rel_refl db)

    pub >>=-Leads :
        {A B : Type 0} {P : b.services.Db → Type 0} {Q : A → b.services.Db → Type 0} {m : C b A}
        {f : A → C b B}
        → Learns Q m
        → ((x : A) → Leads (λ d. P d × Q x d) (f x))
        → Leads P (m >>= f)
    unfolding ◌>>=◌
    >>=-Leads {P} {Q} {m} {f} h g = record {
      leads = λ w p. then_run-leads P Q w.services (m w) f (h.same w) (h.learns w) p g;
    }

    pub >>-Leads :
        {B : Type 0} {P Q : b.services.Db → Type 0} {m : C b (Unit {0})} {k : C b B}
        → Learns (λ _. Q) m
        → Leads (λ d. P d × Q d) k
        → Leads P (m >> k)
    unfolding ◌>>◌
    >>-Leads {P} {Q} {m} {k} h g = record {
      leads = λ w p.
          then_run-leads P (λ _. Q) w.services (m w) (λ _. k) (h.same w) (h.learns w) p (λ _. g);
    }

    then_run-done :
        {A B : Type 0} (db : b.services.Db) (a : Result A × World b) (f : A → C b B)
        → Rel db a.1.services
        → ((x : A) → Quiet (f x))
        → Rel db (then_run a f).1.services
    then_run-done db (ok x, w) f h g = subst (Rel db) (sym ((g x).same w)) h
    then_run-done db (err e, w) f h g = h

    -- After the write only steps that read follow.
    pub >>-Done :
        {B : Type 0} {P : b.services.Db → Type 0} {m : C b (Unit {0})} {k : C b B}
        → Leads P m
        → Quiet k
        → Leads P (m >> k)
    unfolding ◌>>◌
    >>-Done {m} {k} h g = record {
      leads = λ w p. then_run-done w.services (m w) (λ _. k) (h.leads w p) (λ _. g);
    }

    stored-Rel :
        (w : World b) (a : Answer b.services.Db)
        → ((db : b.services.Db) → a ≡ done db → Rel w.services db)
        → Rel w.services (stored b w a).1.services
    unfolding stored
    stored-Rel w (done db) h = h db refl
    stored-Rel w (fault e) h = Rel_refl w.services

    pub write-Leads :
        {P : b.services.Db → Type 0} (f : b.services.Db → Answer b.services.Db)
        → ((db db' : b.services.Db) → P db → f db ≡ done db' → Rel db db')
        → Leads P (λ w. stored b w (f w.services))
    write-Leads f h = record {
      leads = λ w p. stored-Rel w (f w.services) (λ db' e. h w.services db' p e);
    }
