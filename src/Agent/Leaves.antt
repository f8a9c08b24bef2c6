-- ===== src/Agent/Leaves.antt =====
-- Rules for what holds after a step of the executor that returns.
use edge_pilot.Base.{◌≡◌, refl, subst, Bool, true, false, if◌then◌else◌, arith}
use edge_pilot.Agent.Host.{
  Backend, World, E, Outcome, returned, failed, unfinished, ExecError, then_run, rescue, ◌>>=◌,
  ◌>>◌, return, fail, on_failure,
}

returned_eq : {A : Type 0} (x y : A) → returned x ≡ returned y → x ≡ y
returned_eq x y e = cc

module _ {b : Backend} where
  -- From a world of which `P` holds, a step that returns leaves one of which `Q` holds, with its value.
  pub record Leaves {A : Type 0} (P : World b → Type 0) (Q : A → World b → Type 0) (m : E b A)
      : Type 0 where
    pub leaves : (w : World b) (x : A) → P w → (m w).0 ≡ returned x → Q x (m w).1

  then-leaves :
      {A B : Type 0} (Q : A → World b → Type 0) (R : B → World b → Type 0) (o : Outcome A × World b)
      (k : A → E b B) (y : B)
      → ((x : A) → o.0 ≡ returned x → Q x o.1)
      → ((x : A) → Leaves (Q x) R (k x))
      → (then_run o k).0 ≡ returned y
      → R y (then_run o k).1
  then-leaves Q R (returned x, v) k y h g e = (g x).leaves v y (h x refl) e
  then-leaves Q R (failed x, v) k y h g e = ground arith
  then-leaves Q R (unfinished, v) k y h g e = ground arith

  pub >>=-Leaves :
      {A B : Type 0} {P : World b → Type 0} {Q : A → World b → Type 0} {R : B → World b → Type 0}
      {m : E b A} {k : A → E b B}
      → Leaves P Q m
      → ((x : A) → Leaves (Q x) R (k x))
      → Leaves P R (m >>= k)
  unfolding ◌>>=◌
  >>=-Leaves {Q} {R} {m} {k} h g = record {
    leaves = λ w y p e. then-leaves Q R (m w) k y (λ x q. h.leaves w x p q) g e;
  }

  pub >>-Leaves :
      {B : Type 0} {P Q : World b → Type 0} {R : B → World b → Type 0} {m : E b (Unit {0})}
      {k : E b B}
      → Leaves P (λ _. Q) m
      → Leaves Q R k
      → Leaves P R (m >> k)
  unfolding ◌>>◌
  >>-Leaves {Q} {R} {m} {k} h g = record {
    leaves =
        λ w y p e. then-leaves (λ _. Q) R (m w) (λ _. k) y (λ x q. h.leaves w x p q) (λ _. g) e;
  }

  pub return-Leaves :
      {A : Type 0} (P : World b → Type 0) (Q : A → World b → Type 0) (x : A)
      → ((w : World b) → P w → Q x w)
      → Leaves P Q (return x)
  unfolding return
  return-Leaves {A} P Q x h = record {
    leaves = λ w y p e. subst (λ z. Q z w) (returned_eq x y e) (h w p);
  }

  pub fail-Leaves :
      {A : Type 0} (P : World b → Type 0) (Q : A → World b → Type 0) (e : ExecError)
      → Leaves P Q (fail {b = b} e)
  unfolding fail
  fail-Leaves P Q e = record { leaves = λ w y p h. ground arith }

  pub any-Leaves : {A : Type 0} (P : World b → Type 0) (m : E b A) → Leaves P (λ _ _. Unit {0}) m
  any-Leaves P m = record { leaves = λ w y p e. tt }

  pub if-Leaves :
      {A : Type 0} {P : World b → Type 0} {Q : A → World b → Type 0} (test : Bool) {m n : E b A}
      → (test ≡ true → Leaves P Q m)
      → (test ≡ false → Leaves P Q n)
      → Leaves P Q (if test then m else n)
  if-Leaves true h g = h refl
  if-Leaves false h g = g refl

  rescue-leaves :
      {A : Type 0} (P : World b → Type 0) (Q : A → World b → Type 0) (o : Outcome A × World b)
      (k : ExecError → E b A) (y : A)
      → ((x : A) → o.0 ≡ returned x → Q x o.1)
      → ((e : ExecError) → Leaves (λ _. Unit {0}) Q (k e))
      → (rescue o k).0 ≡ returned y
      → Q y (rescue o k).1
  rescue-leaves P Q (returned x, v) k y h g e = h y e
  rescue-leaves P Q (failed x, v) k y h g e = (g x).leaves v y tt e
  rescue-leaves P Q (unfinished, v) k y h g e = ground arith

  pub on_failure-Leaves :
      {A : Type 0} {P : World b → Type 0} {Q : A → World b → Type 0} {m : E b A}
      {k : ExecError → E b A}
      → Leaves P Q m
      → ((e : ExecError) → Leaves (λ _. Unit {0}) Q (k e))
      → Leaves P Q (on_failure m k)
  unfolding on_failure
  on_failure-Leaves {P} {Q} {m} {k} h g = record {
    leaves = λ w y p e. rescue-leaves P Q (m w) k y (λ x q. h.leaves w x p q) g e;
  }

  pub weaken-Leaves :
      {A : Type 0} {P : World b → Type 0} {Q R : A → World b → Type 0} {m : E b A}
      → ((x : A) (w : World b) → Q x w → R x w)
      → Leaves P Q m
      → Leaves P R m
  weaken-Leaves {m} k h = record { leaves = λ w y p e. k y (m w).1 (h.leaves w y p e) }
