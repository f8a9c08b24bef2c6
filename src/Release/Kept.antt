-- ===== src/Release/Kept.antt =====
-- Rules for the operations of internal/release/application/service.go: what happens to the table of
-- releases, step by step, whether an operation succeeds or fails on the way.
use edge_pilot.Base.{
  ℕ, ◌≡◌, refl, sym, subst, Bool, true, false, Option, none, some, List, [], ◌∷◌, if◌then◌else◌,
}
use edge_pilot.Store.Base.{Answer, done, fault}
use edge_pilot.Store.Entities.{found_none}
use edge_pilot.Store.Effect.{Result, ok, err, then_run, read_answer, not_found}
use edge_pilot.Store.Program.{◌>>=◌, ◌>>◌, return}
use edge_pilot.Model.Release.{Release}
use edge_pilot.Release.World.{Backend, World, R, get_release, update_release, stored_release}
use edge_pilot.Release.Traffic.{found}
use edge_pilot.Release.Queries.{each, some_row, find_releases, has_release}
use edge_pilot.Release.Quiet.{Quiet, fail-Quiet, return-Quiet}

-- No row satisfies a condition.
abbrev pub NoRow : (b : Backend) → (Release → Bool) → b.releases.Db → Type 0
NoRow b p db = (id : ℕ) (r : Release) → b.releases.row id db ≡ some r → p r ≡ false

-- `Rel` is what is allowed to happen to the table.
module _ (b : Backend) (Rel : b.releases.Db → b.releases.Db → Type 0)
    (Rel_refl : (db : b.releases.Db) → Rel db db)
    (Rel_trans : (db db' db'' : b.releases.Db) → Rel db db' → Rel db' db'' → Rel db db'') where
  Rel_same : (db db' : b.releases.Db) → db' ≡ db → Rel db db'
  Rel_same db db' e = subst (Rel db) (sym e) (Rel_refl db)

  -- Under the condition `P` the step keeps the rows, and `P`.
  pub record Holds (P : b.releases.Db → Type 0) {A : Type 0} (m : R b A) : Type 0 where
    pub holds : (w : World b) → P w.releases → Rel w.releases (m w).1.releases × P (m w).1.releases

  -- Under the condition `P` the step keeps the rows.
  pub record Ends (P : b.releases.Db → Type 0) {A : Type 0} (m : R b A) : Type 0 where
    pub ends : (w : World b) → P w.releases → Rel w.releases (m w).1.releases

  -- The step keeps the rows from every state.
  pub record Keeps {A : Type 0} (m : R b A) : Type 0 where
    pub keeps_rows : (w : World b) → Rel w.releases (m w).1.releases

  then_run-Done :
      {A B : Type 0} (db : b.releases.Db) (a : Result A × World b) (f : A → R b B)
      → Rel db a.1.releases
      → ((x : A) → Quiet b (f x))
      → Rel db (then_run a f).1.releases
  then_run-Done db (ok x, w) f h g =
      Rel_trans db w.releases (f x w).1.releases h
        (Rel_same w.releases (f x w).1.releases ((g x).keeps w))
  then_run-Done db (err e, w) f h g = h

  module _ {P : b.releases.Db → Type 0} where
    pub Quiet-Holds : {A : Type 0} {m : R b A} → Quiet b m → Holds P m
    Quiet-Holds {m} q = record {
      holds =
          λ w p. (Rel_same w.releases (m w).1.releases (q.keeps w), subst P (sym (q.keeps w)) p);
    }

    pub Holds-Ends : {A : Type 0} {m : R b A} → Holds P m → Ends P m
    Holds-Ends h = record { ends = λ w p. (h.holds w p).0 }

    pub Quiet-Ends : {A : Type 0} {m : R b A} → Quiet b m → Ends P m
    Quiet-Ends {m} q = Holds-Ends (Quiet-Holds q)

    then_run-Ends :
        {A B : Type 0} (db : b.releases.Db) (a : Result A × World b) (f : A → R b B)
        → Rel db a.1.releases × P a.1.releases
        → ((x : A) → Ends P (f x))
        → Rel db (then_run a f).1.releases
    then_run-Ends db (ok x, w) f h g =
        Rel_trans db w.releases (f x w).1.releases h.0 ((g x).ends w h.1)
    then_run-Ends db (err e, w) f h g = h.0

    pub >>=-Ends :
        {A B : Type 0} {m : R b A} {f : A → R b B}
        → Holds P m
        → ((x : A) → Ends P (f x))
        → Ends P (m >>= f)
    unfolding ◌>>=◌
    >>=-Ends {m} {f} h g = record { ends = λ w p. then_run-Ends w.releases (m w) f (h.holds w p) g }

    pub >>-Ends :
        {B : Type 0} {m : R b (Unit {0})} {k : R b B} → Holds P m → Ends P k → Ends P (m >> k)
    unfolding ◌>>◌
    >>-Ends {m} {k} h g = record {
      ends = λ w p. then_run-Ends w.releases (m w) (λ _. k) (h.holds w p) (λ _. g);
    }

    then_run-Holds :
        {A B : Type 0} (db : b.releases.Db) (a : Result A × World b) (f : A → R b B)
        → Rel db a.1.releases × P a.1.releases
        → ((x : A) → Holds P (f x))
        → Rel db (then_run a f).1.releases × P (then_run a f).1.releases
    then_run-Holds db (ok x, w) f h g =
        let l = (g x).holds w h.1 in (Rel_trans db w.releases (f x w).1.releases h.0 l.0, l.1)
    then_run-Holds db (err e, w) f h g = h

    pub >>=-Holds :
        {A B : Type 0} {m : R b A} {f : A → R b B}
        → Holds P m
        → ((x : A) → Holds P (f x))
        → Holds P (m >>= f)
    unfolding ◌>>=◌
    >>=-Holds {m} {f} h g = record {
      holds = λ w p. then_run-Holds w.releases (m w) f (h.holds w p) g;
    }

    pub >>-Holds :
        {B : Type 0} {m : R b (Unit {0})} {k : R b B} → Holds P m → Holds P k → Holds P (m >> k)
    unfolding ◌>>◌
    >>-Holds {m} {k} h g = record {
      holds = λ w p. then_run-Holds w.releases (m w) (λ _. k) (h.holds w p) (λ _. g);
    }

    -- After the last change only quiet steps follow.
    pub >>-Done :
        {B : Type 0} {m : R b (Unit {0})} {k : R b B} → Ends P m → Quiet b k → Ends P (m >> k)
    unfolding ◌>>◌
    >>-Done {m} {k} h g = record {
      ends = λ w p. then_run-Done w.releases (m w) (λ _. k) (h.ends w p) (λ _. g);
    }

    pub if-Ends :
        {A : Type 0} (t : Bool) {m n : R b A}
        → (t ≡ true → Ends P m)
        → (t ≡ false → Ends P n)
        → Ends P (if t then m else n)
    if-Ends true h g = h refl
    if-Ends false h g = g refl

    pub if-Holds :
        {A : Type 0} (t : Bool) {m n : R b A}
        → (t ≡ true → Holds P m)
        → (t ≡ false → Holds P n)
        → Holds P (if t then m else n)
    if-Holds true h g = h refl
    if-Holds false h g = g refl

  pub Quiet-Keeps : {A : Type 0} {m : R b A} → Quiet b m → Keeps m
  Quiet-Keeps {m} q = record { keeps_rows = λ w. Rel_same w.releases (m w).1.releases (q.keeps w) }

  pub Ends-Keeps :
      {P : b.releases.Db → Type 0} {A : Type 0} {m : R b A}
      → Ends P m
      → ((db : b.releases.Db) → P db)
      → Keeps m
  Ends-Keeps h p = record { keeps_rows = λ w. h.ends w (p w.releases) }

  then_run-Keeps :
      {A B : Type 0} (db : b.releases.Db) (a : Result A × World b) (f : A → R b B)
      → Rel db a.1.releases
      → ((x : A) → Keeps (f x))
      → Rel db (then_run a f).1.releases
  then_run-Keeps db (ok x, w) f h g =
      Rel_trans db w.releases (f x w).1.releases h ((g x).keeps_rows w)
  then_run-Keeps db (err e, w) f h g = h

  pub >>=-Keeps :
      {A B : Type 0} {m : R b A} {f : A → R b B}
      → Keeps m
      → ((x : A) → Keeps (f x))
      → Keeps (m >>= f)
  unfolding ◌>>=◌
  >>=-Keeps {m} {f} h g = record {
    keeps_rows = λ w. then_run-Keeps w.releases (m w) f (h.keeps_rows w) g;
  }

  pub >>-Keeps : {B : Type 0} {m : R b (Unit {0})} {k : R b B} → Keeps m → Keeps k → Keeps (m >> k)
  unfolding ◌>>◌
  >>-Keeps {m} {k} h g = record {
    keeps_rows = λ w. then_run-Keeps w.releases (m w) (λ _. k) (h.keeps_rows w) (λ _. g);
  }

  pub if-Keeps :
      {A : Type 0} (t : Bool) {m n : R b A}
      → (t ≡ true → Keeps m)
      → (t ≡ false → Keeps n)
      → Keeps (if t then m else n)
  if-Keeps true h g = h refl
  if-Keeps false h g = g refl

  -- A loop whose body keeps the rows.
  pub each-Keeps :
      {A : Type 0} (body : A → R b (Unit {0})) (xs : List A)
      → ((x : A) → Keeps (body x))
      → Keeps (each b body xs)
  unfolding each
  each-Keeps body [] h = Quiet-Keeps (return-Quiet b tt)
  each-Keeps body (x ∷ xs) h = >>-Keeps (h x) (each-Keeps body xs h)

  -- After a step under `P` only steps that keep the rows from every state.
  pub >>-After :
      {P : b.releases.Db → Type 0} {B : Type 0} {m : R b (Unit {0})} {k : R b B}
      → Ends P m
      → Keeps k
      → Ends P (m >> k)
  unfolding ◌>>◌
  >>-After {m} {k} h g = record {
    ends = λ w p. then_run-Keeps w.releases (m w) (λ _. k) (h.ends w p) (λ _. g);
  }

  -- Whether there is a row that satisfies a condition is judged with the table as it was read.
  counted-Ends :
      {A : Type 0} (P : b.releases.Db → Type 0) (p : Release → Bool) (f : Bool → R b A)
      (w : World b) (a : Answer (List Release))
      → b.releases.find p none w.releases ≡ a
      → P w.releases
      → Ends P (f true)
      → Ends (λ db. P db × NoRow b p db) (f false)
      → Rel w.releases
          (then_run (then_run (read_answer w a) (λ rows. return (some_row rows))) f).1.releases
  unfolding some_row return
  counted-Ends P p f w (done []) e h yes_ no_ = no_.ends w (h, found_none b.releases p w.releases e)
  counted-Ends P p f w (done (x ∷ xs)) e h yes_ no_ = yes_.ends w h
  counted-Ends P p f w (fault x) e h yes_ no_ = Rel_refl w.releases

  pub has_release-Ends :
      {A : Type 0} (P : b.releases.Db → Type 0) (p : Release → Bool) (f : Bool → R b A)
      → Ends P (f true)
      → Ends (λ db. P db × NoRow b p db) (f false)
      → Ends P (has_release b p >>= f)
  unfolding has_release find_releases ◌>>=◌
  has_release-Ends P p f yes_ no_ = record {
    ends = λ w h. counted-Ends P p f w (b.releases.find p none w.releases) refl h yes_ no_;
  }

  stored_release-Rel :
      (w : World b) (a : Answer b.releases.Db)
      → ((db : b.releases.Db) → a ≡ done db → Rel w.releases db)
      → Rel w.releases (stored_release b w a).1.releases
  unfolding stored_release
  stored_release-Rel w (done db) h = h db refl
  stored_release-Rel w (fault e) h = Rel_refl w.releases

  -- An update keeps the rows where the table allows it.
  pub update_release-Ends :
      (P : b.releases.Db → Type 0) (r : Release)
      → ((db db' : b.releases.Db) → P db → b.releases.save r db ≡ done db' → Rel db db')
      → Ends P (update_release b r)
  unfolding update_release
  update_release-Ends P r k = record {
    ends =
        λ w p. stored_release-Rel w (b.releases.save r w.releases) (λ db' e. k w.releases db' p e);
  }

  read-Rel :
      {A : Type 0} (w : World b) (id : ℕ) (f : Option Release → R b A) (a : Answer (Option Release))
      → b.releases.first id w.releases ≡ a
      → ((o : Option Release)
          → b.releases.row id w.releases ≡ o
          → Rel w.releases (f o w).1.releases)
      → Rel w.releases (then_run (read_answer w a) f).1.releases
  read-Rel w id f (done o) e h = h o (sym (b.releases.first_row id w.releases o e))
  read-Rel w id f (fault x) e h = Rel_refl w.releases

  -- What an operation does with a release it has read is judged with that row still in the table.
  pub get_release-Keeps :
      {A : Type 0} (id : ℕ) (f : Option Release → R b A)
      → ((o : Option Release) → Ends (λ db. b.releases.row id db ≡ o) (f o))
      → Keeps (get_release b id >>= f)
  unfolding ◌>>=◌ get_release
  get_release-Keeps id f h = record {
    keeps_rows = λ w. read-Rel w id f (b.releases.first id w.releases) refl (λ o e. (h o).ends w e);
  }

  found-Ends :
      {A : Type 0} (id : ℕ) (k : Release → R b A) (o : Option Release)
      → ((r : Release) → Ends (λ db. b.releases.row id db ≡ some r) (k r))
      → Ends (λ db. b.releases.row id db ≡ o) (found b o k)
  unfolding found
  found-Ends id k none h = Quiet-Ends (fail-Quiet b not_found)
  found-Ends id k (some r) h = h r

  -- The shape of the operations on one release.
  pub get_found-Keeps :
      {A : Type 0} (id : ℕ) (k : Release → R b A)
      → ((r : Release) → Ends (λ db. b.releases.row id db ≡ some r) (k r))
      → Keeps (get_release b id >>= λ o. found b o k)
  get_found-Keeps id k h = get_release-Keeps id (λ o. found b o k) (λ o. found-Ends id k o h)
