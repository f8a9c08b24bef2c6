-- ===== src/Store/Effect.antt =====
-- The result of a service's operation: a value or an error, and the state, which an error keeps as
-- the statements before it left it.
use edge_pilot.Base.{◌≡◌, refl}
use edge_pilot.Base.Text.{Text}
use edge_pilot.Store.Base.{Answer, done, fault}

-- The errors of the services, by what they tell the client. The status of `conflict` is 409.
pub data Error : Type 0 where
  database : Text → Error
  not_found unauthorized : Error
  bad_request : Text → Error
  conflict : Text → Error
  executor_offline : Error
  dispatch_failed : Text → Error
  -- An error that is none of the above, such as that of a cron expression.
  other_error : Error

pub data Result {ℓ} (A : Type ℓ) : Type ℓ where
  ok : A → Result A
  err : Error → Result A

abbrev pub M : Type 0 → Type 0 → Type 0
M S A = S → Result A × S

abbrev pub then_run : {S A B : Type 0} → Result A × S → (A → M S B) → Result B × S
then_run (ok a, s) f = f a s
then_run (err e, s) f = (err e, s)

infixl 5 ◌>>=◌ ◌>>◌
abbrev pub ◌>>=◌ : {S A B : Type 0} → M S A → (A → M S B) → M S B
◌>>=◌ m f s = then_run (m s) f

abbrev pub ◌>>◌ : {S B : Type 0} → M S (Unit {0}) → M S B → M S B
m >> k = m >>= λ _. k

abbrev pub return : {S A : Type 0} → A → M S A
return a s = (ok a, s)

abbrev pub fail : {S A : Type 0} → Error → M S A
fail e s = (err e, s)

abbrev pub read_answer : {S A : Type 0} → S → Answer A → Result A × S
read_answer s (done a) = (ok a, s)
read_answer s (fault e) = (err (database e), s)

-- A statement that only reads.
abbrev pub query : {S A : Type 0} → (S → Answer A) → M S A
query q s = read_answer s (q s)

abbrev pub exec_answer : {S A : Type 0} → S → Answer (S × A) → Result A × S
exec_answer s (done (s', a)) = (ok a, s')
exec_answer s (fault e) = (err (database e), s)

-- A statement that may change the state.
abbrev pub exec : {S A : Type 0} → (S → Answer (S × A)) → M S A
exec q s = exec_answer s (q s)

-- A relation between the states before and after, kept by every part of an operation.
module _ {S : Type 0} (R : S → S → Type 0) (R_refl : (s : S) → R s s)
    (R_trans : (s t u : S) → R s t → R t u → R s u) where
  abbrev pub Moves : {A : Type 0} → M S A → Type 0
  Moves m = (s : S) → R s (m s).1

  then_run-moves :
      {A B : Type 0} (s : S) (a : Result A × S) (f : A → M S B)
      → R s a.1
      → ((x : A) → Moves (f x))
      → R s (then_run a f).1
  then_run-moves s (ok x, t) f h g = R_trans s t (f x t).1 h (g x t)
  then_run-moves s (err e, t) f h g = h

  pub >>=-Moves :
      {A B : Type 0} (m : M S A) (f : A → M S B)
      → Moves m
      → ((x : A) → Moves (f x))
      → Moves (m >>= f)
  >>=-Moves m f h g s = then_run-moves s (m s) f (h s) g

  read_answer-moves : {A : Type 0} (s : S) (a : Answer A) → R s (read_answer s a).1
  read_answer-moves s (done a) = R_refl s
  read_answer-moves s (fault e) = R_refl s

  pub query-Moves : {A : Type 0} (q : S → Answer A) → Moves (query q)
  query-Moves q s = read_answer-moves s (q s)

  exec_answer-moves :
      {A : Type 0} (s : S) (o : Answer (S × A))
      → ((a : S × A) → o ≡ done a → R s a.0)
      → R s (exec_answer s o).1
  exec_answer-moves s (done a) h = h a refl
  exec_answer-moves s (fault e) h = R_refl s

  pub exec-Moves :
      {A : Type 0} (q : S → Answer (S × A))
      → ((s : S) (a : S × A) → q s ≡ done a → R s a.0)
      → Moves (exec q)
  exec-Moves q h s = exec_answer-moves s (q s) (h s)
