-- ===== src/Store/Program.antt =====
-- Sequences of steps whose parts stay shut, for operations of many steps: a property of a sequence is
-- proved by rules for its parts.
use edge_pilot.Store.Effect.{M, Error, ok, err, then_run}

infixl 5 ◌>>=◌ ◌>>◌
unfoldable pub ◌>>=◌ : {S A B : Type 0} → M S A → (A → M S B) → M S B
◌>>=◌ m f s = then_run (m s) f

unfoldable pub ◌>>◌ : {S B : Type 0} → M S (Unit {0}) → M S B → M S B
◌>>◌ m k s = then_run (m s) (λ _. k)

unfoldable pub return : {S A : Type 0} → A → M S A
return a s = (ok a, s)

unfoldable pub fail : {S A : Type 0} → Error → M S A
fail e s = (err e, s)
