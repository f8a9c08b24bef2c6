-- ===== src/Release/Refused.antt =====
-- A release is not started while another of its service is active: `Start` and `Retry` of
-- internal/release/application/service.go with `HasActiveRelease` of
-- internal/release/infra/repository.go.
use edge_pilot.Base.{
  ℕ, ◌≡◌, refl, sym, ◌∙◌, ap, Bool, true, false, false≢true, none, some, List, [], ◌∷◌, arith,
}
use edge_pilot.Base.Text.{Text}
use edge_pilot.Cron.Calendar.{Time}
use edge_pilot.Store.Base.{Answer, done, fault}
use edge_pilot.Store.Entities.{found_none}
use edge_pilot.Store.Effect.{Result, ok, err, Error, then_run, read_answer}
use edge_pilot.Store.Program.{◌>>=◌, ◌>>◌, return, fail}
use edge_pilot.Model.Release.{Release, is_skipped}
use edge_pilot.Release.World.{Backend, World, R, ReleaseOutput, get_release}
use edge_pilot.Release.Traffic.{found}
use edge_pilot.Release.Queries.{
  is_active_of, some_row, find_releases, has_release, has_active_release, has_traffic_split_release,
  has_newer_successful_release,
}
use edge_pilot.Release.Start.{
  require, require_no_newer, refuse_active, start_unless, start_found, start, retry_unless,
  retry_found, retry,
}

module _ (b : Backend) where
  -- The operation fails, and changes nothing at all.
  unfoldable pub Refuses : {A : Type 0} → R b A → World b → Type 0
  Refuses m w = (e : Error) × (m w ≡ (err e, w))

  -- The operation only reads.
  unfoldable pub Reads : {A : Type 0} → R b A → World b → Type 0
  Reads m w = (m w).1 ≡ w

  then_run-Refuses :
      {A B : Type 0} (w : World b) (a : Result A × World b) (f : A → R b B)
      → a.1 ≡ w
      → ((x : A) → a.0 ≡ ok x → Refuses (f x) w)
      → (e : Error) × (then_run a f ≡ (err e, w))
  unfolding Refuses
  then_run-Refuses w (ok x, v) f h g = let r = g x refl in (r.0, ap (f x) h ∙ r.1)
  then_run-Refuses w (err e, v) f h g = (e, λ i. (err e, h i))

  >>=-Refuses :
      {A B : Type 0} (w : World b) (m : R b A) (f : A → R b B)
      → Reads m w
      → ((x : A) → (m w).0 ≡ ok x → Refuses (f x) w)
      → Refuses (m >>= f) w
  unfolding Refuses Reads ◌>>=◌
  >>=-Refuses w m f h g = then_run-Refuses w (m w) f h g

  >>-Refuses :
      {B : Type 0} (w : World b) (m : R b (Unit {0})) (k : R b B)
      → Reads m w
      → Refuses k w
      → Refuses (m >> k) w
  unfolding Refuses Reads ◌>>◌
  >>-Refuses w m k h g = then_run-Refuses w (m w) (λ _. k) h (λ _ _. g)

  fail-Refuses : (A : Type 0) (e : Error) (w : World b) → Refuses (fail {S = World b} {A = A} e) w
  unfolding Refuses fail
  fail-Refuses A e w = (e, refl)

  answer-Reads : {A : Type 0} (w : World b) (a : Answer A) → (read_answer w a).1 ≡ w
  answer-Reads w (done a) = refl
  answer-Reads w (fault e) = refl

  counted-Reads :
      (w : World b) (a : Answer (List Release))
      → (then_run (read_answer w a) (λ rows. return (some_row rows))).1 ≡ w
  unfolding return
  counted-Reads w (done rows) = refl
  counted-Reads w (fault e) = refl

  has_release-Reads : (p : Release → Bool) (w : World b) → Reads (has_release b p) w
  unfolding Reads has_release find_releases ◌>>=◌
  has_release-Reads p w = counted-Reads w (b.releases.find p none w.releases)

  require-Reads : (test : Bool) (e : Error) (w : World b) → Reads (require b test e) w
  unfolding Reads require return fail
  require-Reads true e w = refl
  require-Reads false e w = refl

  then_run-Reads :
      {A B : Type 0} (w : World b) (a : Result A × World b) (f : A → R b B)
      → a.1 ≡ w
      → ((x : A) → Reads (f x) w)
      → (then_run a f).1 ≡ w
  unfolding Reads
  then_run-Reads w (ok x, v) f h g = ap (λ u. (f x u).1) h ∙ g x
  then_run-Reads w (err e, v) f h g = h

  newer-Reads :
      (r : Release) (w : World b) (t : Bool)
      → is_skipped r.status ≡ t
      → Reads (require_no_newer b r) w
  unfolding Reads require_no_newer has_newer_successful_release ◌>>=◌ return
  newer-Reads r w true e = rw e (
      then_run-Reads w (has_release b _ w) _ (has_release-Reads _ w) (λ newer. require-Reads _ _ w))
  newer-Reads r w false e = rw e refl

  counted-some :
      (w : World b) (p : Release → Bool) (id : ℕ) (s : Release) (x : Bool)
      (a : Answer (List Release))
      → b.releases.find p none w.releases ≡ a
      → b.releases.row id w.releases ≡ some s
      → p s ≡ true
      → (then_run (read_answer w a) (λ rows. return (some_row rows))).0 ≡ ok x
      → x ≡ true
  unfolding return some_row
  counted-some w p id s x (done []) e h sat q =
      elim (false≢true (sym (found_none b.releases p w.releases e id s h) ∙ sat)) [ ]
  counted-some w p id s x (done (y ∷ ys)) e h sat q = cc
  counted-some w p id s x (fault f) e h sat q = ground arith

  has_release-some :
      (p : Release → Bool) (w : World b) (id : ℕ) (s : Release) (x : Bool)
      → b.releases.row id w.releases ≡ some s
      → p s ≡ true
      → (has_release b p w).0 ≡ ok x
      → x ≡ true
  unfolding has_release find_releases ◌>>=◌
  has_release-some p w id s x h sat q =
      counted-some w p id s x (b.releases.find p none w.releases) refl h sat q

  refuse_active-Refuses :
      (service : ℕ) (w : World b)
      → Refuses (has_traffic_split_release b service >>= refuse_active b) w
  unfolding has_traffic_split_release refuse_active
  refuse_active-Refuses service w =
      >>=-Refuses w (has_release b _) (refuse_active b) (has_release-Reads _ w)
        (λ split _. fail-Refuses _ _ w)

  module _ (id : ℕ) (operator : Text) (now : Time) (w : World b) (other : ℕ) (s : Release)
      (there : b.releases.row other w.releases ≡ some s) where
    start_found-Refuses :
        (r : Release)
        → is_active_of r.service_id s ≡ true
        → Refuses (start_found b operator now r) w
    unfolding start_found has_active_release start_unless
    start_found-Refuses r active = >>-Refuses w _ _ (require-Reads _ _ w) (
        >>-Refuses w _ _ (newer-Reads r w (is_skipped r.status) refl) (
          >>=-Refuses w (has_release b (is_active_of r.service_id)) _ (has_release-Reads _ w) λ x q.
            rw (has_release-some (is_active_of r.service_id) w other s x there active q)
              (refuse_active-Refuses r.service_id w)))

    retry_found-Refuses :
        (r : Release)
        → is_active_of r.service_id s ≡ true
        → Refuses (retry_found b operator now r) w
    unfolding retry_found has_active_release retry_unless
    retry_found-Refuses r active = >>-Refuses w _ _ (require-Reads _ _ w) (
        >>=-Refuses w (has_release b (is_active_of r.service_id)) _ (has_release-Reads _ w) λ x q.
          rw (has_release-some (is_active_of r.service_id) w other s x there active q)
            (fail-Refuses _ _ w))

    found-Refuses :
        (k : Release → R b ReleaseOutput) (r : Release)
        → b.releases.first id w.releases ≡ done (some r)
        → Refuses (k r) w
        → Refuses (get_release b id >>= λ o. found b o k) w
    unfolding Refuses get_release found ◌>>=◌
    found-Refuses k r read h = rw read h

    -- While a release of the service is active (it is being dispatched or deployed, or takes a part of the
    -- traffic), Start and Retry of a release of that service fail and change nothing at all.
    pub active_service-Refuses :
        (r : Release)
        → b.releases.first id w.releases ≡ done (some r)
        → is_active_of r.service_id s ≡ true
        → Refuses (start b id operator now) w × Refuses (retry b id operator now) w
    unfolding start retry
    active_service-Refuses r read active = (
      found-Refuses (start_found b operator now) r read (start_found-Refuses r active),
      found-Refuses (retry_found b operator now) r read (retry_found-Refuses r active),
    )
