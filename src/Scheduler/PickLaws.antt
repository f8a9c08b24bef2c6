-- ===== src/Scheduler/PickLaws.antt =====
-- What `pickExecutorID` of internal/scheduler/application/service.go picks, by either policy.
use edge_pilot.Base.{
  ℕ, zero, suc, ◌%◌, ◌<◌, ◌≡◌, refl, sym, ◌∙◌, ap, ◌⊎◌, inl, inr, Bool, true, false, Option, none,
  some, List, [], ◌∷◌, length, get_elem?, All, Bool-cases, arith,
}
use native.Mathlib.Nat.{suc-mod, mod-lt, zero-mod}
use edge_pilot.Base.Text.{Text, text_eq, text_eq_self, text_eq→eq, is_empty}
use edge_pilot.Store.Effect.{Result}
use edge_pilot.Model.Slot.{Slot}
use edge_pilot.Model.Scheduler.{SchedulerJobRun, SchedulerDispatchCursor}
use edge_pilot.Scheduler.Pick.{
  OnlineExecutor, is_instance_for, is_plain_for, first_match, or_else, pick_fixed, index_of, wrap,
  start_index, pick_round_robin, moved_cursor,
}

-- The first executor of a list that meets a condition, or that there is none.
abbrev Matches : (OnlineExecutor → Bool) → List OnlineExecutor → Option OnlineExecutor → Type 0
Matches p online none = All (λ x. p x ≡ false) online
Matches p online (some x) = (p x ≡ true) × ((i : ℕ) × (get_elem? online i ≡ some x))

first_match-Matches :
    (parse : Text → Result ℕ) (p : OnlineExecutor → Bool) (online : List OnlineExecutor)
    → Matches p online (first_match parse p online)
unfolding first_match
first_match-Matches parse p [] = tt
first_match-Matches parse p (x ∷ xs) = elim (Bool-cases (p x)) [
  | inl met ↦ rw met (met, (zero, refl))
  | inr unmet ↦ rw unmet (later (first_match parse p xs) (first_match-Matches parse p xs) unmet)
]
  where
    later : (o : Option OnlineExecutor) → Matches p xs o → p x ≡ false → Matches p (x ∷ xs) o
    later none m u = (u, m)
    later (some y) m u = (m.0, (suc m.1.0, m.1.1))

-- What a pick for the live slot of a service may be.
abbrev pub PicksLive :
    (Text → Result ℕ) → Slot → ℕ → List OnlineExecutor → Option OnlineExecutor → Type 0
PicksLive parse slot service online none =
    All (λ x. is_instance_for parse slot service x ≡ false) online
    × All (λ x. is_plain_for parse slot x ≡ false) online
PicksLive parse slot service online (some x) =
    ((i : ℕ) × (get_elem? online i ≡ some x))
    × ((is_instance_for parse slot service x ≡ true)
        ⊎ ((is_plain_for parse slot x ≡ true)
            × All (λ y. is_instance_for parse slot service y ≡ false) online))

-- The policy fixed_live_slot picks an executor of the list: an instance of the service in its live slot
-- where there is one, and otherwise an executor in that slot that is not an instance of a service. It picks
-- none only if there are neither.
pub pick_fixed-PicksLive :
    (parse : Text → Result ℕ) (slot : Slot) (service : ℕ) (online : List OnlineExecutor)
    → PicksLive parse slot service online (pick_fixed parse slot service online)
unfolding pick_fixed or_else
pick_fixed-PicksLive parse slot service online =
    either (first_match parse (is_instance_for parse slot service) online)
      (first_match parse (is_plain_for parse slot) online)
      (first_match-Matches parse (is_instance_for parse slot service) online)
      (first_match-Matches parse (is_plain_for parse slot) online)
  where
    either :
        (o o' : Option OnlineExecutor)
        → Matches (is_instance_for parse slot service) online o
        → Matches (is_plain_for parse slot) online o'
        → PicksLive parse slot service online (or_else parse o o')
    either (some x) o' m m' = (m.1, inl m.0)
    either none (some y) m m' = (m'.1, inr (m'.0, m))
    either none none m m' = (m, m')

-- The identifiers of a list tell its executors apart, and none is empty.
pub record HasKeys (online : List OnlineExecutor) : Type 0 where
  pub named :
      (i : ℕ) (x : OnlineExecutor) → get_elem? online i ≡ some x → is_empty x.executor_id ≡ false
  pub apart :
      (i j : ℕ) (x y : OnlineExecutor)
      → get_elem? online i ≡ some x
      → get_elem? online j ≡ some y
      → x.executor_id ≡ y.executor_id
      → i ≡ j

index_of-get_elem? :
    (online : List OnlineExecutor) (i : ℕ) (x : OnlineExecutor)
    → ((j : ℕ) (y : OnlineExecutor)
        → get_elem? online j ≡ some y
        → y.executor_id ≡ x.executor_id
        → j ≡ i)
    → get_elem? online i ≡ some x
    → index_of x.executor_id online ≡ some i
unfolding index_of
index_of-get_elem? [] i x only at = ground arith
index_of-get_elem? (y ∷ ys) zero x only at =
    let same : y ≡ x = cc in rw same (rw (text_eq_self x.executor_id) refl)
index_of-get_elem? (y ∷ ys) (suc i) x only at =
    elim (Bool-cases (text_eq y.executor_id x.executor_id)) [
      | inl same ↦ absurd (only zero y refl (text_eq→eq y.executor_id x.executor_id same))
      | inr differs ↦
          rw (differs, index_of-get_elem? ys i x (λ j z h e. pred (only (suc j) z h e)) at) refl
    ]
  where
    pred : {j : ℕ} → suc j ≡ suc i → j ≡ i
    pred h = omega arith

    absurd : zero ≡ suc i → index_of x.executor_id (y ∷ ys) ≡ some (suc i)
    absurd h = ground arith

get_elem?-below :
    {A : Type 0} (xs : List A) (i : ℕ) → i < length xs → (x : A) × (get_elem? xs i ≡ some x)
get_elem?-below [] i h = ground arith
get_elem?-below (x ∷ xs) zero h = (x, refl)
get_elem?-below (x ∷ xs) (suc i) h = get_elem?-below xs i (omega arith)

wrap-suc-mod : (k n : ℕ) → zero < n → wrap (suc (k % n)) n ≡ suc k % n
unfolding wrap
wrap-suc-mod k zero h = ground arith
wrap-suc-mod k (suc n) h = sym (suc-mod k (suc n))

-- The cursor of a job after `k` picks among the same executors.
pub cursor_after : SchedulerJobRun → List OnlineExecutor → ℕ → Option SchedulerDispatchCursor
cursor_after run online zero = none
cursor_after run online (suc k) =
    saved (cursor_after run online k) (pick_round_robin (cursor_after run online k) online)
  where
    saved : Option SchedulerDispatchCursor → Option OnlineExecutor → Option SchedulerDispatchCursor
    saved cursor none = cursor
    saved cursor (some x) = some (moved_cursor run x.executor_id cursor)

moved_cursor-last :
    (run : SchedulerJobRun) (id : Text) (c : Option SchedulerDispatchCursor)
    → (moved_cursor run id c).last_executor_id ≡ id
unfolding moved_cursor
moved_cursor-last run id none = refl
moved_cursor-last run id (some c) = refl

start_index-next :
    (online : List OnlineExecutor) (c : SchedulerDispatchCursor) (i : ℕ) (x : OnlineExecutor)
    → HasKeys online
    → get_elem? online i ≡ some x
    → c.last_executor_id ≡ x.executor_id
    → start_index (some c) online ≡ wrap (suc i) (length online)
unfolding start_index
start_index-next online c i x keys at last =
    rw
      (
        last,
        keys.named i x at,
        index_of-get_elem? online i x (λ j y h e. keys.apart j i y x h at e) at,
      )
      refl

start_index-cursor_after :
    (run : SchedulerJobRun) (online : List OnlineExecutor) (k : ℕ)
    → HasKeys online
    → zero < length online
    → start_index (cursor_after run online k) online ≡ k % length online
unfolding cursor_after pick_round_robin
start_index-cursor_after run online zero keys many = sym (zero-mod (length online))
start_index-cursor_after run online (suc k) keys many =
    let (x, at) = get_elem?-below online (k % length online) (mod-lt k many) in
    let here = start_index-cursor_after run online k keys many in
    rw (here, at)
      (start_index-next online (moved_cursor run x.executor_id (cursor_after run online k))
          (k % length online) x keys at
          (moved_cursor-last run x.executor_id (cursor_after run online k))
        ∙ wrap-suc-mod k (length online) many)

-- The policy round_robin takes turns: among the same executors, whose identifiers tell them apart, the pick
-- after `k` picks for a job is the executor at `k` modulo their number, so that each of them gets every
-- n-th run.
pub pick_round_robin_turns :
    (run : SchedulerJobRun) (online : List OnlineExecutor) (k : ℕ)
    → HasKeys online
    → zero < length online
    → pick_round_robin (cursor_after run online k) online ≡ get_elem? online (k % length online)
unfolding pick_round_robin
pick_round_robin_turns run online k keys many =
    ap (get_elem? online) (start_index-cursor_after run online k keys many)
