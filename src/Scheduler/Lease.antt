-- ===== src/Scheduler/Lease.antt =====
-- Retries and leases: the helpers of internal/scheduler/application/service.go.
use edge_pilot.Base.{
  ℕ, zero, suc, ◌+◌, ◌-◌, ◌*◌, ◌^◌, ◌≤◌, ◌≡◌, refl, Bool, true, ◌&&◌, Option, none, some, [], ◌∷◌,
  leb, ltb, ◌<◌, if◌then◌else◌, arith,
}
use edge_pilot.Base.Int.{ℤ, pos, negsuc, ltb_ℤ, leb_ℤ, pos_part}
use edge_pilot.Base.Duration.{seconds, later_by, seconds-small}
use edge_pilot.Base.Text.{Text, codes, text_eq}
use edge_pilot.Cron.Calendar.{Time, second}
use edge_pilot.Model.Scheduler.{
  SchedulerJobRun, Payload, Value, null, text, int_value, float64, other,
}
use edge_pilot.Scheduler.Statements.{in_flight, reached}

unfoldable pub effective_max_retries : ℤ → ℤ → ℕ
effective_max_retries (negsuc v) fallback = 0
effective_max_retries (pos zero) fallback = pos_part fallback
effective_max_retries (pos (suc v)) fallback = suc v

unfoldable pub normalize_lease_timeout : ℤ → ℤ → ℤ
normalize_lease_timeout v fallback = if leb_ℤ v (pos 0) then fallback else v

-- The loop of `retryBackoff` from the round `i` on, with `left` rounds at most.
unfoldable pub backoff_loop : ℕ → ℕ → ℕ → ℕ → ℕ
backoff_loop zero i attempt s = s
backoff_loop (suc left) i attempt s =
    let rest = backoff_loop left (i + 1) attempt (s * 2) in
    if ltb i attempt && ltb i 6 then rest else s

-- In seconds. The test `i < 6` ends the loop before the sixth round.
unfoldable pub retry_backoff : ℕ → ℕ
unfolding backoff_loop
retry_backoff attempt = backoff_loop 6 1 (if ltb attempt 1 then 1 else attempt) 5

unfoldable pub payload_get : Text → Payload → Option Value
unfolding text_eq
payload_get key [] = none
payload_get key ((k, v) ∷ rest) = if text_eq k key then some v else payload_get key rest

unfoldable pub int_of_value : Option Value → ℤ
int_of_value none = pos 0
int_of_value (some null) = pos 0
int_of_value (some (text t)) = pos 0
int_of_value (some (int_value n)) = n
int_of_value (some (float64 n)) = n
int_of_value (some other) = pos 0

payload_lease : Option Payload → ℤ
unfolding int_of_value
payload_lease none = pos 0
payload_lease (some payload) = int_of_value (payload_get (codes "leaseTimeoutSec") payload)

-- In seconds.
unfoldable pub effective_lease_timeout : SchedulerJobRun → ℤ → ℤ
unfolding payload_lease
effective_lease_timeout run fallback =
    if ltb_ℤ (pos 0) run.lease_timeout_sec
    then run.lease_timeout_sec
    else if ltb_ℤ (pos 0) (payload_lease run.payload)
    then payload_lease run.payload
    else if leb_ℤ fallback (pos 0)
    then pos 60
    else fallback

-- `now.Add(time.Duration(timeout) * time.Second)`.
unfoldable pub lease_end : Time → ℤ → Time
unfolding seconds later_by
lease_end now timeout = later_by now (seconds timeout)

unfoldable pub should_fail_expired_run : SchedulerJobRun → Time → Bool
unfolding in_flight reached
should_fail_expired_run run now =
    in_flight run && (reached run.lease_expires_at now && ltb run.max_retries run.attempt)

effective_lease_timeout_positive :
    (run : SchedulerJobRun) (fallback : ℤ)
    → (n : ℕ) × (effective_lease_timeout run fallback ≡ pos (suc n))
unfolding effective_lease_timeout
effective_lease_timeout_positive run fallback =
    positive (effective_lease_timeout run fallback) (ground arith)
  where
    positive : (t : ℤ) → ltb_ℤ (pos 0) t ≡ true → (n : ℕ) × (t ≡ pos (suc n))
    positive (pos zero) h = ground arith
    positive (pos (suc n)) h = (n, refl)
    positive (negsuc n) h = ground arith

-- A lease of a run whose timeout in seconds, by the run, its payload or the configuration, fits a duration
-- ends at least a second after it begins.
pub lease_end-later :
    (run : SchedulerJobRun) (fallback : ℤ) (now : Time)
    → pos_part (effective_lease_timeout run fallback) < 9223372037
    → now + second ≤ lease_end now (effective_lease_timeout run fallback)
unfolding lease_end
lease_end-later run fallback now h =
    let (n, e) = effective_lease_timeout_positive run fallback in
    let small : suc n < 9223372037 = rw e at h in rw (e, seconds-small (suc n) small) (omega arith)

-- The delay before a retry is 5 seconds, doubled for each attempt before this one, up to 160 seconds.
pub retry_backoff_lem :
    (attempt : ℕ)
    → retry_backoff attempt
      ≡ 5 * 2 ^ (if leb attempt 1 then 0 else if leb 6 attempt then 5 else attempt - 1)
unfolding retry_backoff
retry_backoff_lem zero = refl
retry_backoff_lem (suc zero) = refl
retry_backoff_lem (suc (suc zero)) = refl
retry_backoff_lem (suc (suc (suc zero))) = refl
retry_backoff_lem (suc (suc (suc (suc zero)))) = refl
retry_backoff_lem (suc (suc (suc (suc (suc zero))))) = refl
retry_backoff_lem (suc (suc (suc (suc (suc (suc n)))))) = ground arith
