-- ===== src/Profiles/Backoff/Laws.antt =====
-- The retry ladder of profile-fetch-backoff.ts: its bounds, its cap, and how retries coalesce.
use livelier.Base.{
  ℕ, zero, suc, ◌+◌, ◌-◌, ◌*◌, ◌%◌, ◌^◌, ◌≤◌, ◌<◌, min, ◌≢◌, ◌≡◌, refl, ap, sym, ◌∙◌, leb, List, [],
  ◌∷◌, length, String, Option, none, some, arith, ◌==◌, if◌then◌else◌, eq_iff, eq_refl,
}
use native.Mathlib.Nat.{pow-suc}
use livelier.Base.Numbers.{pow2-pos}
use livelier.Base.Dict.{Dict, lookup, lookup-insert}
use livelier.Profiles.Backoff.{
  FailedProfileFetch, profile_retry_base_ms, profile_retry_max_ms, profile_retry_bucket_ms,
  profile_retry_max_attempts, round_up, has_exhausted_profile_retries, attempts_of, retry_delay,
  next_failure, record_failed_profile_fetch,
}

pub retry_delay_bounds :
    (attempts : ℕ)
    → (profile_retry_base_ms ≤ retry_delay attempts) × (retry_delay attempts ≤ profile_retry_max_ms)
unfolding retry_delay
retry_delay_bounds attempts = (omega (arith, pow2-pos (attempts - 1)), omega arith)

pub round_up_bounds :
    (n : ℕ)
    → (n ≤ round_up n profile_retry_bucket_ms)
      × (round_up n profile_retry_bucket_ms < n + profile_retry_bucket_ms)
      × (round_up n profile_retry_bucket_ms % profile_retry_bucket_ms ≡ 0)
unfolding round_up
round_up_bounds n = (omega arith, omega arith, omega arith)

retry_delay_at :
    (n : ℕ) → retry_delay (suc n) ≡ min (profile_retry_base_ms * 2 ^ n) profile_retry_max_ms
unfolding retry_delay
retry_delay_at n = let e : suc n - 1 ≡ n = omega arith in rw e

-- The cooldown doubles from one attempt to the next, up to the cap.
pub retry_delay-suc :
    (n : ℕ) → retry_delay (suc (suc n)) ≡ min (2 * retry_delay (suc n)) profile_retry_max_ms
retry_delay-suc n = omega (arith, retry_delay_at n, retry_delay_at (suc n), pow-suc 2 n, pow2-pos n)

-- The slow lane: from the fifth attempt on the cooldown is the cap.
pub retry_delay_capped : (n : ℕ) → 5 ≤ n → retry_delay n ≡ profile_retry_max_ms
retry_delay_capped zero h = absurd (omega arith)
retry_delay_capped (suc (suc (suc (suc (suc n))))) h = omega (
  arith,
  retry_delay_at (suc (suc (suc (suc n)))),
  pow-suc 2 n,
  pow-suc 2 (suc n),
  pow-suc 2 (suc (suc n)),
  pow-suc 2 (suc (suc (suc n))),
  pow2-pos n,
)
retry_delay_capped _ h = absurd (omega arith)

pub lookup-record_failed_profile_fetch :
    (failures : Dict FailedProfileFetch) (k j : String) (now : ℕ)
    → lookup j (record_failed_profile_fetch failures k now)
      ≡ (if k == j then some (next_failure (lookup k failures) now) else lookup j failures)
unfolding record_failed_profile_fetch
lookup-record_failed_profile_fetch failures k j now =
    lookup-insert k j (next_failure (lookup k failures) now) failures

pub next_failure_bounds :
    (before : Option FailedProfileFetch) (now : ℕ)
    → (now + profile_retry_base_ms ≤ (next_failure before now).next_retry_at)
      × ((next_failure before now).next_retry_at
          < now + profile_retry_max_ms + profile_retry_bucket_ms)
      × ((next_failure before now).next_retry_at % profile_retry_bucket_ms ≡ 0)
unfolding next_failure
next_failure_bounds before now =
    let due = now + retry_delay (attempts_of before + 1) in
    let (low, high) = retry_delay_bounds (attempts_of before + 1) in
    let (above, below, multiple) = round_up_bounds due in (omega arith, omega arith, multiple)

-- What a failure at `now` leaves in the ledger.
pub record Recorded (failures after : Dict FailedProfileFetch) (pubkey : String) (now : ℕ)
    : Type 0 where
  pub entry : FailedProfileFetch
  pub written : lookup pubkey after ≡ some entry
  pub counted : entry.attempts ≡ attempts_of (lookup pubkey failures) + 1
  pub not_before : now + profile_retry_base_ms ≤ entry.next_retry_at
  pub not_after : entry.next_retry_at < now + profile_retry_max_ms + profile_retry_bucket_ms
  pub aligned : entry.next_retry_at % profile_retry_bucket_ms ≡ 0
  pub others : (j : String) → pubkey ≢ j → lookup j after ≡ lookup j failures

-- A failure counts one more attempt of its pubkey, sets the next retry between the base cooldown and
-- the cap plus one bucket from now, on a bucket boundary, and leaves every other entry alone.
pub record_failed_profile_fetch-Recorded :
    (failures : Dict FailedProfileFetch) (pubkey : String) (now : ℕ)
    → Recorded failures (record_failed_profile_fetch failures pubkey now) pubkey now
unfolding record_failed_profile_fetch
record_failed_profile_fetch-Recorded failures pubkey now =
    let old = lookup pubkey failures in
    let (low, high, multiple) = next_failure_bounds old now in
    record {
      entry = next_failure old now;
      written = simp (lookup-insert, eq_refl);
      counted = refl;
      not_before = omega arith;
      not_after = omega arith;
      aligned = multiple;
      others = λ j ne.
          ground (arith, eq_iff pubkey j, lookup-insert pubkey j (next_failure old now) failures);
    }

round_up_bucket :
    (n k : ℕ)
    → k * profile_retry_bucket_ms < n
    → n ≤ (k + 1) * profile_retry_bucket_ms
    → round_up n profile_retry_bucket_ms ≡ (k + 1) * profile_retry_bucket_ms
unfolding round_up
round_up_bucket n k a b = omega arith

-- Two failures whose due instants fall into one bucket are retried at one instant.
pub next_retry_coalesces :
    (before before' : Option FailedProfileFetch) (now now' k : ℕ)
    → k * profile_retry_bucket_ms < now + retry_delay (attempts_of before + 1)
    → now + retry_delay (attempts_of before + 1) ≤ (k + 1) * profile_retry_bucket_ms
    → k * profile_retry_bucket_ms < now' + retry_delay (attempts_of before' + 1)
    → now' + retry_delay (attempts_of before' + 1) ≤ (k + 1) * profile_retry_bucket_ms
    → (next_failure before now).next_retry_at ≡ (next_failure before' now').next_retry_at
unfolding next_failure
next_retry_coalesces before before' now now' k a b c d =
    round_up_bucket (now + retry_delay (attempts_of before + 1)) k a b
    ∙ sym (round_up_bucket (now' + retry_delay (attempts_of before' + 1)) k c d)

-- A run of failures of one pubkey at the given times.
unfoldable pub record_times : Dict FailedProfileFetch → String → List ℕ → Dict FailedProfileFetch
record_times failures pubkey [] = failures
record_times failures pubkey (now ∷ times) =
    record_times (record_failed_profile_fetch failures pubkey now) pubkey times

attempts-record :
    (failures : Dict FailedProfileFetch) (pubkey : String) (now : ℕ)
    → attempts_of (lookup pubkey (record_failed_profile_fetch failures pubkey now))
      ≡ attempts_of (lookup pubkey failures) + 1
unfolding record_failed_profile_fetch
attempts-record failures pubkey now = simp (lookup-insert, eq_refl)

attempts-record_times :
    (failures : Dict FailedProfileFetch) (pubkey : String) (times : List ℕ)
    → attempts_of (lookup pubkey (record_times failures pubkey times))
      ≡ attempts_of (lookup pubkey failures) + length times
unfolding record_times
attempts-record_times failures pubkey [] = omega arith
attempts-record_times failures pubkey (now ∷ times) = omega (
  arith,
  attempts-record_times (record_failed_profile_fetch failures pubkey now) pubkey times,
  attempts-record failures pubkey now,
)

exhausted_of :
    (o : Option FailedProfileFetch) (n : ℕ)
    → attempts_of o ≡ n
    → has_exhausted_profile_retries o ≡ leb profile_retry_max_attempts n
unfolding has_exhausted_profile_retries
exhausted_of none n e = ground arith
exhausted_of (some f) n e = ground arith

-- A pubkey that starts with no entry reaches the slow lane with its sixth failure, not before.
pub record_times-exhausted :
    (failures : Dict FailedProfileFetch) (pubkey : String) (times : List ℕ)
    → lookup pubkey failures ≡ none
    → has_exhausted_profile_retries (lookup pubkey (record_times failures pubkey times))
      ≡ leb profile_retry_max_attempts (length times)
record_times-exhausted failures pubkey times e =
    exhausted_of (lookup pubkey (record_times failures pubkey times)) (length times)
      (omega (arith, attempts-record_times failures pubkey times, ap attempts_of e))
