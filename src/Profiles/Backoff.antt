-- ===== src/Profiles/Backoff.antt =====
-- packages/shared/src/nostr/utils/profile-fetch-backoff.ts: the retry ledger of profile fetches that
-- returned no profile. Times are milliseconds.
pub mod Laws
use livelier.Base.{ℕ, ◌+◌, ◌-◌, ◌*◌, ◌/◌, ◌^◌, min, String, Bool, false, Option, none, some, leb}
use livelier.Base.Dict.{Dict, lookup, insert}

pub record FailedProfileFetch : Type 0 where
  pub attempts : ℕ
  pub next_retry_at : ℕ

abbrev pub profile_retry_base_ms : ℕ
profile_retry_base_ms = 30000

abbrev pub profile_retry_max_ms : ℕ
profile_retry_max_ms = 300000

abbrev pub profile_retry_max_attempts : ℕ
profile_retry_max_attempts = 6

abbrev pub profile_retry_bucket_ms : ℕ
profile_retry_bucket_ms = 30000

-- `Math.ceil(n / bucket) * bucket`
unfoldable pub round_up : ℕ → ℕ → ℕ
round_up n bucket = (n + bucket - 1) / bucket * bucket

unfoldable pub has_exhausted_profile_retries : Option FailedProfileFetch → Bool
has_exhausted_profile_retries none = false
has_exhausted_profile_retries (some failure) = leb profile_retry_max_attempts failure.attempts

-- `failures.get(pubkey)?.attempts ?? 0`
abbrev pub attempts_of : Option FailedProfileFetch → ℕ
attempts_of none = 0
attempts_of (some failure) = failure.attempts

unfoldable pub retry_delay : ℕ → ℕ
retry_delay attempts = min (profile_retry_base_ms * 2 ^ (attempts - 1)) profile_retry_max_ms

-- The entry that a failure writes.
unfoldable pub next_failure : Option FailedProfileFetch → ℕ → FailedProfileFetch
unfolding retry_delay round_up
next_failure before now =
    let attempts = attempts_of before + 1 in
    record {
      attempts = attempts;
      next_retry_at = round_up (now + retry_delay attempts) profile_retry_bucket_ms;
    }

-- The ledger after the failure; the function of the source also returns the new entry.
unfoldable pub record_failed_profile_fetch :
    Dict FailedProfileFetch → String → ℕ → Dict FailedProfileFetch
unfolding next_failure
record_failed_profile_fetch failures pubkey now =
    insert pubkey (next_failure (lookup pubkey failures) now) failures
