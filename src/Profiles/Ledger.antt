-- ===== src/Profiles/Ledger.antt =====
-- packages/shared/src/nostr/services/profile-request-coordinator.ts, the functions in front of the
-- class: how pubkeys are split into cache hits and fetches, and how a batch settles.
pub mod Laws
use livelier.Base.{
  ℕ, String, Bool, true, false, Option, none, some, List, [], ◌∷◌, ◌++◌, ltb, leb, if◌then◌else◌,
}
use livelier.Base.Dict.{Dict, lookup, insert, erase}
use livelier.Base.Keys.{mem, remove}
use livelier.Profiles.Backoff.{FailedProfileFetch, record_failed_profile_fetch}
use livelier.Profiles.Cache.Info.{ProfileInfo}
use livelier.Profiles.Cache.Interface.{ProfileCacheLike}

pub record PubkeyPartition : Type 0 where
  pub cached_profiles : Dict ProfileInfo
  pub missing_pubkeys : List String

-- `failure && now < failure.nextRetryAt`
unfoldable pub is_cooling : ℕ → Option FailedProfileFetch → Bool
is_cooling now none = false
is_cooling now (some failure) = ltb now failure.next_retry_at

-- The state that a settling batch changes; `profiles` is the result of the function.
pub record Settled (C : Type 0) : Type 0 where
  pub cache : C
  pub requested : List String
  pub failures : Dict FailedProfileFetch
  pub profiles : Dict ProfileInfo

module _ (P : ProfileCacheLike) where
  open P use {Cache, has_profile, get_profile, store_profile}

  -- `cache.hasProfile(pubkey) ? cache.getProfile(pubkey) : null`
  unfoldable pub read_cached : ℕ → String → Cache → Option ProfileInfo × Cache
  read_cached now pubkey c =
      let (known, c') = has_profile now pubkey c in
      if known then get_profile now pubkey c' else (none, c')

  -- One round of the loop of `partitionPubkeys`.
  unfoldable pub partition_step :
      List String
      → Dict FailedProfileFetch
      → ℕ
      → String
      → Option ProfileInfo
      → PubkeyPartition
      → PubkeyPartition
  unfolding is_cooling
  partition_step requested failures now pubkey (some profile) p = record p {
    cached_profiles = insert pubkey profile p.cached_profiles;
  }
  partition_step requested failures now pubkey none p =
      if mem pubkey requested
      then p
      else if is_cooling now (lookup pubkey failures)
      then p
      else record p { missing_pubkeys = p.missing_pubkeys ++ pubkey ∷ [] }

  unfoldable pub partition_from :
      List String
      → Dict FailedProfileFetch
      → ℕ
      → List String
      → Cache
      → PubkeyPartition
      → PubkeyPartition × Cache
  unfolding read_cached partition_step
  partition_from requested failures now [] c p = (p, c)
  partition_from requested failures now (pubkey ∷ rest) c p =
      let (found, c') = read_cached now pubkey c in
      partition_from requested failures now rest c'
        (partition_step requested failures now pubkey found p)

  unfoldable pub partition_pubkeys :
      List String → Cache → List String → Dict FailedProfileFetch → ℕ → PubkeyPartition × Cache
  unfolding partition_from
  partition_pubkeys pubkeys c requested failures now =
      partition_from requested failures now pubkeys c
        (record { cached_profiles = []; missing_pubkeys = [] })

  -- One entry of a fetched batch.
  unfoldable pub apply_one : ℕ → String → Option ProfileInfo → Settled Cache → Settled Cache
  apply_one now pubkey (some profile) s = record s {
    cache = store_profile now pubkey profile s.cache;
    failures = erase pubkey s.failures;
    profiles = insert pubkey profile s.profiles;
  }
  apply_one now pubkey none s = record s {
    requested = remove pubkey s.requested;
    failures = record_failed_profile_fetch s.failures pubkey now;
  }

  unfoldable pub apply_from : ℕ → Dict (Option ProfileInfo) → Settled Cache → Settled Cache
  unfolding apply_one
  apply_from now [] s = s
  apply_from now ((pubkey, profile) ∷ rest) s = apply_from now rest (apply_one now pubkey profile s)

  unfoldable pub apply_fetched_profiles :
      Dict (Option ProfileInfo) → Cache → List String → Dict FailedProfileFetch → ℕ → Settled Cache
  unfolding apply_from
  apply_fetched_profiles fetched c requested failures now =
      apply_from now fetched
        (record { cache = c; requested = requested; failures = failures; profiles = [] })

unfoldable pub release_failed_pubkeys :
    List String → List String → Dict FailedProfileFetch → ℕ → List String × Dict FailedProfileFetch
release_failed_pubkeys [] requested failures now = (requested, failures)
release_failed_pubkeys (pubkey ∷ rest) requested failures now =
    release_failed_pubkeys rest (remove pubkey requested)
      (record_failed_profile_fetch failures pubkey now) now

-- `earliest` after one more failure is looked at.
unfoldable pub earlier : ℕ → Option FailedProfileFetch → Option ℕ → Option ℕ
earlier now none earliest = earliest
earlier now (some failure) none =
    if leb failure.next_retry_at now then none else some failure.next_retry_at
earlier now (some failure) (some earliest) =
    if leb failure.next_retry_at now
    then some earliest
    else if ltb failure.next_retry_at earliest
    then some failure.next_retry_at
    else some earliest

unfoldable pub earliest_from : List String → Dict FailedProfileFetch → ℕ → Option ℕ → Option ℕ
unfolding earlier
earliest_from [] failures now earliest = earliest
earliest_from (pubkey ∷ rest) failures now earliest =
    earliest_from rest failures now (earlier now (lookup pubkey failures) earliest)

unfoldable pub earliest_retry_at : List String → Dict FailedProfileFetch → ℕ → Option ℕ
unfolding earliest_from
earliest_retry_at pubkeys failures now = earliest_from pubkeys failures now none
