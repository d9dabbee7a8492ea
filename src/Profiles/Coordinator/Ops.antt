-- ===== src/Profiles/Coordinator/Ops.antt =====
-- The state of `ProfileRequestCoordinator` and its methods.
use livelier.Base.{
  ℕ, suc, ◌+◌, ◌-◌, min, String, Bool, false, Option, none, some, List, [], ◌∷◌, ltb, leb, eqb,
  if◌then◌else◌, or_else,
}
use livelier.Base.Dict.{Dict, lookup, insert, erase, has, keys}
use livelier.Base.Keys.{dedupe, remove_all}
use livelier.Profiles.Backoff.{
  FailedProfileFetch, has_exhausted_profile_retries, round_up, profile_retry_max_attempts,
}
use livelier.Profiles.MissCache.{ProfileMissCache, record_miss, clear_miss}
use livelier.Profiles.Cache.Info.{ProfileInfo}
use livelier.Profiles.Cache.Interface.{ProfileCacheLike}
use livelier.Profiles.Ledger.{apply_fetched_profiles, release_failed_pubkeys, earliest_retry_at}

pub record Coordinator (C : Type 0) : Type 0 where
  pub cache : C
  pub wanted : Dict ℕ
  pub in_flight : List String
  pub failures : Dict FailedProfileFetch
  pub miss_cache : ProfileMissCache
  pub version : ℕ
  pub retry_timer : Option ℕ
  pub boot_window_until : ℕ
  pub boot_timer : Option ℕ
  pub fast_retry_until : ℕ
  pub last_dispatch_at : ℕ
  pub dispatch_min_spacing_ms : ℕ
  pub early_profile_created_at : Dict ℕ

abbrev pub profile_boot_aggregation_ms : ℕ
profile_boot_aggregation_ms = 2000

abbrev pub profile_boot_fast_retry_ms : ℕ
profile_boot_fast_retry_ms = 5000

abbrev pub profile_boot_fast_retry_window_ms : ℕ
profile_boot_fast_retry_window_ms = 60000

abbrev pub profile_boot_fast_retry_max_attempts : ℕ
profile_boot_fast_retry_max_attempts = 2

abbrev pub profile_dispatch_min_spacing_ms : ℕ
profile_dispatch_min_spacing_ms = 5000

-- The constructor at `now`, before the persisted caches have loaded.
unfoldable pub create : {C : Type 0} → ℕ → C → ProfileMissCache → Coordinator C
create now cache misses = record {
  cache = cache;
  wanted = [];
  in_flight = [];
  failures = [];
  miss_cache = misses;
  version = 0;
  retry_timer = none;
  boot_window_until = now + profile_boot_aggregation_ms;
  boot_timer = none;
  fast_retry_until = now + profile_boot_fast_retry_window_ms;
  last_dispatch_at = 0;
  dispatch_min_spacing_ms = profile_dispatch_min_spacing_ms;
  early_profile_created_at = [];
}

-- A replaceable event as the client streams it.
pub record Event : Type 0 where
  pub kind : ℕ
  pub pubkey : String
  pub created_at : ℕ
  pub content : String

-- The misses that `hydrate` reports start on the slow lane.
unfoldable pub seed_misses : List String → Dict FailedProfileFetch → Dict FailedProfileFetch
seed_misses [] failures = failures
seed_misses (pubkey ∷ rest) failures = seed_misses rest (
    if has pubkey failures
    then failures
    else insert pubkey (record { attempts = profile_retry_max_attempts; next_retry_at = 0 })
        failures)

unfoldable pub count_up : List String → Dict ℕ → Dict ℕ
count_up [] wanted = wanted
count_up (pubkey ∷ rest) wanted =
    count_up rest (insert pubkey (or_else (lookup pubkey wanted) 0 + 1) wanted)

-- One pubkey of a release.
unfoldable pub count_down_one : String → Option ℕ → Dict ℕ → Dict ℕ
count_down_one pubkey none wanted = wanted
count_down_one pubkey (some n) wanted =
    if leb n 1 then erase pubkey wanted else insert pubkey (n - 1) wanted

unfoldable pub count_down : List String → Dict ℕ → Dict ℕ
unfolding count_down_one
count_down [] wanted = wanted
count_down (pubkey ∷ rest) wanted =
    count_down rest (count_down_one pubkey (lookup pubkey wanted) wanted)

-- The answer of the relay client: the events by index of the request, `none` where there is none.
abbrev pub head_or_none : List (Option Event) → Option Event
head_or_none [] = none
head_or_none (e ∷ _) = e

abbrev pub rest_of : List (Option Event) → List (Option Event)
rest_of [] = []
rest_of (_ ∷ es) = es

-- The lane of one pubkey: a first failure is pulled forward to `fast_retry_at`.
unfoldable pub fast_lane_one :
    ℕ → String → Option FailedProfileFetch → Dict FailedProfileFetch → Dict FailedProfileFetch
fast_lane_one fast_retry_at pubkey none failures = failures
fast_lane_one fast_retry_at pubkey (some failure) failures =
    if has_exhausted_profile_retries (some failure)
    then failures
    else if ltb profile_boot_fast_retry_max_attempts failure.attempts
    then failures
    else insert pubkey (record failure { next_retry_at = min failure.next_retry_at fast_retry_at })
        failures

unfoldable pub fast_lane : ℕ → List String → Dict FailedProfileFetch → Dict FailedProfileFetch
unfolding fast_lane_one
fast_lane fast_retry_at [] failures = failures
fast_lane fast_retry_at (pubkey ∷ rest) failures =
    fast_lane fast_retry_at rest
      (fast_lane_one fast_retry_at pubkey (lookup pubkey failures) failures)

-- `persistLedgerTransitions`
unfoldable pub persist_transitions :
    ℕ → Dict (Option ProfileInfo) → Dict FailedProfileFetch → ProfileMissCache → ProfileMissCache
persist_transitions now [] failures misses = misses
persist_transitions now ((pubkey, some _) ∷ rest) failures misses =
    persist_transitions now rest failures (clear_miss pubkey misses)
persist_transitions now ((pubkey, none) ∷ rest) failures misses =
    persist_transitions now rest failures (
      if has_exhausted_profile_retries (lookup pubkey failures)
      then record_miss pubkey now misses
      else misses)

-- The misses of a batch that threw.
unfoldable pub record_exhausted :
    ℕ → List String → Dict FailedProfileFetch → ProfileMissCache → ProfileMissCache
record_exhausted now [] failures misses = misses
record_exhausted now (pubkey ∷ rest) failures misses = record_exhausted now rest failures (
    if has_exhausted_profile_retries (lookup pubkey failures)
    then record_miss pubkey now misses
    else misses)

module _ {C : Type 0} where
  unfoldable pub emit : Coordinator C → Coordinator C
  emit s = record s { version = suc s.version }

  -- `Math.max(0, retryAt - Date.now())` from now on: the instant itself, which is ahead of now.
  unfoldable pub schedule_retry : ℕ → Coordinator C → Coordinator C
  schedule_retry now s = record s { retry_timer = earliest_retry_at (keys s.wanted) s.failures now }

  unfoldable pub on_hydrated : List String → Coordinator C → Coordinator C
  unfolding seed_misses
  on_hydrated missed s = record s { failures = seed_misses missed s.failures }

  -- The map of `retain`; the flush that it starts is a step of its own.
  unfoldable pub retain : List String → Coordinator C → Coordinator C
  unfolding count_up
  retain pubkeys s = record s { wanted = count_up (dedupe pubkeys) s.wanted }

  -- The function that `retain` returns, called for the first time.
  unfoldable pub release : ℕ → List String → Coordinator C → Coordinator C
  unfolding count_down schedule_retry
  release now pubkeys s =
      schedule_retry now (record s { wanted = count_down (dedupe pubkeys) s.wanted })

  unfoldable pub apply_boot_fast_retry_lane : ℕ → List String → Coordinator C → Coordinator C
  unfolding fast_lane
  apply_boot_fast_retry_lane now pubkeys s = if leb s.fast_retry_until now then s else record s {
    failures =
        fast_lane (round_up (now + profile_boot_fast_retry_ms) profile_boot_fast_retry_ms) pubkeys
          s.failures;
  }

  -- The `.catch` of `dispatch`, and the end of the flush that awaits it.
  unfoldable pub on_rejected : ℕ → List String → Coordinator C → Coordinator C
  unfolding emit apply_boot_fast_retry_lane record_exhausted schedule_retry
  on_rejected now pubkeys s =
      let (in_flight, failures) = release_failed_pubkeys pubkeys s.in_flight s.failures now in
      let laned =
        apply_boot_fast_retry_lane now pubkeys
          (record s { in_flight = in_flight; failures = failures }) in
      schedule_retry now (
        emit (record laned {
          miss_cache = record_exhausted now pubkeys laned.failures laned.miss_cache;
        }))

module _ (parse : ℕ → String → Option ProfileInfo) where
  -- `eventToProfile`
  unfoldable pub event_to_profile : ℕ → Option Event → Option ProfileInfo
  event_to_profile now none = none
  event_to_profile now (some event) = parse now event.content

  -- `fetched[pubkey] = eventToProfile(events[index])`
  unfoldable pub fetched_from :
      ℕ → List String → List (Option Event) → Dict (Option ProfileInfo) → Dict (Option ProfileInfo)
  unfolding event_to_profile
  fetched_from now [] events fetched = fetched
  fetched_from now (pubkey ∷ rest) events fetched =
      fetched_from now rest (rest_of events)
        (insert pubkey (event_to_profile now (head_or_none events)) fetched)

  module _ (P : ProfileCacheLike) where
    open P use {Cache, store_profile, remove_profile}

    -- What a parsed kind-0 that arrives early changes.
    unfoldable pub store_early :
        ℕ → Event → Option ProfileInfo → Coordinator Cache → Coordinator Cache
    unfolding emit
    store_early now event none s = s
    store_early now event (some profile) s = emit (record s {
      early_profile_created_at = insert event.pubkey event.created_at s.early_profile_created_at;
      cache = store_profile now event.pubkey profile s.cache;
      failures = erase event.pubkey s.failures;
      miss_cache = clear_miss event.pubkey s.miss_cache;
    })

    -- `newest !== undefined && event.created_at <= newest`
    abbrev pub is_stale : ℕ → Option ℕ → Bool
    is_stale created_at none = false
    is_stale created_at (some newest) = leb created_at newest

    unfoldable pub apply_early_profile_event : ℕ → Event → Coordinator Cache → Coordinator Cache
    unfolding store_early
    apply_early_profile_event now event s =
        if eqb event.kind 0
        then (if is_stale event.created_at (lookup event.pubkey s.early_profile_created_at)
            then s
            else store_early now event (parse now event.content) s)
        else s

    -- The `.then` of `dispatch`, and the end of the flush that awaits it.
    unfoldable pub on_fetched :
        ℕ → List String → List (Option Event) → Coordinator Cache → Coordinator Cache
    unfolding emit apply_boot_fast_retry_lane persist_transitions schedule_retry fetched_from
    on_fetched now pubkeys events s =
        let fetched = fetched_from now pubkeys events [] in
        let settled = apply_fetched_profiles P fetched s.cache s.in_flight s.failures now in
        let laned = apply_boot_fast_retry_lane now pubkeys (record s {
          cache = settled.cache;
          in_flight = remove_all pubkeys settled.requested;
          failures = settled.failures;
        }) in
        schedule_retry now (
          emit (record laned {
            miss_cache = persist_transitions now fetched laned.failures laned.miss_cache;
          }))
