-- ===== src/Profiles/Coordinator/Retry.antt =====
-- A miss that is still wanted is retried: the heartbeat is armed for it when its batch settles.
use livelier.Base.{
  ℕ, ◌+◌, ◌<◌, ◌≡◌, ◌⊎◌, Option-cases, eq_refl, Bool-cases, inl, inr, String, true, false, ◌||◌,
  Option, none, some, List, [], ◌∷◌, arith, ltb, leb, min, ◌==◌, eq_iff, if◌then◌else◌,
}
use livelier.Base.Dict.{Dict, lookup, keys, lookup-insert}
use livelier.Base.Keys.{mem, remove, remove_all}
use livelier.Profiles.Backoff.{
  FailedProfileFetch, round_up, next_failure, record_failed_profile_fetch, profile_retry_max_ms,
  profile_retry_bucket_ms, profile_retry_max_attempts, has_exhausted_profile_retries,
}
use livelier.Profiles.Backoff.Laws.{
  next_failure_bounds, lookup-record_failed_profile_fetch, record_failed_profile_fetch-Recorded,
}
use livelier.Profiles.Cache.Info.{ProfileInfo}
use livelier.Profiles.Cache.Interface.{ProfileCacheLike}
use livelier.Profiles.Ledger.{apply_fetched_profiles, release_failed_pubkeys, earliest_retry_at}
use livelier.Profiles.Ledger.Laws.{earliest_retry_at-le, apply_fetched_profiles_lem}
use livelier.Profiles.Coordinator.Ops.{
  Coordinator, Event, on_fetched, on_rejected, fetched_from, fast_lane, fast_lane_one,
  apply_boot_fast_retry_lane, profile_boot_fast_retry_max_attempts,
}
use livelier.Profiles.Coordinator.InFlight.{lane-wanted}
use livelier.Profiles.Coordinator.SingleFlight.{fetched_from-Distinct}

-- A failure after the fast lane has looked at it.
abbrev pulled : ℕ → FailedProfileFetch → FailedProfileFetch
pulled fast f =
    if leb profile_retry_max_attempts f.attempts
    then f
    else if ltb profile_boot_fast_retry_max_attempts f.attempts
    then f
    else record f { next_retry_at = min f.next_retry_at fast }

lookup-fast_lane_one :
    (fast : ℕ) (k j : String) (failures : Dict FailedProfileFetch) (f : FailedProfileFetch)
    → lookup j failures ≡ some f
    → lookup j (fast_lane_one fast k (lookup k failures) failures)
      ≡ some (if k == j then pulled fast f else f)
unfolding fast_lane_one has_exhausted_profile_retries
lookup-fast_lane_one fast k j failures f e = elim (Bool-cases (k == j)) [
  | inl same ↦
      let p : k ≡ j = (eq_iff k j).0 same in
      rw (p, e, fast_lane_one)
        (ground (
          arith,
          eq_refl j,
          e,
          lookup-insert j j (record f { next_retry_at = min f.next_retry_at fast }) failures,
        ))
  | inr other ↦ elim (Option-cases (lookup k failures)) [
    | inl absent ↦ rw (absent, other, fast_lane_one) e
    | inr (g, found) ↦
        rw (found, other, fast_lane_one)
          (ground (
            arith,
            other,
            e,
            lookup-insert k j (record g { next_retry_at = min g.next_retry_at fast }) failures,
          ))
  ]
]

-- The fast lane only pulls a retry forward, and not before the next fast instant.
abbrev pub Due : ℕ → ℕ → String → Dict FailedProfileFetch → Type 0
Due now limit j failures =
    (f : FailedProfileFetch) × (lookup j failures ≡ some f)
    × (now < f.next_retry_at)
    × (f.next_retry_at < limit)

fast_lane-Due :
    (now fast limit : ℕ) (ks : List String) (j : String) (failures : Dict FailedProfileFetch)
    → now < fast
    → Due now limit j failures
    → Due now limit j (fast_lane fast ks failures)
unfolding fast_lane
fast_lane-Due now fast limit [] j failures h d = d
fast_lane-Due now fast limit (k ∷ ks) j failures h (f, e, due, below) =
    fast_lane-Due now fast limit ks j _ h
      (_, lookup-fast_lane_one fast k j failures f e, ground arith, ground arith)

-- The bound on a retry that a failure at `now` schedules.
abbrev pub retry_limit : ℕ → ℕ
retry_limit now = now + profile_retry_max_ms + profile_retry_bucket_ms

lane-Due :
    {C : Type 0} (now limit : ℕ) (ks : List String) (j : String) (s : Coordinator C)
    → Due now limit j s.failures
    → Due now limit j (apply_boot_fast_retry_lane now ks s).failures
unfolding apply_boot_fast_retry_lane
lane-Due now limit ks j s d = elim (Bool-cases (leb s.fast_retry_until now)) [
  | inl over ↦ rw (over, apply_boot_fast_retry_lane) d
  | inr open_lane ↦
      rw (open_lane, apply_boot_fast_retry_lane)
        (fast_lane-Due now _ limit ks j s.failures (unfold round_up in omega arith) d)
]

record_failed-Due_self :
    (now : ℕ) (j : String) (failures : Dict FailedProfileFetch)
    → Due now (retry_limit now) j (record_failed_profile_fetch failures j now)
record_failed-Due_self now j failures =
    let r = record_failed_profile_fetch-Recorded failures j now in
    (r.entry, r.written, omega (arith, r.not_before), r.not_after)

record_failed-Due :
    (now : ℕ) (k j : String) (failures : Dict FailedProfileFetch)
    → (k ≡ j) ⊎ Due now (retry_limit now) j failures
    → Due now (retry_limit now) j (record_failed_profile_fetch failures k now)
record_failed-Due now k j failures (inl e) = rw e (record_failed-Due_self now j failures)
record_failed-Due now k j failures (inr (f, e, due, below)) = elim (Bool-cases (k == j)) [
  | inl same ↦ let p : k ≡ j = (eq_iff k j).0 same in rw p (record_failed-Due_self now j failures)
  | inr other ↦
      (f, ground (arith, e, lookup-record_failed_profile_fetch failures k j now), due, below)
]

release-Due :
    (ks requested : List String) (failures : Dict FailedProfileFetch) (now : ℕ) (j : String)
    → (mem j ks ≡ true) ⊎ Due now (retry_limit now) j failures
    → Due now (retry_limit now) j (release_failed_pubkeys ks requested failures now).1
unfolding release_failed_pubkeys mem
release-Due [] requested failures now j (inl m) = cc
release-Due [] requested failures now j (inr d) = d
release-Due (k ∷ ks) requested failures now j h = elim (Bool-cases (k == j)) [
  | inl same ↦
      release-Due ks (remove k requested) _ now j
        (inr (record_failed-Due now k j failures (inl ((eq_iff k j).0 same))))
  | inr other ↦ release-Due ks (remove k requested) _ now j (later other h)
]
  where
    later :
        (k == j) ≡ false
        → ((k == j || mem j ks) ≡ true) ⊎ Due now (retry_limit now) j failures
        → (mem j ks ≡ true)
          ⊎ Due now (retry_limit now) j (record_failed_profile_fetch failures k now)
    later other (inl m) = inl (rw other at m)
    later other (inr d) = inr (record_failed-Due now k j failures (inr d))

-- The heartbeat is armed, ahead of now and below the bound.
abbrev pub Armed : ℕ → Option ℕ → Type 0
Armed now timer = (t : ℕ) × (timer ≡ some t) × (now < t) × (t < retry_limit now)

Due-Armed :
    (now : ℕ) (wanted : List String) (failures : Dict FailedProfileFetch) (j : String)
    → mem j wanted ≡ true
    → Due now (retry_limit now) j failures
    → Armed now (earliest_retry_at wanted failures now)
Due-Armed now wanted failures j m (f, e, due, below) =
    let (t, armed, le, ahead) = earliest_retry_at-le wanted failures now j f m e due in
    (t, armed, ahead, omega arith)

-- After a batch that threw, each of its pubkeys has a failure that is due later.
pub on_rejected-Due :
    {C : Type 0} (now : ℕ) (batch : List String) (s : Coordinator C) (j : String)
    → mem j batch ≡ true
    → Due now (retry_limit now) j (on_rejected now batch s).failures
unfolding on_rejected
on_rejected-Due now batch s j m =
    let (in_flight, failures) = release_failed_pubkeys batch s.in_flight s.failures now in
    lane-Due now (retry_limit now) batch j (record s { in_flight = in_flight; failures = failures })
      (release-Due batch s.in_flight s.failures now j (inl m))

-- A batch that threw: if one of its pubkeys is still wanted, the heartbeat is armed after now and before now
-- plus the cap and one bucket.
pub on_rejected-Armed :
    {C : Type 0} (now : ℕ) (batch : List String) (s : Coordinator C) (j : String)
    → mem j batch ≡ true
    → mem j (keys s.wanted) ≡ true
    → Armed now (on_rejected now batch s).retry_timer
unfolding on_rejected
on_rejected-Armed now batch s j m w =
    let (in_flight, failures) = release_failed_pubkeys batch s.in_flight s.failures now in
    let base = record s { in_flight = in_flight; failures = failures } in
    let laned = apply_boot_fast_retry_lane now batch base in
    Due-Armed now (keys laned.wanted) laned.failures j (rw (lane-wanted now batch base) w) (
      lane-Due now (retry_limit now) batch j base
        (release-Due batch s.in_flight s.failures now j (inl m)))

-- After a batch whose answer has no usable profile for a pubkey, that pubkey has a failure that is due
-- later.
pub on_fetched-Due :
    (parse : ℕ → String → Option ProfileInfo) (P : ProfileCacheLike) (now : ℕ) (batch : List String)
    (events : List (Option Event)) (s : Coordinator P.Cache) (j : String)
    → lookup j (fetched_from parse now batch events []) ≡ some none
    → Due now (retry_limit now) j (on_fetched parse P now batch events s).failures
unfolding on_fetched
on_fetched-Due parse P now batch events s j miss =
    let got = fetched_from parse now batch events [] in
    let settled = apply_fetched_profiles P got s.cache s.in_flight s.failures now in
    let base = record s {
      cache = settled.cache;
      in_flight = remove_all batch settled.requested;
      failures = settled.failures;
    } in
    let entry =
      (apply_fetched_profiles_lem P got s.cache s.in_flight s.failures now j
        (fetched_from-Distinct parse now batch events [] tt)).0 in
    let (low, high, multiple) = next_failure_bounds (lookup j s.failures) now in
    lane-Due now (retry_limit now) batch j base
      (next_failure (lookup j s.failures) now, rw (miss) at entry, omega arith, high)

-- A batch whose answer has no usable profile for a pubkey: if that pubkey is still wanted, the heartbeat is
-- armed after now and before now plus the cap and one bucket.
pub on_fetched-Armed :
    (parse : ℕ → String → Option ProfileInfo) (P : ProfileCacheLike) (now : ℕ) (batch : List String)
    (events : List (Option Event)) (s : Coordinator P.Cache) (j : String)
    → lookup j (fetched_from parse now batch events []) ≡ some none
    → mem j (keys s.wanted) ≡ true
    → Armed now (on_fetched parse P now batch events s).retry_timer
unfolding on_fetched
on_fetched-Armed parse P now batch events s j miss w =
    let got = fetched_from parse now batch events [] in
    let settled = apply_fetched_profiles P got s.cache s.in_flight s.failures now in
    let base = record s {
      cache = settled.cache;
      in_flight = remove_all batch settled.requested;
      failures = settled.failures;
    } in
    let laned = apply_boot_fast_retry_lane now batch base in
    Due-Armed now (keys laned.wanted) laned.failures j (rw (lane-wanted now batch base) w)
      (on_fetched-Due parse P now batch events s j miss)
