-- ===== src/Profiles/Ledger/Laws.antt =====
-- How `partitionPubkeys` splits, and what a settled batch leaves behind.
use livelier.Base.{
  ℕ, ◌+◌, ◌≤◌, ◌<◌, ◌≡◌, refl, ◌∙◌, String, Bool, true, not, ◌&&◌, ◌||◌, Option, none, some, List,
  [], ◌∷◌, ltb, leb, if◌then◌else◌, arith, ◌==◌, eq_iff, eq_refl, is_some, Bool-cases, inl, inr,
}
use native.Mathlib.Nat.{zero-add}
use livelier.Base.Dict.{Dict, lookup, lookup-erase, keys, mem-keys}
use livelier.Base.Keys.{mem, remove, mem-remove, Distinct, count, count-append}
use livelier.Profiles.Backoff.{FailedProfileFetch, next_failure, record_failed_profile_fetch}
use livelier.Profiles.Backoff.Laws.{lookup-record_failed_profile_fetch}
use livelier.Profiles.Cache.Info.{ProfileInfo}
use livelier.Profiles.Cache.Interface.{ProfileCacheLike}
use livelier.Profiles.Ledger.{
  PubkeyPartition, is_cooling, Settled, read_cached, partition_step, partition_from,
  partition_pubkeys, apply_one, apply_from, apply_fetched_profiles, release_failed_pubkeys, earlier,
  earliest_from, earliest_retry_at,
}

-- The ledger entry of a pubkey after a batch: `none` is a pubkey that the batch does not name.
abbrev pub settled_failure :
    ℕ → Option FailedProfileFetch → Option (Option ProfileInfo) → Option FailedProfileFetch
settled_failure now before none = before
settled_failure now before (some none) = some (next_failure before now)
settled_failure now before (some (some _)) = none

-- Only a miss is taken off the requested set.
abbrev pub is_kept : Option (Option ProfileInfo) → Bool
is_kept none = true
is_kept (some found) = is_some found

module _ (P : ProfileCacheLike) where
  open P use {Cache, has_profile, get_profile, get_of_has, has_after_has, has_after_get}

  -- `read_cached` finds a profile exactly when the cache has it, and leaves the others as they were.
  read_cached-is_some :
      (now : ℕ) (k : String) (c : Cache)
      → is_some (read_cached P now k c).0 ≡ (has_profile now k c).0
  unfolding read_cached
  read_cached-is_some now k c = ground (arith, get_of_has now k c)

  has_after_read :
      (now : ℕ) (k j : String) (c : Cache)
      → (has_profile now j (read_cached P now k c).1).0 ≡ (has_profile now j c).0
  unfolding read_cached
  has_after_read now k j c =
      ground (arith, has_after_has now k j c, has_after_get now k j (has_profile now k c).1)

  module _ (requested : List String) (failures : Dict FailedProfileFetch) (now : ℕ) where
    -- A pubkey needs a fetch: not cached, not in flight, not cooling down.
    abbrev pub needs_fetch : String → Cache → Bool
    needs_fetch j c =
        not (has_profile now j c).0
        && not (mem j requested)
        && not (is_cooling now (lookup j failures))

    count-partition_step :
        (k j : String) (c : Cache) (p : PubkeyPartition) (found : Option ProfileInfo)
        → is_some found ≡ (has_profile now k c).0
        → count j (partition_step P requested failures now k found p).missing_pubkeys
          ≡ count j p.missing_pubkeys + (if (k == j) && needs_fetch j c then 1 else 0)
    unfolding partition_step count
    count-partition_step k j c p found h = elim (Bool-cases (k == j)) [
      | inl same ↦
          let e : k ≡ j = (eq_iff k j).0 same in
          rw (← e) (ground (arith, eq_refl k, count-append k p.missing_pubkeys (k ∷ [])))
      | inr other ↦ ground (arith, count-append j p.missing_pubkeys (k ∷ []))
    ]

    count-partition_from :
        (pubkeys : List String) (j : String) (c : Cache) (p : PubkeyPartition)
        → count j (partition_from P requested failures now pubkeys c p).0.missing_pubkeys
          ≡ count j p.missing_pubkeys + (if needs_fetch j c then count j pubkeys else 0)
    unfolding partition_from count
    count-partition_from [] j c p = ground arith
    count-partition_from (k ∷ rest) j c p =
        let (found, c') = read_cached P now k c in
        ground (
          arith,
          has_after_read now k j c,
          count-partition_step k j c p found (read_cached-is_some now k c),
          count-partition_from rest j c' (partition_step P requested failures now k found p),
        )

    -- A batch asks for a pubkey as often as the request names it, if it is not cached, not in flight and
    -- not cooling down; it never asks for another.
    pub count-partition_pubkeys :
        (pubkeys : List String) (j : String) (c : Cache)
        → count j (partition_pubkeys P pubkeys c requested failures now).0.missing_pubkeys
          ≡ (if needs_fetch j c then count j pubkeys else 0)
    unfolding partition_pubkeys count
    count-partition_pubkeys pubkeys j c =
        count-partition_from pubkeys j c (record { cached_profiles = []; missing_pubkeys = [] })
        ∙ zero-add _

  lookup-apply_one :
      (now : ℕ) (k j : String) (found : Option ProfileInfo) (s : Settled Cache)
      → lookup j (apply_one P now k found s).failures ≡ (
          if k == j
          then settled_failure now (lookup j s.failures) (some found)
          else lookup j s.failures)
  unfolding apply_one
  lookup-apply_one now k j (some f) s = ground (arith, eq_iff k j, lookup-erase k j s.failures)
  lookup-apply_one now k j none s =
      ground (arith, eq_iff k j, lookup-record_failed_profile_fetch s.failures k j now)

  mem-apply_one :
      (now : ℕ) (k j : String) (found : Option ProfileInfo) (s : Settled Cache)
      → mem j (apply_one P now k found s).requested
        ≡ ((not (k == j) || is_some found) && mem j s.requested)
  unfolding apply_one
  mem-apply_one now k j (some f) s = ground (arith, eq_iff k j)
  mem-apply_one now k j none s = ground (arith, eq_iff k j, mem-remove k j s.requested)

  lookup-apply_from :
      (now : ℕ) (fetched : Dict (Option ProfileInfo)) (j : String) (s : Settled Cache)
      → Distinct (keys fetched)
      → (lookup j (apply_from P now fetched s).failures
          ≡ settled_failure now (lookup j s.failures) (lookup j fetched))
        × (mem j (apply_from P now fetched s).requested
            ≡ (is_kept (lookup j fetched) && mem j s.requested))
  unfolding apply_from lookup
  lookup-apply_from now [] j s d = (refl, refl)
  lookup-apply_from now ((k, found) ∷ rest) j s d =
      let (ih, ih') = lookup-apply_from now rest j (apply_one P now k found s) d.1 in
      (
        ground (arith, ih, eq_iff k j, mem-keys j rest, lookup-apply_one now k j found s),
        ground (arith, ih', eq_iff k j, mem-keys j rest, mem-apply_one now k j found s),
      )

  -- A settled batch: what it found is no failure any more, what it missed has one more attempt and is
  -- no longer in flight, and a pubkey that it did not name is as it was.
  pub apply_fetched_profiles_lem :
      (fetched : Dict (Option ProfileInfo)) (c : Cache) (requested : List String)
      (failures : Dict FailedProfileFetch) (now : ℕ) (j : String)
      → Distinct (keys fetched)
      → (lookup j (apply_fetched_profiles P fetched c requested failures now).failures
          ≡ settled_failure now (lookup j failures) (lookup j fetched))
        × (mem j (apply_fetched_profiles P fetched c requested failures now).requested
            ≡ (is_kept (lookup j fetched) && mem j requested))
  unfolding apply_fetched_profiles
  apply_fetched_profiles_lem fetched c requested failures now j d =
      lookup-apply_from now fetched j
        (record { cache = c; requested = requested; failures = failures; profiles = [] }) d

pub mem-release :
    (pubkeys requested : List String) (failures : Dict FailedProfileFetch) (now : ℕ) (j : String)
    → mem j (release_failed_pubkeys pubkeys requested failures now).0
      ≡ (not (mem j pubkeys) && mem j requested)
unfolding release_failed_pubkeys mem
mem-release [] requested failures now j = refl
mem-release (k ∷ rest) requested failures now j = ground (
  arith,
  mem-remove k j requested,
  mem-release rest (remove k requested) (record_failed_profile_fetch failures k now) now j,
)

-- What `earliest` says of a failure that is due after now.
earlier-keeps :
    (now : ℕ) (o : Option FailedProfileFetch) (t : ℕ)
    → now < t
    → (u : ℕ) × (earlier now o (some t) ≡ some u) × (u ≤ t) × (now < u)
unfolding earlier
earlier-keeps now none t h = (t, refl, omega arith, h)
earlier-keeps now (some f) t h = elim (Bool-cases (leb f.next_retry_at now)) [
  | inl past ↦ (t, rw past, omega arith, h)
  | inr future ↦ elim (Bool-cases (ltb f.next_retry_at t)) [
    | inl sooner ↦ (f.next_retry_at, rw (future, sooner), ground arith, ground arith)
    | inr later ↦ (t, rw (future, later), omega arith, h)
  ]
]

earliest_from-keeps :
    (pubkeys : List String) (failures : Dict FailedProfileFetch) (now t : ℕ)
    → now < t
    → (u : ℕ) × (earliest_from pubkeys failures now (some t) ≡ some u) × (u ≤ t) × (now < u)
unfolding earliest_from
earliest_from-keeps [] failures now t h = (t, refl, omega arith, h)
earliest_from-keeps (k ∷ rest) failures now t h =
    let (u, e, le, lt) = earlier-keeps now (lookup k failures) t h in
    let (v, e', le', lt') = earliest_from-keeps rest failures now u lt in
    (v, rw e e', omega arith, lt')

-- A result so far is nothing, or an instant after now.
abbrev IsFuture : ℕ → Option ℕ → Type 0
IsFuture now none = Unit
IsFuture now (some t) = now < t

earlier-IsFuture :
    (now : ℕ) (o : Option FailedProfileFetch) (acc : Option ℕ)
    → IsFuture now acc
    → IsFuture now (earlier now o acc)
unfolding earlier
earlier-IsFuture now none acc h = h
earlier-IsFuture now (some f) none h = ground arith
earlier-IsFuture now (some f) (some t) h = ground arith

earlier-takes :
    (now : ℕ) (f : FailedProfileFetch) (acc : Option ℕ)
    → IsFuture now acc
    → now < f.next_retry_at
    → (u : ℕ) × (earlier now (some f) acc ≡ some u) × (u ≤ f.next_retry_at) × (now < u)
unfolding earlier
earlier-takes now f none h due = (f.next_retry_at, ground arith, omega arith, due)
earlier-takes now f (some t) h due = elim (Bool-cases (ltb f.next_retry_at t)) [
  | inl sooner ↦ (f.next_retry_at, ground arith, omega arith, due)
  | inr later ↦ (t, ground arith, ground arith, h)
]

earliest_from-le :
    (pubkeys : List String) (failures : Dict FailedProfileFetch) (now : ℕ) (acc : Option ℕ)
    (j : String) (f : FailedProfileFetch)
    → IsFuture now acc
    → mem j pubkeys ≡ true
    → lookup j failures ≡ some f
    → now < f.next_retry_at
    → (u : ℕ) × (earliest_from pubkeys failures now acc ≡ some u)
      × (u ≤ f.next_retry_at)
      × (now < u)
unfolding earliest_from mem
earliest_from-le [] failures now acc j f h m e due = cc
earliest_from-le (k ∷ rest) failures now acc j f h m e due = elim (Bool-cases (k == j)) [
  | inl same ↦
      let p : k ≡ j = (eq_iff k j).0 same in
      let (u, eu, le, lt) = earlier-takes now f acc h due in
      let (v, ev, le', lt') = earliest_from-keeps rest failures now u lt in
      (v, rw (p, e, eu) ev, omega arith, lt')
  | inr other ↦
      earliest_from-le rest failures now (earlier now (lookup k failures) acc) j f
        (earlier-IsFuture now (lookup k failures) acc h) (rw other at m) e due
]

-- The heartbeat is armed for every listed pubkey that is still cooling down, at the latest when its own
-- cooldown ends, and after now.
pub earliest_retry_at-le :
    (pubkeys : List String) (failures : Dict FailedProfileFetch) (now : ℕ) (j : String)
    (f : FailedProfileFetch)
    → mem j pubkeys ≡ true
    → lookup j failures ≡ some f
    → now < f.next_retry_at
    → (u : ℕ) × (earliest_retry_at pubkeys failures now ≡ some u)
      × (u ≤ f.next_retry_at)
      × (now < u)
unfolding earliest_retry_at
earliest_retry_at-le pubkeys failures now j f m e due =
    earliest_from-le pubkeys failures now none j f tt m e due
