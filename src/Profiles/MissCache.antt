-- ===== src/Profiles/MissCache.antt =====
-- packages/shared/src/nostr/services/profile-miss-cache.ts: the persistent negative cache of profile
-- fetches. The text kept in storage is the list of the entries that it parses to; an entry with no
-- usable `missedAt` has `none`. The 500 ms debounce timer is the flag `save_armed`.
pub mod Laws
use livelier.Base.{
  ℕ, suc, ◌-◌, String, Bool, true, false, not, ◌&&◌, Option, none, some, List, [], ◌∷◌, ltb, leb,
  eqb, if◌then◌else◌, length, is_some,
}
use livelier.Base.Dict.{Dict, lookup, insert, erase, has}

abbrev pub profile_miss_ttl_ms : ℕ
profile_miss_ttl_ms = 43200000

pub record ProfileMissCache : Type 0 where
  pub misses : Dict ℕ
  pub save_armed : Bool

-- What the storage answers: unavailable, empty, an error, or the parsed entries.
pub data Stored : Type 0 where
  unavailable empty failed : Stored
  entries : Dict (Option ℕ) → Stored

unfoldable pub schedule_save : ProfileMissCache → ProfileMissCache
schedule_save c = record c { save_armed = true }

-- `entry?.missedAt && now - entry.missedAt < PROFILE_MISS_TTL_MS`: a missing or zero time is false.
-- `now - missedAt` is negative for a time ahead of the clock, and 0 here: below the TTL in both.
unfoldable pub is_alive : ℕ → Option ℕ → Bool
is_alive now none = false
is_alive now (some missed_at) = not (eqb missed_at 0) && ltb (now - missed_at) profile_miss_ttl_ms

-- The loop of `hydrate` over the parsed entries: the map, and the pubkeys that are alive.
unfoldable pub load_entries : ℕ → Dict (Option ℕ) → Dict ℕ → Dict ℕ × List String
unfolding is_alive
load_entries now [] misses = (misses, [])
load_entries now ((pubkey, none) ∷ rest) misses = load_entries now rest misses
load_entries now ((pubkey, some missed_at) ∷ rest) misses =
    let kept = load_entries now rest (insert pubkey missed_at misses) in
    let dropped = load_entries now rest misses in
    if is_alive now (some missed_at) then (kept.0, pubkey ∷ kept.1) else dropped

unfoldable pub hydrate : Stored → ℕ → ProfileMissCache → ProfileMissCache × List String
unfolding load_entries schedule_save
hydrate unavailable now c = (c, [])
hydrate empty now c = (c, [])
hydrate failed now c = (c, [])
hydrate (entries parsed) now c =
    let (misses, alive) = load_entries now parsed c.misses in
    let loaded = record c { misses = misses } in
    (if eqb (length alive) (length parsed) then loaded else schedule_save loaded, alive)

unfoldable pub record_miss : String → ℕ → ProfileMissCache → ProfileMissCache
unfolding schedule_save
record_miss pubkey now c = schedule_save (record c { misses = insert pubkey now c.misses })

unfoldable pub clear_miss : String → ProfileMissCache → ProfileMissCache
unfolding schedule_save
clear_miss pubkey c =
    if has pubkey c.misses then schedule_save (record c { misses = erase pubkey c.misses }) else c

-- The verdict on the time that the map holds.
unfoldable pub has_miss_at : String → ℕ → ProfileMissCache → Option ℕ → Bool × ProfileMissCache
unfolding schedule_save
has_miss_at pubkey now c none = (false, c)
has_miss_at pubkey now c (some missed_at) =
    if leb profile_miss_ttl_ms (now - missed_at)
    then (false, schedule_save (record c { misses = erase pubkey c.misses }))
    else (true, c)

unfoldable pub has_miss : String → ℕ → ProfileMissCache → Bool × ProfileMissCache
unfolding has_miss_at
has_miss pubkey now c = has_miss_at pubkey now c (lookup pubkey c.misses)

-- The object that `save` writes: `out[pubkey] = { missedAt }`.
unfoldable pub persisted : Dict ℕ → Dict (Option ℕ)
persisted [] = []
persisted ((pubkey, missed_at) ∷ rest) = (pubkey, some missed_at) ∷ persisted rest

-- The timer fires: the pending save is taken off and the map is written, if the storage is there.
unfoldable pub save : Bool → Stored → ProfileMissCache → ProfileMissCache × Stored
unfolding persisted
save available old c =
    (record c { save_armed = false }, if available then entries (persisted c.misses) else old)

unfoldable pub reset_for_testing : ProfileMissCache → ProfileMissCache
reset_for_testing c = record { misses = []; save_armed = false }
