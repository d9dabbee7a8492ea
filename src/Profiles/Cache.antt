-- ===== src/Profiles/Cache.antt =====
-- packages/shared/src/services/ProfileCacheService.ts: the in-memory profile cache with its TTL and
-- its limit of 500 entries. `save_armed` is the debounce timer of the pending write.
pub mod Bound
pub mod Info
pub mod Interface
pub mod Laws
pub mod Lru
pub mod Tests
use livelier.Base.{
  ℕ, suc, ◌+◌, ◌-◌, String, Bool, true, false, not, ◌&&◌, Option, none, some, List, [], ◌∷◌, ltb,
  leb, eqb, if◌then◌else◌, length, take,
}
use Info.{ProfileInfo}
use livelier.Base.Dict.{Dict, lookup, insert, erase, has}

pub record ProfileCacheService : Type 0 where
  pub cache : Dict ProfileInfo
  pub initialized : Bool
  pub save_armed : Bool

abbrev pub cache_ttl : ℕ
cache_ttl = 2592000000

abbrev pub max_cache_size : ℕ
max_cache_size = 500

-- `profile.timestamp && now - profile.timestamp > CACHE_TTL`
unfoldable pub is_expired : ℕ → ProfileInfo → Bool
is_expired now profile = not (eqb profile.timestamp 0) && ltb cache_ttl (now - profile.timestamp)

-- The loop of `loadFromStorage` over the stored profiles.
unfoldable pub load_profiles : ℕ → Dict ProfileInfo → Dict ProfileInfo → Dict ProfileInfo
load_profiles now [] cache = cache
load_profiles now ((pubkey, profile) ∷ rest) cache = load_profiles now rest (
    if not (eqb profile.timestamp 0) && ltb (now - profile.timestamp) cache_ttl
    then insert pubkey profile cache
    else cache)

-- `none` is a storage that is unavailable, empty, or fails.
unfoldable pub load_from_storage :
    ℕ → Option (Dict ProfileInfo) → ProfileCacheService → ProfileCacheService
unfolding load_profiles
load_from_storage now none s = record s { initialized = true }
load_from_storage now (some saved) s = record s {
  cache = load_profiles now saved s.cache;
  initialized = true;
}

-- `lastAccessed || timestamp || 0`
unfoldable pub access_time : ProfileInfo → ℕ
access_time profile =
    if eqb profile.last_accessed 0 then profile.timestamp else profile.last_accessed

-- The stable sort of the entries, oldest access first.
unfoldable pub place : String × ProfileInfo → Dict ProfileInfo → Dict ProfileInfo
unfolding access_time
place e [] = e ∷ []
place e (x ∷ xs) =
    let later = place e xs in
    if leb (access_time e.1) (access_time x.1) then e ∷ x ∷ xs else x ∷ later

unfoldable pub sort_by_access : Dict ProfileInfo → Dict ProfileInfo
unfolding place
sort_by_access [] = []
sort_by_access (e ∷ es) = place e (sort_by_access es)

-- `toRemove.forEach(([pubkey]) => this.cache.delete(pubkey))`
unfoldable pub erase_all : Dict ProfileInfo → Dict ProfileInfo → Dict ProfileInfo
erase_all [] cache = cache
erase_all ((pubkey, _) ∷ rest) cache = erase_all rest (erase pubkey cache)

unfoldable pub enforce_cache_limit : Dict ProfileInfo → Dict ProfileInfo
unfolding sort_by_access erase_all
enforce_cache_limit cache =
    if leb (length cache) max_cache_size
    then cache
    else erase_all (take (length cache - max_cache_size) (sort_by_access cache)) cache

-- A profile with its access counted.
abbrev pub touched : ℕ → ProfileInfo → ProfileInfo
touched now profile = record profile {
  last_accessed = now;
  access_count = profile.access_count + 1;
}

-- `getProfile` on the entry that the map holds.
unfoldable pub get_entry :
    ℕ → String → ProfileCacheService → Option ProfileInfo → Option ProfileInfo × ProfileCacheService
unfolding is_expired
get_entry now pubkey s none = (none, s)
get_entry now pubkey s (some profile) =
    if is_expired now profile then (none, record s { cache = erase pubkey s.cache }) else (
      some (touched now profile),
      record s { cache = insert pubkey (touched now profile) s.cache },
    )

unfoldable pub get_profile :
    ℕ → String → ProfileCacheService → Option ProfileInfo × ProfileCacheService
unfolding get_entry
get_profile now pubkey s =
    if s.initialized then get_entry now pubkey s (lookup pubkey s.cache) else (none, s)

-- The entry that `storeProfile` writes.
abbrev pub stored : ℕ → ProfileInfo → ProfileInfo
stored now profile = record profile {
  timestamp = if eqb profile.timestamp 0 then now else profile.timestamp;
  last_updated = now;
  last_accessed = now;
  access_count = 1;
}

unfoldable pub store_profile : ℕ → String → ProfileInfo → ProfileCacheService → ProfileCacheService
unfolding enforce_cache_limit
store_profile now pubkey profile s = record s {
  cache = enforce_cache_limit (insert pubkey (stored now profile) s.cache);
  save_armed = true;
}

unfoldable pub has_entry :
    ℕ → String → ProfileCacheService → Option ProfileInfo → Bool × ProfileCacheService
unfolding is_expired
has_entry now pubkey s none = (false, s)
has_entry now pubkey s (some profile) =
    if is_expired now profile then (false, record s { cache = erase pubkey s.cache }) else (true, s)

unfoldable pub has_profile : ℕ → String → ProfileCacheService → Bool × ProfileCacheService
unfolding has_entry
has_profile now pubkey s =
    if s.initialized then has_entry now pubkey s (lookup pubkey s.cache) else (false, s)

-- `removeProfile`; the write that follows a removal is left out.
unfoldable pub remove_profile : String → ProfileCacheService → ProfileCacheService
remove_profile pubkey s = if s.initialized then record s { cache = erase pubkey s.cache } else s

-- `getAllProfiles`: the entries that have not expired.
unfoldable pub live_entries : ℕ → Dict ProfileInfo → Dict ProfileInfo
unfolding is_expired
live_entries now [] = []
live_entries now ((pubkey, profile) ∷ rest) =
    let more = live_entries now rest in
    if is_expired now profile then more else (pubkey, profile) ∷ more

unfoldable pub get_all_profiles : ℕ → ProfileCacheService → Dict ProfileInfo
unfolding live_entries
get_all_profiles now s = if s.initialized then live_entries now s.cache else []

unfoldable pub clear : ProfileCacheService → ProfileCacheService
clear s = record s { cache = [] }
