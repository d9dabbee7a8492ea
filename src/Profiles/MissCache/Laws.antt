-- ===== src/Profiles/MissCache/Laws.antt =====
-- profile-miss-cache.ts: what survives a restart, and that no verdict is permanent.
use livelier.Base.{
  ℕ, ◌-◌, ◌≤◌, ◌≡◌, refl, ap, sym, ◌∙◌, String, true, false, not, Option, none, List, [], ◌∷◌, leb,
  if◌then◌else◌, ◌==◌, arith, eq_iff, eq_refl,
}
use livelier.Base.Dict.{
  Dict, lookup, insert, lookup-insert, lookup-erase, keys, mem-keys, lookup_nil,
}
use livelier.Base.Keys.{mem, Distinct}
use livelier.Profiles.MissCache.{
  profile_miss_ttl_ms, ProfileMissCache, Stored, is_alive, load_entries, hydrate, record_miss,
  clear_miss, has_miss, persisted, save,
}

-- A miss is known exactly while it is younger than the TTL; asking about it forgets an expired one.
pub has_miss-record_miss :
    (pubkey : String) (missed_at now : ℕ) (c : ProfileMissCache)
    → (has_miss pubkey now (record_miss pubkey missed_at c)).0
      ≡ not (leb profile_miss_ttl_ms (now - missed_at))
unfolding has_miss record_miss
has_miss-record_miss pubkey missed_at now c =
    ground (arith, eq_refl pubkey, lookup-insert pubkey pubkey missed_at c.misses)

-- A cleared miss is forgotten at every later time, and the others stay.
pub has_miss-clear_miss :
    (pubkey j : String) (now : ℕ) (c : ProfileMissCache)
    → (has_miss j now (clear_miss pubkey c)).0
      ≡ (if pubkey == j then false else (has_miss j now c).0)
unfolding has_miss clear_miss
has_miss-clear_miss pubkey j now c = ground (arith, eq_iff pubkey j, lookup-erase pubkey j c.misses)

-- The loop of `hydrate` over what `save` wrote: a live entry is loaded, another leaves the map alone.
lookup-load_entries :
    (now : ℕ) (saved misses : Dict ℕ) (j : String)
    → Distinct (keys saved)
    → lookup j (load_entries now (persisted saved) misses).0
      ≡ (if is_alive now (lookup j saved) then lookup j saved else lookup j misses)
unfolding load_entries persisted lookup
lookup-load_entries now [] misses j d = refl
lookup-load_entries now ((i, m) ∷ saved) misses j d = ground (
  arith,
  eq_iff i j,
  mem-keys j saved,
  lookup-insert i j m misses,
  lookup-load_entries now saved misses j d.1,
  lookup-load_entries now saved (insert i m misses) j d.1,
)

-- The pubkeys that the loop reports are those whose entry is alive.
mem-load_entries :
    (now : ℕ) (saved misses : Dict ℕ) (j : String)
    → Distinct (keys saved)
    → mem j (load_entries now (persisted saved) misses).1 ≡ is_alive now (lookup j saved)
unfolding load_entries persisted lookup mem
mem-load_entries now [] misses j d = refl
mem-load_entries now ((i, m) ∷ saved) misses j d = ground (
  arith,
  eq_iff i j,
  mem-keys j saved,
  mem-load_entries now saved misses j d.1,
  mem-load_entries now saved (insert i m misses) j d.1,
)

-- The next session after `save`: a cache that `hydrate` filled from what was written.
abbrev pub fresh : ProfileMissCache
fresh = record { misses = []; save_armed = false }

abbrev pub reloaded : ProfileMissCache → Stored → ℕ → ProfileMissCache × List String
reloaded c old now = hydrate (save true old c).1 now fresh

lookup-reloaded :
    (c : ProfileMissCache) (old : Stored) (now : ℕ) (j : String)
    → Distinct (keys c.misses)
    → lookup j (reloaded c old now).0.misses
      ≡ (if is_alive now (lookup j c.misses) then lookup j c.misses else none)
unfolding hydrate save
lookup-reloaded c old now j d =
    ground (arith, lookup-load_entries now c.misses [] j d, lookup_nil {V = ℕ} j)

alive-reloaded :
    (c : ProfileMissCache) (old : Stored) (now : ℕ) (j : String)
    → Distinct (keys c.misses)
    → mem j (reloaded c old now).1 ≡ is_alive now (lookup j c.misses)
unfolding hydrate save
alive-reloaded c old now j d = mem-load_entries now c.misses [] j d

alive-has_miss :
    (c : ProfileMissCache) (now : ℕ) (j : String)
    → profile_miss_ttl_ms ≤ now
    → is_alive now (lookup j c.misses) ≡ (has_miss j now c).0
unfolding is_alive has_miss
alive-has_miss c now j h = ground arith

is_alive_again :
    (now : ℕ) (o : Option ℕ) → is_alive now (if is_alive now o then o else none) ≡ is_alive now o
unfolding is_alive
is_alive_again now o = ground arith

-- A restart loses no verdict and makes none up: from one TTL after the epoch on, a cache with distinct
-- keys that is saved and loaded again answers `hasMiss` as the old one does, and `hydrate` returns
-- exactly the pubkeys with a live miss.
pub hydrate-save :
    (c : ProfileMissCache) (old : Stored) (now : ℕ) (j : String)
    → Distinct (keys c.misses)
    → profile_miss_ttl_ms ≤ now
    → ((has_miss j now (reloaded c old now).0).0 ≡ (has_miss j now c).0)
      × (mem j (reloaded c old now).1 ≡ (has_miss j now c).0)
hydrate-save c old now j d h = (
  sym (alive-has_miss (reloaded c old now).0 now j h)
      ∙ ap (is_alive now) (lookup-reloaded c old now j d)
      ∙ is_alive_again now (lookup j c.misses)
      ∙ alive-has_miss c now j h,
  alive-reloaded c old now j d ∙ alive-has_miss c now j h,
)
