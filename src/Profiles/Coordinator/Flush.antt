-- ===== src/Profiles/Coordinator/Flush.antt =====
-- `flush` and what surrounds it, `getProfiles` and `refreshProfiles` of `ProfileRequestCoordinator`.
use livelier.Base.{ℕ, ◌+◌, ◌-◌, max, String, Option, none, some, List, [], ◌∷◌, ltb, if◌then◌else◌}
use livelier.Base.Dict.{Dict, lookup, insert, erase, keys}
use livelier.Base.Keys.{add_all}
use livelier.Profiles.MissCache.{clear_miss}
use livelier.Profiles.Cache.Info.{ProfileInfo}
use livelier.Profiles.Cache.Interface.{ProfileCacheLike}
use livelier.Profiles.Ledger.{read_cached, partition_pubkeys}
use livelier.Profiles.Coordinator.Ops.{Coordinator, emit, schedule_retry}

-- `if (Object.keys(cachedProfiles).length > 0) this.emit();`
unfoldable pub emit_hits : {C : Type 0} → Dict ProfileInfo → Coordinator C → Coordinator C
unfolding emit
emit_hits [] s = s
emit_hits (_ ∷ _) s = emit s

-- The instant before which no dispatch may go out.
abbrev pub earliest_dispatch_at : {C : Type 0} → Coordinator C → ℕ
earliest_dispatch_at s = max s.boot_window_until (s.last_dispatch_at + s.dispatch_min_spacing_ms)

-- A flush that comes too early arms the one timer, unless it is armed.
unfoldable pub hold : {C : Type 0} → ℕ → Option ℕ → Coordinator C → Coordinator C
hold now (some t) s = s
hold now none s = record s { boot_timer = some (now + (earliest_dispatch_at s - now)) }

-- The end of a flush that found `missing` to fetch: the batch goes to the client, or there is none.
unfoldable pub dispatch :
    {C : Type 0} → ℕ → List String → Coordinator C → Coordinator C × Option (List String)
unfolding schedule_retry
dispatch now [] s = (schedule_retry now s, none)
dispatch now (pubkey ∷ rest) s = (
  record s { last_dispatch_at = now; in_flight = add_all (pubkey ∷ rest) s.in_flight },
  some (pubkey ∷ rest),
)

module _ (P : ProfileCacheLike) where
  open P use {Cache, has_profile, get_profile, store_profile, remove_profile}

  -- A flush that the pacing lets through, over the wanted pubkeys.
  unfoldable pub flush_now :
      ℕ → List String → Coordinator Cache → Coordinator Cache × Option (List String)
  unfolding emit_hits dispatch
  flush_now now [] s = (record s { retry_timer = none }, none)
  flush_now now (pubkey ∷ rest) s =
      let (p, cache) = partition_pubkeys P (pubkey ∷ rest) s.cache s.in_flight s.failures now in
      dispatch now p.missing_pubkeys (emit_hits p.cached_profiles (record s { cache = cache }))

  unfoldable pub flush : ℕ → Coordinator Cache → Coordinator Cache × Option (List String)
  unfolding hold flush_now
  flush now s =
      if ltb now (earliest_dispatch_at s)
      then (hold now s.boot_timer s, none)
      else flush_now now (keys s.wanted) s

  unfoldable pub on_boot_timer : ℕ → Coordinator Cache → Coordinator Cache × Option (List String)
  unfolding flush
  on_boot_timer now s = flush now (record s { boot_timer = none })

  unfoldable pub on_retry_timer : ℕ → Coordinator Cache → Coordinator Cache × Option (List String)
  unfolding flush
  on_retry_timer now s = flush now (record s { retry_timer = none })

  -- The result of `getProfiles`, read from the cache once the wait is over.
  unfoldable pub read_result :
      ℕ → List String → Cache → Dict (Option ProfileInfo) → Dict (Option ProfileInfo) × Cache
  unfolding read_cached
  read_result now [] cache result = (result, cache)
  read_result now (pubkey ∷ rest) cache result =
      let (found, cache') = read_cached P now pubkey cache in
      read_result now rest cache' (insert pubkey found result)

  -- `previous.set(pubkey, cached)` for a profile that is there.
  unfoldable pub remember : String → Option ProfileInfo → Dict ProfileInfo → Dict ProfileInfo
  remember pubkey none previous = previous
  remember pubkey (some profile) previous = insert pubkey profile previous

  -- The first loop of `refreshProfiles`: both caches and the ledger forget the pubkeys.
  unfoldable pub refresh_begin :
      ℕ → List String → Dict ProfileInfo → Coordinator Cache → Dict ProfileInfo × Coordinator Cache
  unfolding read_cached remember
  refresh_begin now [] previous s = (previous, s)
  refresh_begin now (pubkey ∷ rest) previous s =
      let (found, cache) = read_cached P now pubkey s.cache in
      refresh_begin now rest (remember pubkey found previous) (record s {
        cache = remove_profile pubkey cache;
        failures = erase pubkey s.failures;
        miss_cache = clear_miss pubkey s.miss_cache;
      })

  -- One pubkey of the second loop: a refetch that came back empty restores what was there.
  unfoldable pub restore :
      ℕ
      → String
      → Option (Option ProfileInfo)
      → Option ProfileInfo
      → Dict (Option ProfileInfo) × Cache
      → Dict (Option ProfileInfo) × Cache
  restore now pubkey (some (some _)) before r = r
  restore now pubkey _ none r = r
  restore now pubkey _ (some profile) (result, cache) =
      (insert pubkey (some profile) result, store_profile now pubkey profile cache)

  unfoldable pub restore_all :
      ℕ
      → List String
      → Dict ProfileInfo
      → Dict (Option ProfileInfo) × Cache
      → Dict (Option ProfileInfo) × Cache
  unfolding restore
  restore_all now [] previous r = r
  restore_all now (pubkey ∷ rest) previous r =
      restore_all now rest previous
        (restore now pubkey (lookup pubkey r.0) (lookup pubkey previous) r)

  unfoldable pub refresh_end :
      ℕ
      → List String
      → Dict ProfileInfo
      → Dict (Option ProfileInfo)
      → Coordinator Cache
      → Dict (Option ProfileInfo) × Coordinator Cache
  unfolding restore_all emit
  refresh_end now pubkeys previous result s =
      let (result', cache) = restore_all now pubkeys previous (result, s.cache) in
      (result', emit (record s { cache = cache }))
