-- ===== src/Profiles/Tests.antt =====
-- The profile stack on concrete runs.
use livelier.Base.{
  ℕ, ◌+◌, ◌≤◌, String, true, false, ◌≡◌, refl, Option, none, some, List, [], ◌∷◌, if◌then◌else◌,
  All, arith,
}
use livelier.Base.Dict.{Dict, lookup, insert}
use livelier.Base.Keys.{mem, add_all, add, dedupe}
use livelier.Profiles.Backoff.{FailedProfileFetch, retry_delay}
use livelier.Profiles.MissCache.{ProfileMissCache, Stored, has_miss}
use livelier.Profiles.MissCache.Laws.{hydrate-save, reloaded}
use livelier.Profiles.Cache.{ProfileCacheService, store_profile, max_cache_size}
use livelier.Profiles.Cache.Info.{ProfileInfo}
use livelier.Profiles.Cache.Laws.{profile_cache_service}
use livelier.Profiles.Kind0.{Kind0, parse_kind0_content}
use livelier.Profiles.Ledger.{partition_pubkeys, apply_fetched_profiles, earliest_retry_at}
use livelier.Profiles.Coordinator.Ops.{
  Coordinator, Event, create, retain, count_up, on_fetched, fetched_from,
  profile_boot_aggregation_ms, profile_dispatch_min_spacing_ms,
}
use livelier.Profiles.Coordinator.Flush.{flush}
use livelier.Profiles.Coordinator.System.{
  System, send, boot, fetches_of, Reach, here, next, tick, retains, flushes,
}
use livelier.Profiles.Coordinator.SingleFlight.{Reach-single_flight}
use livelier.Profiles.Coordinator.Pacing.{Reach-paced, Spaced}
use livelier.Profiles.Coordinator.Progress.{Served, flush-Served}
use livelier.Profiles.Coordinator.Retry.{Armed, on_fetched-Armed}

ladder : retry_delay 3 ≡ 120000
unfolding retry_delay
ladder = refl

-- A parser that reads every content as a profile of that name.
abbrev reader : String → Option Kind0
reader content = some (record {
  name = some content;
  display_name = none;
  picture = none;
  about = none;
  nip05 = none;
  banner = none;
  website = none;
  lud16 = none;
})

abbrev parse : ℕ → String → Option ProfileInfo
parse = parse_kind0_content reader

abbrev no_profiles : ProfileCacheService
no_profiles = record { cache = []; initialized = true; save_armed = false }

abbrev no_misses : ProfileMissCache
no_misses = record { misses = []; save_armed = false }

-- Two views ask for profiles at boot, a flush after the window sends a batch, and the relays fail.
abbrev booted : System ProfileCacheService
booted = boot 1000 no_profiles no_misses

abbrev asked : System ProfileCacheService
asked = record booted { coordinator = retain ("alice" ∷ "bob" ∷ []) booted.coordinator }

abbrev later : System ProfileCacheService
later = record asked { clock = 6000 }

abbrev sent : System ProfileCacheService
sent = send later (flush profile_cache_service later.clock later.coordinator)

run : Reach parse profile_cache_service booted sent
unfolding boot
run = next (next (next here (retains ("alice" ∷ "bob" ∷ []))) (tick 6000 (omega arith))) flushes

sent_batch : sent.outstanding ≡ ("alice" ∷ "bob" ∷ []) ∷ []
unfolding send flush retain boot create dedupe add_all add insert partition_pubkeys
    livelier.Profiles.Cache.has_profile lookup
sent_batch = refl

Reach-single_flight_example :
    fetches_of "alice" sent.outstanding ≡ (if mem "alice" sent.coordinator.in_flight then 1 else 0)
Reach-single_flight_example =
    Reach-single_flight parse profile_cache_service 1000 no_profiles no_misses sent "alice" run

Reach-paced_example :
    Spaced profile_dispatch_min_spacing_ms sent.dispatched_at
    × All (λ t. 1000 + profile_boot_aggregation_ms ≤ t) sent.dispatched_at
Reach-paced_example = Reach-paced parse profile_cache_service 1000 no_profiles no_misses sent run

abbrev waiting : Coordinator ProfileCacheService
waiting = later.coordinator

flush-Served_example : Served profile_cache_service 6000 waiting "bob"
unfolding boot create retain count_up dedupe add_all add insert mem lookup
    livelier.Profiles.Cache.has_profile livelier.Profiles.Ledger.is_cooling
flush-Served_example = flush-Served profile_cache_service 6000 waiting "bob" refl refl

abbrev batched : Coordinator ProfileCacheService
batched = sent.coordinator

abbrev answers : List (Option Event)
answers =
    some (record { kind = 0; pubkey = "alice"; created_at = 5; content = "Alice" }) ∷ none ∷ []

on_fetched-Armed_example :
    Armed 7000
      (on_fetched parse profile_cache_service 7000
        ("alice" ∷ "bob" ∷ [])
        answers
        batched).retry_timer
unfolding send flush retain boot create dedupe add_all add insert partition_pubkeys
    livelier.Profiles.Cache.has_profile lookup mem fetched_from
on_fetched-Armed_example =
    on_fetched-Armed parse profile_cache_service 7000 ("alice" ∷ "bob" ∷ []) answers batched "bob"
      refl refl

hydrate-save_example :
    ((has_miss "bob" 700000000
        (reloaded
          (record { misses = ("bob", 690000000) ∷ []; save_armed = true })
          Stored.unavailable
          700000000).0).0
      ≡ (has_miss "bob" 700000000
          (record { misses = ("bob", 690000000) ∷ []; save_armed = true })).0)
    × (mem "bob"
          (reloaded
            (record { misses = ("bob", 690000000) ∷ []; save_armed = true })
            Stored.unavailable
            700000000).1
        ≡ (has_miss "bob" 700000000
            (record { misses = ("bob", 690000000) ∷ []; save_armed = true })).0)
unfolding mem
hydrate-save_example =
    hydrate-save (record { misses = ("bob", 690000000) ∷ []; save_armed = true }) Stored.unavailable
      700000000 "bob" (refl, tt) (omega arith)

abbrev settled : Dict (Option ProfileInfo)
settled = ("alice", parse 10 "Alice") ∷ ("bob", none) ∷ []

abbrev cooling : FailedProfileFetch
cooling = record { attempts = 1; next_retry_at = 60000 }

abbrev bob_profile : ProfileInfo
bob_profile = record {
  name = "Bob";
  picture = none;
  timestamp = 5000;
  last_updated = 5000;
  last_accessed = 0;
  access_count = 0;
  about = none;
  nip05 = none;
  banner = none;
  website = none;
  lud16 = none;
}

abbrev bob_cached : ProfileCacheService
bob_cached = record { cache = ("bob", bob_profile) ∷ []; initialized = true; save_armed = false }
