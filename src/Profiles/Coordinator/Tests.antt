-- ===== src/Profiles/Coordinator/Tests.antt =====
-- A wait for a profile, on a concrete batch.
use livelier.Base.{String, true, false, ◌≡◌, refl, [], ◌∷◌, arith}
use livelier.Base.Keys.{mem}
use livelier.Profiles.Cache.{ProfileCacheService}
use livelier.Profiles.Cache.Laws.{profile_cache_service}
use livelier.Profiles.Coordinator.Ops.{Coordinator, create, on_rejected}
use livelier.Profiles.Coordinator.Waiting.{Wait, on_notify, resolved, on_rejected-resolves}

abbrev asking : Coordinator ProfileCacheService
asking =
    create 1000 record { cache = []; initialized = true; save_armed = false }
      record { misses = []; save_armed = false }

abbrev wait : Wait
wait = record { pubkeys = "alice" ∷ []; done = false; listening = true; armed = true }

in_batch : (j : String) → mem j ("alice" ∷ []) ≡ true → mem j ("bob" ∷ "alice" ∷ []) ≡ true
unfolding mem
in_batch j m = ground (arith, m)

on_rejected-resolves_example :
    (on_notify profile_cache_service 6000 wait (on_rejected 5000 ("bob" ∷ "alice" ∷ []) asking)).0
    ≡ resolved profile_cache_service wait
on_rejected-resolves_example =
    on_rejected-resolves profile_cache_service 5000 6000 ("bob" ∷ "alice" ∷ []) wait asking refl
      refl in_batch
