-- ===== src/Profiles/Coordinator/Pacing.antt =====
-- The pacing of dispatches: the boot window, then a minimum gap between any two.
use livelier.Base.{
  ℕ, ◌+◌, ◌≤◌, ◌≡◌, refl, sym, ◌∙◌, String, Option, none, some, List, [], ◌∷◌, arith, All,
}
use livelier.Profiles.MissCache.{ProfileMissCache}
use livelier.Profiles.Cache.Info.{ProfileInfo}
use livelier.Profiles.Cache.Interface.{ProfileCacheLike}
use livelier.Profiles.Coordinator.Ops.{
  Coordinator, create, on_hydrated, retain, release, profile_dispatch_min_spacing_ms,
  profile_boot_aggregation_ms,
}
use livelier.Profiles.Coordinator.Flush.{flush, on_boot_timer, on_retry_timer, refresh_end}
use livelier.Profiles.Coordinator.System.{
  System, send, boot, Step, Reach, tick, hydrates, retains, releases, flushes, boot_timer_fires,
  retry_timer_fires, streams, fetched, rejected, refresh_begins, refresh_ends, here, next,
}
use livelier.Profiles.Coordinator.Pace.{
  SamePace, Paced, Paced-SamePace, on_rejected-SamePace, flush-Paced, on_fetched-SamePace,
  early-SamePace, refresh_begin-SamePace,
}

-- Neighbours in the log, the latest first, are at least `gap` apart.
abbrev pub Spaced : ℕ → List ℕ → Type 0
Spaced gap [] = Unit
Spaced gap (t ∷ []) = Unit
Spaced gap (t ∷ u ∷ log) = (u + gap ≤ t) × Spaced gap (u ∷ log)

abbrev HeadIs : ℕ → List ℕ → Type 0
HeadIs last [] = Unit
HeadIs last (t ∷ _) = t ≡ last

record Inv {C : Type 0} (start : ℕ) (x : System C) : Type 0 where
  window : x.coordinator.boot_window_until ≡ start + profile_boot_aggregation_ms
  gap : x.coordinator.dispatch_min_spacing_ms ≡ profile_dispatch_min_spacing_ms
  head : HeadIs x.coordinator.last_dispatch_at x.dispatched_at
  spaced : Spaced profile_dispatch_min_spacing_ms x.dispatched_at
  after_boot : All (λ t. start + profile_boot_aggregation_ms ≤ t) x.dispatched_at

Spaced-cons :
    (now last : ℕ) (log : List ℕ)
    → HeadIs last log
    → last + profile_dispatch_min_spacing_ms ≤ now
    → Spaced profile_dispatch_min_spacing_ms log
    → Spaced profile_dispatch_min_spacing_ms (now ∷ log)
Spaced-cons now last [] e h s = tt
Spaced-cons now last (t ∷ log) e h s = (omega arith, s)

module _ {C : Type 0} (start : ℕ) where
  send-Inv :
      (x : System C) (r : Coordinator C × Option (List String))
      → Inv start x
      → Paced x.clock x.coordinator r
      → Inv start (send x r)
  unfolding send
  send-Inv x (s, none) v p = record {
    window = p.window ∙ v.window;
    gap = p.gap ∙ v.gap;
    head = rw p.last v.head;
    spaced = v.spaced;
    after_boot = v.after_boot;
  }
  send-Inv x (s, some b) v p = record {
    window = p.2 ∙ v.window;
    gap = p.3 ∙ v.gap;
    head = sym p.1;
    spaced =
        Spaced-cons x.clock x.coordinator.last_dispatch_at x.dispatched_at v.head
          (omega (arith, v.gap, p.0)) v.spaced;
    after_boot = (omega (arith, v.window, p.0), v.after_boot);
  }

  same-Inv :
      (x : System C) (s : Coordinator C) (clock : ℕ) (out : List (List String))
      → Inv start x
      → SamePace x.coordinator s
      → Inv start (record x { clock = clock; coordinator = s; outstanding = out })
  same-Inv x s clock out v p = record {
    window = p.window ∙ v.window;
    gap = p.gap ∙ v.gap;
    head = rw p.last v.head;
    spaced = v.spaced;
    after_boot = v.after_boot;
  }

module _ (parse : ℕ → String → Option ProfileInfo) (P : ProfileCacheLike) (start : ℕ) where
  Step-Inv : {x y : System P.Cache} → Step parse P x y → Inv start x → Inv start y
  unfolding retain release on_hydrated on_boot_timer on_retry_timer refresh_end
  Step-Inv {x} (tick now h) v =
      same-Inv start x x.coordinator now x.outstanding v
        (record { window = refl; last = refl; gap = refl })
  Step-Inv {x} (hydrates missed) v =
      same-Inv start x (on_hydrated missed x.coordinator) x.clock x.outstanding v
        (record { window = refl; last = refl; gap = refl })
  Step-Inv {x} (retains ks) v =
      same-Inv start x (retain ks x.coordinator) x.clock x.outstanding v
        (record { window = refl; last = refl; gap = refl })
  Step-Inv {x} (releases ks) v =
      same-Inv start x (release x.clock ks x.coordinator) x.clock x.outstanding v
        (record { window = refl; last = refl; gap = refl })
  Step-Inv {x} flushes v = send-Inv start x _ v (flush-Paced P x.clock x.coordinator)
  Step-Inv {x} boot_timer_fires v =
      send-Inv start x (flush P x.clock (record (x.coordinator) { boot_timer = none })) v (
        Paced-SamePace x.clock x.coordinator (record (x.coordinator) { boot_timer = none }) _
          (record { window = refl; last = refl; gap = refl })
          (flush-Paced P x.clock (record (x.coordinator) { boot_timer = none })))
  Step-Inv {x} retry_timer_fires v =
      send-Inv start x (flush P x.clock (record (x.coordinator) { retry_timer = none })) v (
        Paced-SamePace x.clock x.coordinator (record (x.coordinator) { retry_timer = none }) _
          (record { window = refl; last = refl; gap = refl })
          (flush-Paced P x.clock (record (x.coordinator) { retry_timer = none })))
  Step-Inv {x} (streams e) v =
      same-Inv start x _ _ _ v (early-SamePace parse P x.clock e x.coordinator)
  Step-Inv {x} (fetched before after batch events e) v =
      same-Inv start x _ _ _ v (on_fetched-SamePace parse P x.clock batch events x.coordinator)
  Step-Inv {x} (rejected before after batch e) v =
      same-Inv start x _ _ _ v (on_rejected-SamePace x.clock batch x.coordinator)
  Step-Inv {x} (refresh_begins ks previous) v =
      same-Inv start x _ _ _ v (refresh_begin-SamePace P x.clock ks previous x.coordinator)
  Step-Inv {x} (refresh_ends ks previous result) v =
      same-Inv start x (refresh_end P x.clock ks previous result x.coordinator).1 x.clock
        x.outstanding v (record { window = refl; last = refl; gap = refl })

  Reach-Inv : {x y : System P.Cache} → Inv start x → Reach parse P x y → Inv start y
  Reach-Inv v here = v
  Reach-Inv v (next r st) = Step-Inv st (Reach-Inv v r)

  boot-Inv : (cache : P.Cache) (misses : ProfileMissCache) → Inv start (boot start cache misses)
  unfolding boot create
  boot-Inv cache misses = record {
    window = refl;
    gap = refl;
    head = tt;
    spaced = tt;
    after_boot = tt;
  }

  -- Whatever callers, relays, timers and the clock do after the start, no dispatch goes out within the
  -- boot window of 2 seconds, and any two are at least 5 seconds apart.
  pub Reach-paced :
      (cache : P.Cache) (misses : ProfileMissCache) (x : System P.Cache)
      → Reach parse P (boot start cache misses) x
      → Spaced profile_dispatch_min_spacing_ms x.dispatched_at
        × All (λ t. start + profile_boot_aggregation_ms ≤ t) x.dispatched_at
  Reach-paced cache misses x r =
      let v = Reach-Inv (boot-Inv cache misses) r in (v.spaced, v.after_boot)
