-- ===== src/Profiles/Coordinator/Pace.antt =====
-- What each method does to the fields that the pacing of dispatches reads.
use livelier.Base.{
  ℕ, ◌≤◌, ◌≡◌, refl, ◌∙◌, Bool-cases, inl, inr, String, Option, none, some, List, [], ◌∷◌, arith,
  ltb,
}
use livelier.Base.Dict.{Dict, keys}
use livelier.Base.Keys.{remove_all}
use livelier.Profiles.Cache.Info.{ProfileInfo}
use livelier.Profiles.Cache.Interface.{ProfileCacheLike}
use livelier.Profiles.Ledger.{partition_pubkeys, apply_fetched_profiles, release_failed_pubkeys}
use livelier.Profiles.Coordinator.Ops.{
  Coordinator, Event, on_fetched, on_rejected, fetched_from, apply_early_profile_event,
  apply_boot_fast_retry_lane,
}
use livelier.Profiles.Coordinator.Flush.{
  earliest_dispatch_at, flush, flush_now, dispatch, hold, emit_hits, refresh_begin,
}

-- The three fields that the pacing reads.
pub record SamePace {C : Type 0} (s s' : Coordinator C) : Type 0 where
  pub window : s'.boot_window_until ≡ s.boot_window_until
  pub last : s'.last_dispatch_at ≡ s.last_dispatch_at
  pub gap : s'.dispatch_min_spacing_ms ≡ s.dispatch_min_spacing_ms

-- A flush that hands over a batch does so no earlier than allowed, and notes the instant.
abbrev pub Paced : {C : Type 0} → ℕ → Coordinator C → Coordinator C × Option (List String) → Type 0
Paced now s (s', none) = SamePace s s'
Paced now s (s', some _) =
    (earliest_dispatch_at s ≤ now)
    × (s'.last_dispatch_at ≡ now)
    × (s'.boot_window_until ≡ s.boot_window_until)
    × (s'.dispatch_min_spacing_ms ≡ s.dispatch_min_spacing_ms)

module _ {C : Type 0} where
  pub Paced-SamePace :
      (now : ℕ) (s s' : Coordinator C) (r : Coordinator C × Option (List String))
      → SamePace s s'
      → Paced now s' r
      → Paced now s r
  Paced-SamePace now s s' (u, none) v p = record {
    window = p.window ∙ v.window;
    last = p.last ∙ v.last;
    gap = p.gap ∙ v.gap;
  }
  Paced-SamePace now s s' (u, some b) v p =
      (omega (arith, v.window, v.last, v.gap), p.1, p.2 ∙ v.window, p.3 ∙ v.gap)

  hold-SamePace : (now : ℕ) (t : Option ℕ) (s : Coordinator C) → SamePace s (hold now t s)
  unfolding hold
  hold-SamePace now none s = record { window = refl; last = refl; gap = refl }
  hold-SamePace now (some t) s = record { window = refl; last = refl; gap = refl }

  dispatch-Paced :
      (now : ℕ) (missing : List String) (s base : Coordinator C)
      → SamePace base s
      → earliest_dispatch_at base ≤ now
      → Paced now base (dispatch now missing s)
  unfolding dispatch
  dispatch-Paced now [] s base v h = record { window = v.window; last = v.last; gap = v.gap }
  dispatch-Paced now (k ∷ rest) s base v h = (h, refl, v.window, v.gap)

  emit_hits-SamePace :
      (hits : Dict ProfileInfo) (s base : Coordinator C)
      → SamePace base s
      → SamePace base (emit_hits hits s)
  unfolding emit_hits
  emit_hits-SamePace [] s base v = v
  emit_hits-SamePace (_ ∷ _) s base v = record { window = v.window; last = v.last; gap = v.gap }

  lane-SamePace :
      (now : ℕ) (ks : List String) (s : Coordinator C)
      → SamePace s (apply_boot_fast_retry_lane now ks s)
  unfolding apply_boot_fast_retry_lane
  lane-SamePace now ks s = record { window = ground arith; last = ground arith; gap = ground arith }

  pub on_rejected-SamePace :
      (now : ℕ) (ks : List String) (s : Coordinator C) → SamePace s (on_rejected now ks s)
  unfolding on_rejected
  on_rejected-SamePace now ks s =
      let (in_flight, failures) = release_failed_pubkeys ks s.in_flight s.failures now in
      let v = lane-SamePace now ks (record s { in_flight = in_flight; failures = failures }) in
      record { window = v.window; last = v.last; gap = v.gap }

module _ (P : ProfileCacheLike) where
  flush_now-Paced :
      (now : ℕ) (ks : List String) (s : Coordinator P.Cache)
      → earliest_dispatch_at s ≤ now
      → Paced now s (flush_now P now ks s)
  unfolding flush_now
  flush_now-Paced now [] s h = record { window = refl; last = refl; gap = refl }
  flush_now-Paced now (k ∷ rest) s h =
      let (p, cache) = partition_pubkeys P (k ∷ rest) s.cache s.in_flight s.failures now in
      dispatch-Paced now p.missing_pubkeys
        (emit_hits p.cached_profiles (record s { cache = cache })) s
        (emit_hits-SamePace p.cached_profiles (record s { cache = cache }) s
          (record { window = refl; last = refl; gap = refl }))
        h

  pub flush-Paced : (now : ℕ) (s : Coordinator P.Cache) → Paced now s (flush P now s)
  unfolding flush
  flush-Paced now s = elim (Bool-cases (ltb now (earliest_dispatch_at s))) [
    | inl early ↦ rw (early, flush) (hold-SamePace now s.boot_timer s)
    | inr due ↦ rw (due, flush) (flush_now-Paced now (keys s.wanted) s (ground arith))
  ]

  pub refresh_begin-SamePace :
      (now : ℕ) (ks : List String) (previous : Dict ProfileInfo) (s : Coordinator P.Cache)
      → SamePace s (refresh_begin P now ks previous s).1
  unfolding refresh_begin
  refresh_begin-SamePace now [] previous s = record { window = refl; last = refl; gap = refl }
  refresh_begin-SamePace now (k ∷ ks) previous s =
      let v = refresh_begin-SamePace now ks _ _ in
      record { window = v.window; last = v.last; gap = v.gap }

module _ (parse : ℕ → String → Option ProfileInfo) (P : ProfileCacheLike) where
  pub on_fetched-SamePace :
      (now : ℕ) (ks : List String) (events : List (Option Event)) (s : Coordinator P.Cache)
      → SamePace s (on_fetched parse P now ks events s)
  unfolding on_fetched
  on_fetched-SamePace now ks events s =
      let got = fetched_from parse now ks events [] in
      let settled = apply_fetched_profiles P got s.cache s.in_flight s.failures now in
      let v = lane-SamePace now ks (record s {
        cache = settled.cache;
        in_flight = remove_all ks settled.requested;
        failures = settled.failures;
      }) in
      record { window = v.window; last = v.last; gap = v.gap }

  pub early-SamePace :
      (now : ℕ) (e : Event) (s : Coordinator P.Cache)
      → SamePace s (apply_early_profile_event parse P now e s)
  unfolding apply_early_profile_event
  early-SamePace now e s = record { window = ground arith; last = ground arith; gap = ground arith }
