-- ===== src/Discovery/Engine/Safety.antt =====
-- What holds of a whole cycle of `runCycle`, whatever the adapter and the relays answer.
use livelier.Base.{
  ℕ, ◌+◌, ◌≤◌, String, true, false, ◌≡◌, refl, ap, Option, none, some, List, [], ◌∷◌, ◌⊎◌,
  if◌then◌else◌, arith, inl, inr, All, map, length, eqb, ◌==◌, eq_iff,
}
use livelier.Base.Keys.{mem, Distinct}
use livelier.Discovery.Store.{Liveness}
use livelier.Discovery.Store.Laws.{Settings, settings_at, urls}
use livelier.Discovery.Publisher.{publish_profile, publish_relay_list, publish_live_event}
use livelier.Discovery.Engine.State.{
  EngineConfig, DiscoveryResult, World, Cycle, Engine, Sent, new_cycle_metrics,
}
use livelier.Discovery.Engine.Steps.{emit, count_liveness}
use livelier.Discovery.Engine.Cycle.{run_cycle}
use livelier.Discovery.Engine.Trace.{
  Reach, here, sees, skips, probes, counts, sends_profile, sends_relay_list, announces, tears_down,
  writes, Reach-settings, enabled,
}
use livelier.Discovery.Engine.Refine.{run_passes-Reach, Reach-Distinct}

abbrev pub subjects : List Sent → List String
subjects = map (λ p. p.subject)

-- How many publications of a kind there are.
abbrev pub of_kind : ℕ → List Sent → ℕ
of_kind k [] = 0
of_kind k (p ∷ ps) = (if eqb p.publication.kind k then 1 else 0) + of_kind k ps

module _ (config : EngineConfig) (world : World) where
  -- A live event is the bridge's and goes to the event relay alone; a profile or a relay list is the
  -- instance's and goes to the profile relays.
  abbrev pub Routed : Sent → Type 0
  Routed p =
      ((p.publication.kind ≡ 30311)
        × (p.publication.author ≡ world.bridge_pubkey)
        × (p.publication.relays ≡ config.event_relay_url ∷ []))
      ⊎ (((p.publication.kind ≡ 0) ⊎ (p.publication.kind ≡ 10002))
          × (p.publication.author ≡ world.pubkey_of p.subject)
          × (p.publication.relays ≡ config.profile_write_relays))

  module _ (now : ℕ) where
    Reach-Routed :
        {x y : Cycle} → Reach config world now x y → All Routed x.published → All Routed y.published
    unfolding emit publish_profile publish_relay_list publish_live_event
    Reach-Routed here h = h
    Reach-Routed (sees _ r) h = Reach-Routed r h
    Reach-Routed (skips r) h = Reach-Routed r h
    Reach-Routed (probes _ _ r) h = Reach-Routed r h
    Reach-Routed (counts _ r) h = Reach-Routed r h
    Reach-Routed (sends_profile _ _ _ r) h = (inr (inl refl, refl, refl), Reach-Routed r h)
    Reach-Routed (sends_relay_list _ _ r) h = (inr (inr refl, refl, refl), Reach-Routed r h)
    Reach-Routed (announces _ _ (a, b) _ r) h =
        (inl (refl, a, ap (λ u. u ∷ []) b), Reach-Routed r h)
    Reach-Routed (tears_down _ _ (a, b) _ r) h =
        (inl (refl, a, ap (λ u. u ∷ []) b), Reach-Routed r h)
    Reach-Routed (writes _ _ _ _ r) h = Reach-Routed r h

    -- Neither a probe nor a publication is about `url`.
    abbrev pub Silent : String → Cycle → Type 0
    Silent url s = (mem url s.probed ≡ false) × (mem url (subjects s.published) ≡ false)

    other_url :
        (url u : String) (x s : Cycle) (v : Settings)
        → Reach config world now x s
        → settings_at url x.rows ≡ some v
        → v.0 ≡ false
        → enabled u s ≡ true
        → (u == url) ≡ false
    other_url url u x s v r g off on =
        ground (arith, eq_iff u url, Reach-settings config world now url v r g)

    Reach-Silent :
        (url : String) (v : Settings) {x y : Cycle}
        → Reach config world now x y
        → settings_at url x.rows ≡ some v
        → v.0 ≡ false
        → Silent url x
        → Silent url y
    unfolding emit mem
    Reach-Silent url v here g off h = h
    Reach-Silent url v (sees _ r) g off h = Reach-Silent url v r g off h
    Reach-Silent url v (skips r) g off h = Reach-Silent url v r g off h
    Reach-Silent url v {x = x} (probes {s = s} u on r) g off h =
        ground (arith, other_url url u x s v r g off on, Reach-Silent url v r g off h)
    Reach-Silent url v (counts _ r) g off h = Reach-Silent url v r g off h
    Reach-Silent url v {x = x} (sends_profile {s = s} u _ on r) g off h =
        ground (arith, other_url url u x s v r g off on, Reach-Silent url v r g off h)
    Reach-Silent url v {x = x} (sends_relay_list {s = s} u on r) g off h =
        ground (arith, other_url url u x s v r g off on, Reach-Silent url v r g off h)
    Reach-Silent url v {x = x} (announces {s = s} u _ _ on r) g off h =
        ground (arith, other_url url u x s v r g off on, Reach-Silent url v r g off h)
    Reach-Silent url v {x = x} (tears_down {s = s} u _ _ on r) g off h =
        ground (arith, other_url url u x s v r g off on, Reach-Silent url v r g off h)
    Reach-Silent url v (writes _ _ _ _ r) g off h = Reach-Silent url v r g off h

    -- The counters agree with the publications.
    abbrev pub Accounted : Cycle → Type 0
    Accounted s =
        (of_kind 30311 s.published ≡ s.metrics.published_30311 + s.metrics.ended_this_cycle)
        × (of_kind 0 s.published ≡ s.metrics.published_profiles)
        × (s.metrics.relay_write_failures ≤ length s.published)

    counts-Accounted :
        (l : Liveness) (s : Cycle)
        → Accounted s
        → Accounted (record s { metrics = count_liveness l s.metrics })
    counts-Accounted Liveness.live s h = h
    counts-Accounted Liveness.ended s h = h
    counts-Accounted Liveness.error s h = h

    Reach-Accounted : {x y : Cycle} → Reach config world now x y → Accounted x → Accounted y
    unfolding emit publish_profile publish_relay_list publish_live_event
    Reach-Accounted here h = h
    Reach-Accounted (sees _ r) h = Reach-Accounted r h
    Reach-Accounted (skips r) h = Reach-Accounted r h
    Reach-Accounted (probes _ _ r) h = Reach-Accounted r h
    Reach-Accounted (counts {s = s} l r) h = counts-Accounted l s (Reach-Accounted r h)
    Reach-Accounted (sends_profile _ _ _ r) h = ground (arith, Reach-Accounted r h)
    Reach-Accounted (sends_relay_list _ _ r) h = ground (arith, Reach-Accounted r h)
    Reach-Accounted (announces _ _ _ _ r) h = ground (arith, Reach-Accounted r h)
    Reach-Accounted (tears_down _ _ _ _ r) h = ground (arith, Reach-Accounted r h)
    Reach-Accounted (writes _ _ _ _ r) h = Reach-Accounted r h

    -- The cycle that the passes start from.
    abbrev pub begun : DiscoveryResult → Engine → Cycle
    begun result e = record {
      rows = e.rows;
      metrics = record new_cycle_metrics {
        directory_ok = true;
        schema_version = result.schema_version;
        live_in_directory = length result.live;
      };
      published = [];
      probed = [];
    }

    -- A cycle on a table with distinct URLs leaves them distinct, neither deletes a row nor moves the
    -- flags, the origin, the key and the first sight of a row that is there, whether the fetch fails or not.
    pub run_cycle-settings :
        (result : Option DiscoveryResult) (finished : ℕ) (e : Engine)
        → Distinct (urls e.rows)
        → Distinct (urls (run_cycle config world now result finished e).0.rows)
          × ((url : String) (v : Settings)
              → settings_at url e.rows ≡ some v
              → settings_at url (run_cycle config world now result finished e).0.rows ≡ some v)
    unfolding run_cycle
    run_cycle-settings none finished e d = (d, λ url v g. g)
    run_cycle-settings (some result) finished e d =
        let r = run_passes-Reach config world now result (begun result e) d in
        (Reach-Distinct config world now r d, λ url v g. Reach-settings config world now url v r g)

    -- While a row is opted out, a cycle neither probes its stream nor publishes anything for it, and the
    -- row stays opted out.
    pub run_cycle-Silent :
        (result : Option DiscoveryResult) (finished : ℕ) (e : Engine)
        → Distinct (urls e.rows)
        → (url : String) (v : Settings) → settings_at url e.rows ≡ some v
        → v.0 ≡ false
        → Silent url (run_cycle config world now result finished e).1
          × (settings_at url (run_cycle config world now result finished e).0.rows ≡ some v)
    unfolding run_cycle mem
    run_cycle-Silent none finished e d url v g off = ((refl, refl), g)
    run_cycle-Silent (some result) finished e d url v g off =
        let r = run_passes-Reach config world now result (begun result e) d in
        (Reach-Silent url v r g off (refl, refl), Reach-settings config world now url v r g)

    -- Every publication of a cycle is either a live event by the bridge to the event relay and no other,
    -- or the profile or the relay list of an instance, by its own key, to the profile relays.
    pub run_cycle-Routed :
        (result : Option DiscoveryResult) (finished : ℕ) (e : Engine)
        → Distinct (urls e.rows)
        → All Routed (run_cycle config world now result finished e).1.published
    unfolding run_cycle
    run_cycle-Routed none finished e d = tt
    run_cycle-Routed (some result) finished e d =
        Reach-Routed (run_passes-Reach config world now result (begun result e) d) tt

    -- At the end of a cycle the live events count `published30311 + endedThisCycle`, the profiles
    -- `publishedProfiles`, and the failed writes are no more than the publications.
    pub run_cycle-Accounted :
        (result : Option DiscoveryResult) (finished : ℕ) (e : Engine)
        → Distinct (urls e.rows)
        → Accounted (run_cycle config world now result finished e).1
    unfolding run_cycle new_cycle_metrics
    run_cycle-Accounted none finished e d = (refl, refl, omega arith)
    run_cycle-Accounted (some result) finished e d =
        Reach-Accounted (run_passes-Reach config world now result (begun result e) d)
          (refl, refl, omega arith)
