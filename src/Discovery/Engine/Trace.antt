-- ===== src/Discovery/Engine/Trace.antt =====
-- The atomic steps of a discovery cycle: what a pass does to the table, the relays and the metrics.
-- A step on an instance asks for its row to be there and opted in.
use livelier.Base.{
  ℕ, suc, ◌+◌, String, Bool, true, ◌≡◌, some, if◌then◌else◌, Option-cases, inl, inr, arith, ◌∙◌,
}
use livelier.Discovery.Store.{InstanceRow, Liveness, upsert_seen}
use livelier.Discovery.Store.Laws.{
  settings_at, is_enabled, Keeps, settings_at-update, settings_at-upsert_seen, Settings,
}
use livelier.Discovery.Publisher.{
  BridgedProfileInput, LivePublishInput, publish_profile, publish_relay_list, publish_live_event,
}
use livelier.Discovery.Engine.State.{EngineConfig, DiscoveredLive, World, Cycle}
use livelier.Discovery.Engine.Steps.{emit, note_probe, set_row, seen_input, count_liveness}

-- `url` has a row, and it is not opted out.
abbrev pub enabled : String → Cycle → Bool
enabled url s = is_enabled (settings_at url s.rows)

module _ (config : EngineConfig) (world : World) (now : ℕ) where
  abbrev pub see : DiscoveredLive → Cycle → Cycle
  see i s =
      let seen = upsert_seen now (seen_input config world now i) s.rows in
      record s {
        rows = seen.2;
        metrics = record s.metrics {
          new_instances = (if seen.1 then 1 else 0) + s.metrics.new_instances;
        };
      }

  abbrev pub skip : Cycle → Cycle
  skip s = record s {
    metrics = record s.metrics { disabled_skipped = suc s.metrics.disabled_skipped };
  }

  abbrev pub count_probe : Liveness → Cycle → Cycle
  count_probe l s = record s { metrics = count_liveness l s.metrics }

  abbrev pub send_profile : String → BridgedProfileInput → Cycle → Cycle
  send_profile url profile s =
      let s1 =
        emit config world now url
          (publish_profile (world.pubkey_of url) profile config.profile_write_relays) s in
      record s1 {
        metrics = record s1.metrics { published_profiles = suc s1.metrics.published_profiles };
      }

  abbrev pub send_relay_list : String → Cycle → Cycle
  send_relay_list url s =
      emit config world now url
        (publish_relay_list (world.pubkey_of url) config.event_relay_url config.chat_relay_url
          config.profile_write_relays)
        s

  abbrev pub announce : String → LivePublishInput → Cycle → Cycle
  announce url input s =
      emit config world now url (publish_live_event input) (record s {
        metrics = record s.metrics { published_30311 = suc s.metrics.published_30311 };
      })

  abbrev pub tear_down : String → LivePublishInput → Cycle → Cycle
  tear_down url input s =
      let s1 = emit config world now url (publish_live_event input) s in
      record s1 {
        metrics = record s1.metrics { ended_this_cycle = suc s1.metrics.ended_this_cycle };
      }

  -- The event is the bridge's, for the event relay.
  abbrev pub FromBridge : LivePublishInput → Type 0
  FromBridge input =
      (input.signer ≡ world.bridge_pubkey) × (input.relay_url ≡ config.event_relay_url)

  pub data Reach (x : Cycle) : Cycle → Type 0 where
    here : Reach x x
    sees : {s : Cycle} (i : DiscoveredLive) → Reach x s → Reach x (see i s)
    skips : {s : Cycle} → Reach x s → Reach x (skip s)
    probes :
        {s : Cycle} (url : String)
        → enabled url s ≡ true
        → Reach x s
        → Reach x (note_probe config world now url s)
    counts : {s : Cycle} (l : Liveness) → Reach x s → Reach x (count_probe l s)
    sends_profile :
        {s : Cycle} (url : String) (profile : BridgedProfileInput)
        → enabled url s ≡ true
        → Reach x s
        → Reach x (send_profile url profile s)
    sends_relay_list :
        {s : Cycle} (url : String)
        → enabled url s ≡ true
        → Reach x s
        → Reach x (send_relay_list url s)
    announces :
        {s : Cycle} (url : String) (input : LivePublishInput)
        → FromBridge input
        → enabled url s ≡ true
        → Reach x s
        → Reach x (announce url input s)
    tears_down :
        {s : Cycle} (url : String) (input : LivePublishInput)
        → FromBridge input
        → enabled url s ≡ true
        → Reach x s
        → Reach x (tear_down url input s)
    writes :
        {s : Cycle} (url : String) (f : InstanceRow → InstanceRow)
        → Keeps f
        → enabled url s ≡ true
        → Reach x s
        → Reach x (set_row config world now url f s)

  pub Reach-trans : {x y z : Cycle} → Reach x y → Reach y z → Reach x z
  Reach-trans r here = r
  Reach-trans r (sees i q) = sees i (Reach-trans r q)
  Reach-trans r (skips q) = skips (Reach-trans r q)
  Reach-trans r (probes url e q) = probes url e (Reach-trans r q)
  Reach-trans r (counts l q) = counts l (Reach-trans r q)
  Reach-trans r (sends_profile url p e q) = sends_profile url p e (Reach-trans r q)
  Reach-trans r (sends_relay_list url e q) = sends_relay_list url e (Reach-trans r q)
  Reach-trans r (announces url i b e q) = announces url i b e (Reach-trans r q)
  Reach-trans r (tears_down url i b e q) = tears_down url i b e (Reach-trans r q)
  Reach-trans r (writes url f k e q) = writes url f k e (Reach-trans r q)

  -- The settings of a row that is there do not move.
  pub Reach-settings :
      (url : String) {x y : Cycle} (v : Settings)
      → Reach x y
      → settings_at url x.rows ≡ some v
      → settings_at url y.rows ≡ some v
  unfolding emit
  Reach-settings url v here e = e
  Reach-settings url v (sees {s = s} i r) e = ground (
    arith,
    Reach-settings url v r e,
    settings_at-upsert_seen now (seen_input config world now i) url s.rows,
  )
  Reach-settings url v (skips r) e = Reach-settings url v r e
  Reach-settings url v (probes _ _ r) e = Reach-settings url v r e
  Reach-settings url v (counts _ r) e = Reach-settings url v r e
  Reach-settings url v (sends_profile _ _ _ r) e = Reach-settings url v r e
  Reach-settings url v (sends_relay_list _ _ r) e = Reach-settings url v r e
  Reach-settings url v (announces _ _ _ _ r) e = Reach-settings url v r e
  Reach-settings url v (tears_down _ _ _ _ r) e = Reach-settings url v r e
  Reach-settings url v (writes {s = s} u f k _ r) e =
      settings_at-update now u url f s.rows k ∙ Reach-settings url v r e

  pub Reach-enabled :
      (url : String) {x y : Cycle} → Reach x y → enabled url x ≡ true → enabled url y ≡ true
  Reach-enabled url {x = x} r e = elim (Option-cases (settings_at url x.rows)) [
    | inl n ↦ ground (arith, n)
    | inr (v, h) ↦ ground (arith, h, Reach-settings url v r h)
  ]
