-- ===== src/Discovery/Tests.antt =====
-- The discovery engine on concrete runs.
use livelier.Base.{
  ℕ, ◌≤◌, String, true, false, ◌≡◌, refl, Option, none, some, List, [], ◌∷◌, ◌==◌, All, arith,
}
use livelier.Base.Keys.{mem}
use livelier.Discovery.Tags.{LiveEventTagParams, LiveEventStatus, ProxyProtocol}
use livelier.Discovery.Store.{InstanceRow, Status, Liveness, Origin, get, inserted, upsert_seen}
use livelier.Discovery.Store.Laws.{Settings, settings_at}
use livelier.Discovery.Engine.State.{
  EngineConfig, World, DiscoveredLive, DiscoveryResult, Engine, Cycle, new_cycle_metrics,
}
use livelier.Discovery.Engine.Steps.{seen_input, process_live, republish_due, next_probe}
use livelier.Discovery.Engine.Cycle.{run_cycle}
use livelier.Discovery.Migrations.{Migration, pending_migrations, run_migrations}
use livelier.Discovery.Migrations.Laws.{first_version, run_migrations-Resumes}
use livelier.Discovery.Engine.Safety.{
  Routed, Silent, Accounted, run_cycle-Silent, run_cycle-Routed, run_cycle-Accounted,
}
use livelier.Discovery.Engine.Lifecycle.{At, TornDown, reconcile_times, reconcile_times-TornDown}
use livelier.Discovery.Engine.Steady.{process_live-twice, polled_next}

abbrev config : EngineConfig
config = record {
  event_relay_url = "wss://events";
  chat_relay_url = "wss://chat";
  profile_write_relays = "wss://chat" ∷ "wss://profiles" ∷ [];
  republish_interval_ms = 900000;
  snapshot_interval_ms = 3600000;
  max_consecutive_failures = 3;
  default_discovery_enabled = true;
  default_chat_enabled = true;
  source_key = "owncast";
  source_name = "Owncast Directory";
  d_tag_prefix = "oc";
  proxy_protocol = ProxyProtocol.web;
}

-- A world in which every stream is live, and one in which none answers.
abbrev world : World
world = record {
  probe = λ _ _. Liveness.live;
  viewers = λ _ _. some (some 7);
  answers = λ _ _. true ∷ false ∷ [];
  bridge_pubkey = "bridge";
  pubkey_of = λ url. url;
  url_hash = λ url. url;
  profile_hash = λ content. content.name;
}

abbrev dark : World
dark = record world { probe = λ _ _. Liveness.error }

abbrev stream : String → DiscoveredLive
stream url = record {
  url = url;
  name = "A stream";
  stream_title = "Live now";
  description = "";
  picture = "";
  image = "";
  nsfw = false;
  starts_at = some 1700000000;
  stream_url = url;
  tags = "music" ∷ [];
}

abbrev row : String → InstanceRow
row url = inserted 1000 (seen_input config world 1000 (stream url))

abbrev opted_out : InstanceRow
opted_out = record (row "https://a") { discovery_enabled = false }

abbrev engine : Engine
engine = record {
  rows = opted_out ∷ row "https://b" ∷ [];
  last_schema_version = none;
  last_snapshot_at = none;
  snapshots = [];
}

abbrev result : Option DiscoveryResult
result = some (record { live = stream "https://a" ∷ stream "https://b" ∷ []; schema_version = "1" })

abbrev kept : Settings
kept = (false, true, Origin.discovered, "https://a", 1000)

run_cycle-Silent_example :
    Silent config world 2000 "https://a" (run_cycle config world 2000 result 2500 engine).1
    × (settings_at "https://a" (run_cycle config world 2000 result 2500 engine).0.rows ≡ some kept)
unfolding mem inserted get
run_cycle-Silent_example =
    run_cycle-Silent config world 2000 result 2500 engine (refl, (refl, tt)) "https://a" kept refl
      refl

run_cycle-Routed_example :
    All (Routed config world) (run_cycle config world 2000 result 2500 engine).1.published
unfolding mem inserted
run_cycle-Routed_example = run_cycle-Routed config world 2000 result 2500 engine (refl, (refl, tt))

run_cycle-Accounted_example :
    Accounted config world 2000 (run_cycle config world 2000 result 2500 engine).1
unfolding mem inserted
run_cycle-Accounted_example =
    run_cycle-Accounted config world 2000 result 2500 engine (refl, (refl, tt))

abbrev cycle : Cycle
cycle = record {
  rows = row "https://b" ∷ [];
  metrics = new_cycle_metrics;
  published = [];
  probed = [];
}

reconcile_times-TornDown_example :
    ((n : ℕ)
      → n ≤ 2
      → At config dark 2000 "https://b" Status.live n
          (reconcile_times config dark 2000 n "https://b" cycle)
        × ((reconcile_times config dark 2000 n "https://b" cycle).published ≡ []))
    × At config dark 2000 "https://b" Status.ended 3
        (reconcile_times config dark 2000 3 "https://b" cycle)
    × TornDown config dark 2000 "https://b" cycle
        (reconcile_times config dark 2000 3 "https://b" cycle)
unfolding get inserted
reconcile_times-TornDown_example =
    reconcile_times-TornDown config dark 2000 (λ _ _. refl) "https://b" 2 cycle refl
      (row "https://b", refl, refl, refl, refl)

process_live-twice_example :
    (r : InstanceRow) × (get "https://c"
        (process_live config world 2000 (stream "https://c") cycle).rows
      ≡ some r)
    × (republish_due 2000 config.republish_interval_ms r.last_published_at ≡ false)
    × ((later : ℕ) (s2 : Cycle)
        → get "https://c" s2.rows ≡ some r
        → republish_due later config.republish_interval_ms r.last_published_at ≡ false
        → next_probe config world later "https://c" s2
          ≡ next_probe config world 2000 "https://c" cycle
        → polled_next config world
            (next_probe config world 2000 "https://c" cycle)
            (stream "https://c")
            s2
          ≡ polled_next config world
              (next_probe config world 2000 "https://c" cycle)
              (stream "https://c")
              cycle
        → (process_live config world later (stream "https://c") s2).published ≡ s2.published)
unfolding upsert_seen get inserted
process_live-twice_example =
    process_live-twice config world 2000 (stream "https://c") cycle (omega arith) refl

abbrev params : LiveEventTagParams
params = record {
  d_tag = "oc-1";
  metadata = record { title = "T"; summary = "S"; image = "I"; tags = "music" ∷ "live" ∷ [] };
  streaming_url = "https://a/hls";
  host_pubkey = "host";
  status = LiveEventStatus.live;
  starts_timestamp = 1700000000;
  relays = "wss://chat" ∷ [];
  proxy = some (record { url = "https://a"; protocol = none });
  content_warning = "nsfw";
  current_participants = some 12;
}

-- Two migrations, listed out of order, of which the second one fails.
abbrev migrations : List Migration
migrations =
    record { version = 2; name = "flag"; sql = "" }
    ∷ record { version = 1; name = "init"; sql = "" }
    ∷ []

run_migrations-Resumes_example :
    first_version
      (pending_migrations migrations (run_migrations (λ m. m.name == "init") migrations []).applied)
    ≡ (run_migrations (λ m. m.name == "init") migrations []).failed
run_migrations-Resumes_example =
    run_migrations-Resumes (λ m. m.name == "init") migrations [] ((refl, tt), (tt, tt))
