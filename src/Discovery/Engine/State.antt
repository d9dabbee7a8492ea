-- ===== src/Discovery/Engine/State.antt =====
-- packages/bridge/src/core/discovery/types.ts, metrics.ts and the state of DiscoveryBridgeService
-- (discovery-bridge.service.ts). One cycle reads the clock once, as `now`; the engine's I/O is a
-- parameter: the adapter's answers, the relays' answers, and the hashes and keys of identity.ts.
use livelier.Base.{ℕ, String, Bool, false, Option, List, any}
use livelier.Base.Text.{cat}
use livelier.Discovery.Tags.{ProxyProtocol}
use livelier.Discovery.Store.{InstanceRow, Liveness, LiveSnapshot}
use livelier.Discovery.Publisher.{Publication, ProfileContent}

-- The configuration, with the constants of the adapter.
pub record EngineConfig : Type 0 where
  pub event_relay_url : String
  pub chat_relay_url : String
  pub profile_write_relays : List String
  pub republish_interval_ms : ℕ
  pub snapshot_interval_ms : ℕ
  pub max_consecutive_failures : ℕ
  pub default_discovery_enabled : Bool
  pub default_chat_enabled : Bool
  pub source_key : String
  pub source_name : String
  pub d_tag_prefix : String
  pub proxy_protocol : ProxyProtocol

pub record DiscoveredLive : Type 0 where
  pub url : String
  pub name : String
  pub stream_title : String
  pub description : String
  pub picture : String
  pub image : String
  pub nsfw : Bool
  pub starts_at : Option ℕ
  pub stream_url : String
  pub tags : List String

pub record DiscoveryResult : Type 0 where
  pub live : List DiscoveredLive
  pub schema_version : String

-- What the engine asks of the outside. `probe n url` is `checkLiveness(url)` as the cycle's probe
-- number `n`; `viewers n url` is the poll of the viewer count after that probe: `none` for
-- `undefined`, `some none` for a hidden count. `answers n p` are the relays' results for the
-- publication number `n`. `url_hash` is the hash of the normalised URL, `pubkey_of` the public key of
-- the derived key.
pub record World : Type 0 where
  pub probe : ℕ → String → Liveness
  pub viewers : ℕ → String → Option (Option ℕ)
  pub answers : ℕ → Publication → List Bool
  pub bridge_pubkey : String
  pub pubkey_of : String → String
  pub url_hash : String → String
  pub profile_hash : ProfileContent → String

pub record PollCycleMetrics : Type 0 where
  pub directory_ok : Bool
  pub schema_version : String
  pub live_in_directory : ℕ
  pub hls_live : ℕ
  pub hls_ended : ℕ
  pub hls_error : ℕ
  pub new_instances : ℕ
  pub published_30311 : ℕ
  pub published_profiles : ℕ
  pub ended_this_cycle : ℕ
  pub disabled_skipped : ℕ
  pub relay_write_failures : ℕ
  pub snapshot_taken : Bool
  pub duration_ms : ℕ

unfoldable pub new_cycle_metrics : PollCycleMetrics
new_cycle_metrics = record {
  directory_ok = false;
  schema_version = "unknown";
  live_in_directory = 0;
  hls_live = 0;
  hls_ended = 0;
  hls_error = 0;
  new_instances = 0;
  published_30311 = 0;
  published_profiles = 0;
  ended_this_cycle = 0;
  disabled_skipped = 0;
  relay_write_failures = 0;
  snapshot_taken = false;
  duration_ms = 0;
}

unfoldable pub any_relay_accepted : List Bool → Bool
any_relay_accepted = any (λ ok. ok)

-- A publication, and the instance whose pass made it.
pub record Sent : Type 0 where
  pub subject : String
  pub publication : Publication

-- A cycle under way: the table, the metrics, and the publications and probes so far, the newest first.
pub record Cycle : Type 0 where
  pub rows : List InstanceRow
  pub metrics : PollCycleMetrics
  pub published : List Sent
  pub probed : List String

-- The service between cycles.
pub record Engine : Type 0 where
  pub rows : List InstanceRow
  pub last_schema_version : Option String
  pub last_snapshot_at : Option ℕ
  pub snapshots : List LiveSnapshot

unfoldable pub d_tag_for : World → String → String → String
d_tag_for world url prefix = cat prefix (cat "-" (world.url_hash url))
