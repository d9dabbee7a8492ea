-- ===== src/Discovery/Engine/Steps.antt =====
-- discovery-bridge.service.ts: `processLive`, `maybePublishProfile`, and the passes over a manual and
-- over a disappeared row. A step takes the cycle so far and returns the cycle after it.
use livelier.Base.{
  ℕ, suc, ◌+◌, ◌*◌, ◌/◌, String, Bool, true, false, not, ◌||◌, Option, none, some, ◌∷◌,
  if◌then◌else◌, length, leb, eqb, ◌==◌, or_else,
}
use livelier.Discovery.Tags.{StreamMeta, LiveEventStatus}
use livelier.Discovery.Store.{
  InstanceRow, UpsertSeenInput, Liveness, Status, same_status, upsert_seen, update,
}
use livelier.Discovery.Publisher.{
  Publication, BridgedProfileInput, LivePublishInput, bridged_profile_content, publish_profile,
  publish_relay_list, publish_live_event,
}
use livelier.Discovery.Engine.State.{
  EngineConfig, DiscoveredLive, World, Cycle, PollCycleMetrics, any_relay_accepted, d_tag_for,
}

-- `a || b` on texts.
abbrev pub or_text : String → String → String
or_text a b = if a == "" then b else a

-- `instance.startsAt ? new Date(instance.startsAt * 1000) : null`
abbrev pub starts_at_of : Option ℕ → Option ℕ
starts_at_of none = none
starts_at_of (some s) = if eqb s 0 then none else some (s * 1000)

-- `polled !== row.viewer_count`
abbrev pub same_count : Option ℕ → Option ℕ → Bool
same_count none none = true
same_count (some m) (some n) = eqb m n
same_count _ _ = false

abbrev pub viewers_changed : Option (Option ℕ) → Option ℕ → Bool
viewers_changed none known = false
viewers_changed (some polled) known = not (same_count polled known)

-- `polledViewers !== undefined ? polledViewers : row.viewer_count`
abbrev pub viewers_known : Option (Option ℕ) → Option ℕ → Option ℕ
viewers_known polled known = or_else polled known

-- `!last || now - last >= interval`
abbrev pub republish_due : ℕ → ℕ → Option ℕ → Bool
republish_due now interval none = true
republish_due now interval (some last) = leb (last + interval) now

abbrev pub same_hash : Option String → String → Bool
same_hash none h = false
same_hash (some g) h = g == h

abbrev pub event_status : Status → LiveEventStatus
event_status Status.live = LiveEventStatus.live
event_status Status.ended = LiveEventStatus.ended

-- `liveness === 'ended' ? 'ended' : 'live'`
abbrev pub status_of : Liveness → Status
status_of Liveness.ended = Status.ended
status_of _ = Status.live

abbrev pub is_live_probe : Liveness → Bool
is_live_probe Liveness.live = true
is_live_probe _ = false

abbrev pub is_error : Liveness → Bool
is_error Liveness.error = true
is_error _ = false

-- `metrics.hlsLive += 1`, or the counter of the other answer.
abbrev pub count_liveness : Liveness → PollCycleMetrics → PollCycleMetrics
count_liveness Liveness.live m = record m { hls_live = suc m.hls_live }
count_liveness Liveness.ended m = record m { hls_ended = suc m.hls_ended }
count_liveness Liveness.error m = record m { hls_error = suc m.hls_error }

abbrev pub note_hash : String → InstanceRow → InstanceRow
note_hash hash r = record r { profile_hash = some hash }

module _ (config : EngineConfig) (world : World) (now : ℕ) where
  -- A publication, and `if (!anyRelayAccepted(result)) metrics.relayWriteFailures += 1`.
  unfoldable pub emit : String → Publication → Cycle → Cycle
  unfolding any_relay_accepted
  emit subject p s = record s {
    published = record { subject = subject; publication = p } ∷ s.published;
    metrics = record s.metrics {
      relay_write_failures =
          (if any_relay_accepted (world.answers (length s.published) p) then 0 else 1)
          + s.metrics.relay_write_failures;
    };
  }

  -- The answer of the next probe, and the next poll of viewers.
  abbrev pub next_probe : String → Cycle → Liveness
  next_probe stream_url s = world.probe (length s.probed) stream_url

  abbrev pub note_probe : String → Cycle → Cycle
  note_probe url s = record s { probed = url ∷ s.probed }

  abbrev pub set_row : String → (InstanceRow → InstanceRow) → Cycle → Cycle
  set_row url f s = record s { rows = update now url f s.rows }

  unfoldable pub maybe_publish_profile : BridgedProfileInput → InstanceRow → Cycle → Cycle
  unfolding emit bridged_profile_content publish_profile publish_relay_list update
  maybe_publish_profile profile row s =
      let hash = world.profile_hash (bridged_profile_content profile) in
      if same_hash row.profile_hash hash
      then s
      else let s1 =
          emit row.url
            (publish_profile (world.pubkey_of row.url) profile config.profile_write_relays) s in
        let s2 =
          emit row.url
            (publish_relay_list (world.pubkey_of row.url) config.event_relay_url
              config.chat_relay_url config.profile_write_relays)
            (record s1 {
              metrics = record s1.metrics {
                published_profiles = suc s1.metrics.published_profiles;
              };
            }) in
        set_row row.url (note_hash hash) s2

  -- `publishLiveEvent` with the fields that every call shares.
  abbrev pub live_input :
      String
      → String
      → StreamMeta
      → String
      → ℕ
      → Status
      → String
      → Bool
      → Option ℕ
      → LivePublishInput
  live_input host_pubkey d_tag meta streaming_url starts status url nsfw participants = record {
    signer = world.bridge_pubkey;
    host_pubkey = host_pubkey;
    d_tag = d_tag;
    metadata = meta;
    streaming_url = streaming_url;
    starts_timestamp = starts;
    status = event_status status;
    proxy_url = url;
    proxy_protocol = config.proxy_protocol;
    relay_url = config.event_relay_url;
    chat_relay_url = some config.chat_relay_url;
    nsfw = nsfw;
    current_participants = participants;
  }

  abbrev pub seen_input : DiscoveredLive → UpsertSeenInput
  seen_input i = record {
    url = i.url;
    source = config.source_key;
    pubkey = world.pubkey_of i.url;
    d_tag = d_tag_for world i.url config.d_tag_prefix;
    name = i.name;
    stream_title = i.stream_title;
    description = i.description;
    image = i.image;
    nsfw = i.nsfw;
    starts_at = starts_at_of i.starts_at;
    hls_url = i.stream_url;
    discovery_enabled = config.default_discovery_enabled;
    chat_enabled = config.default_chat_enabled;
  }

  abbrev pub seen_profile : DiscoveredLive → BridgedProfileInput
  seen_profile i = record {
    name = or_text i.name i.url;
    description = i.description;
    picture = i.picture;
    website = i.url;
    source_name = config.source_name;
  }

  abbrev pub seen_event :
      DiscoveredLive → InstanceRow → Status → Option (Option ℕ) → LivePublishInput
  seen_event i row status polled =
      (live_input (world.pubkey_of i.url) (d_tag_for world i.url config.d_tag_prefix)
        (record {
          title = or_text i.stream_title (or_text i.name "Live");
          summary = i.description;
          image = i.image;
          tags = i.tags;
        })
        i.stream_url (or_else i.starts_at (row.first_seen_at / 1000)) status i.url i.nsfw
        (viewers_known polled row.viewer_count))

  -- `const polledViewers = status === 'live' ? … : undefined`
  abbrev pub poll_viewers : Status → String → ℕ → Option (Option ℕ)
  poll_viewers Status.live url probes = world.viewers probes url
  poll_viewers Status.ended url probes = none

  abbrev pub should_publish : Bool → Status → Option (Option ℕ) → InstanceRow → Bool
  should_publish is_new status polled row =
      is_new
      || not (same_status row.status status)
      || republish_due now config.republish_interval_ms row.last_published_at
      || viewers_changed polled row.viewer_count

  -- The columns that the pass sets at its end.
  abbrev pub settle_row : Liveness → ℕ → Bool → Option (Option ℕ) → InstanceRow → InstanceRow
  settle_row liveness failures publish polled r = record r {
    status = status_of liveness;
    last_liveness = some liveness;
    consecutive_failures = failures;
    last_published_at = if publish then some now else r.last_published_at;
    viewer_count = if publish then viewers_known polled r.viewer_count else r.viewer_count;
  }

  -- `processLive` from the liveness probe on.
  unfoldable pub publish_seen : DiscoveredLive → InstanceRow → Bool → Liveness → Cycle → Cycle
  unfolding publish_live_event emit maybe_publish_profile update
  publish_seen i row is_new liveness s =
      let s1 =
        maybe_publish_profile (seen_profile i) row
          (record s { metrics = count_liveness liveness s.metrics }) in
      let polled = poll_viewers (status_of liveness) i.url (length s1.probed) in
      let publish = should_publish is_new (status_of liveness) polled row in
      let s2 =
        emit i.url (publish_live_event (seen_event i row (status_of liveness) polled)) (record s1 {
          metrics = record s1.metrics { published_30311 = suc s1.metrics.published_30311 };
        }) in
      set_row i.url
        (settle_row liveness (if is_error liveness then row.consecutive_failures else 0) publish
          polled)
        (if publish then s2 else s1)

  -- `processLive` after the upsert.
  unfoldable pub process_seen : DiscoveredLive → InstanceRow → Bool → Cycle → Cycle
  unfolding publish_seen
  process_seen i row is_new s =
      if row.discovery_enabled
      then publish_seen i row is_new (next_probe i.stream_url s) (note_probe i.url s)
      else record s {
        metrics = record s.metrics { disabled_skipped = suc s.metrics.disabled_skipped };
      }

  unfoldable pub process_live : DiscoveredLive → Cycle → Cycle
  unfolding upsert_seen process_seen
  process_live i s =
      let seen = upsert_seen now (seen_input i) s.rows in
      process_seen i seen.0 seen.1 (record s {
        rows = seen.2;
        metrics = record s.metrics {
          new_instances = (if seen.1 then 1 else 0) + s.metrics.new_instances;
        };
      })
