-- ===== src/Discovery/Engine/Cycle.antt =====
-- discovery-bridge.service.ts: `processManualRows`, `reconcileDisappeared`, `runCycle` and `start`.
use livelier.Base.{
  ℕ, suc, ◌+◌, ◌*◌, ◌/◌, String, Bool, true, not, ◌&&◌, Option, none, some, List, [], ◌∷◌,
  if◌then◌else◌, length, ltb, leb, ◌-◌,
}
use livelier.Base.Keys.{mem, add}
use livelier.Discovery.Tags.{StreamMeta}
use livelier.Discovery.Store.{
  InstanceRow, Liveness, Status, is_live, update, list_manual, list_by_status, LiveSnapshot,
  latest_snapshot_at,
}
use livelier.Discovery.Publisher.{LivePublishInput, BridgedProfileInput, publish_live_event}
use livelier.Discovery.Engine.State.{
  EngineConfig, DiscoveredLive, DiscoveryResult, World, Cycle, Engine, new_cycle_metrics,
}
use livelier.Discovery.Engine.Steps.{
  or_text, is_live_probe, republish_due, viewers_changed, viewers_known, emit, next_probe,
  note_probe, set_row, maybe_publish_profile, live_input, process_live,
}

-- The metadata of an event that is made from a stored row.
abbrev pub row_meta : InstanceRow → StreamMeta
row_meta row = record {
  title = or_text row.stream_title (or_text row.name "Live");
  summary = row.description;
  image = row.image;
  tags = [];
}

abbrev pub row_profile : String → InstanceRow → BridgedProfileInput
row_profile source_name row = record {
  name = or_text row.name row.url;
  description = row.description;
  picture = row.image;
  website = row.url;
  source_name = source_name;
}

-- `wasEnded || !row.starts_at ? now : row.starts_at`, in seconds.
abbrev pub manual_starts : ℕ → InstanceRow → Option ℕ → ℕ
manual_starts now row none = now / 1000
manual_starts now row (some at) = if is_live row.status then at / 1000 else now / 1000

-- `row.starts_at ? row.starts_at : row.first_seen_at`, in seconds.
abbrev pub teardown_starts : InstanceRow → Option ℕ → ℕ
teardown_starts row none = row.first_seen_at / 1000
teardown_starts row (some at) = at / 1000

-- The columns that each pass writes.
abbrev pub mark_live : InstanceRow → InstanceRow
mark_live r = record r {
  status = Status.live;
  last_liveness = some Liveness.live;
  consecutive_failures = 0;
}

abbrev pub mark_published : ℕ → ℕ → Option (Option ℕ) → InstanceRow → InstanceRow
mark_published now starts polled r = record r {
  status = Status.live;
  last_liveness = some Liveness.live;
  consecutive_failures = 0;
  starts_at = some (starts * 1000);
  last_published_at = some now;
  viewer_count = viewers_known polled r.viewer_count;
}

abbrev pub mark_lagging : InstanceRow → InstanceRow
mark_lagging r = record r { consecutive_failures = 0; last_liveness = some Liveness.live }

abbrev pub mark_failure : Liveness → ℕ → InstanceRow → InstanceRow
mark_failure liveness failures r = record r {
  consecutive_failures = failures;
  last_liveness = some liveness;
}

abbrev pub mark_ended : ℕ → Liveness → ℕ → InstanceRow → InstanceRow
mark_ended now liveness failures r = record r {
  status = Status.ended;
  last_liveness = some liveness;
  consecutive_failures = failures;
  last_published_at = some now;
}

module _ (config : EngineConfig) (world : World) (now : ℕ) where
  -- An event that is made from a stored row.
  abbrev pub row_event : InstanceRow → ℕ → Status → Option ℕ → LivePublishInput
  row_event row starts status participants =
      live_input config world now row.pubkey row.d_tag (row_meta row) row.hls_url starts status
        row.url row.nsfw participants

  abbrev pub manual_event : InstanceRow → ℕ → Option ℕ → LivePublishInput
  manual_event row starts participants = row_event row starts Status.live participants

  abbrev pub teardown_event : InstanceRow → LivePublishInput
  teardown_event row = row_event row (teardown_starts row row.starts_at) Status.ended none

  -- `!wasEnded && !republishDue && !viewersChanged`
  abbrev pub stays_quiet : InstanceRow → Option (Option ℕ) → Bool
  stays_quiet row polled =
      is_live row.status
      && not (republish_due now config.republish_interval_ms row.last_published_at)
      && not (viewers_changed polled row.viewer_count)

  -- A manual row whose probe was live.
  unfoldable pub publish_manual : InstanceRow → Cycle → Cycle
  unfolding emit maybe_publish_profile update publish_live_event
  publish_manual row s =
      let s1 =
        maybe_publish_profile config world now (row_profile config.source_name row) row
          (record s { metrics = record s.metrics { hls_live = suc s.metrics.hls_live } }) in
      let polled = world.viewers (length s1.probed) row.url in
      let starts = manual_starts now row row.starts_at in
      if stays_quiet row polled
      then set_row config world now row.url mark_live s1
      else set_row config world now row.url (mark_published now starts polled) (
          emit config world now row.url
            (publish_live_event (manual_event row starts (viewers_known polled row.viewer_count)))
            (record s1 {
              metrics = record s1.metrics { published_30311 = suc s1.metrics.published_30311 };
            }))

  -- One row of `processManualRows`; the set of live URLs goes along.
  unfoldable pub process_manual : InstanceRow → List String × Cycle → List String × Cycle
  unfolding publish_manual mem add
  process_manual row (live_urls, s) =
      if mem row.url live_urls
      then (live_urls, s)
      else if not row.discovery_enabled
      then (
        live_urls,
        record s {
          metrics = record s.metrics { disabled_skipped = suc s.metrics.disabled_skipped };
        },
      )
      else if is_live_probe (next_probe config world now row.hls_url s)
      then (add row.url live_urls, publish_manual row (note_probe config world now row.url s))
      else (live_urls, note_probe config world now row.url s)

  unfoldable pub process_manual_rows : List InstanceRow → List String × Cycle → List String × Cycle
  unfolding process_manual
  process_manual_rows [] s = s
  process_manual_rows (row ∷ rows) s = process_manual_rows rows (process_manual row s)

  -- `reconcileDisappeared` on a row, once its probe has answered.
  unfoldable pub count_failure : InstanceRow → Liveness → Cycle → Cycle
  unfolding emit update publish_live_event
  count_failure row liveness s =
      let failures = suc row.consecutive_failures in
      if is_live_probe liveness
      then set_row config world now row.url mark_lagging s
      else if ltb failures config.max_consecutive_failures
      then set_row config world now row.url (mark_failure liveness failures) s
      else let s1 = emit config world now row.url (publish_live_event (teardown_event row)) s in
        set_row config world now row.url (mark_ended now liveness failures) (record s1 {
          metrics = record s1.metrics { ended_this_cycle = suc s1.metrics.ended_this_cycle };
        })

  unfoldable pub reconcile_row : List String → InstanceRow → Cycle → Cycle
  unfolding count_failure mem
  reconcile_row live_urls row s =
      if mem row.url live_urls
      then s
      else if not row.discovery_enabled
      then s
      else count_failure row (next_probe config world now row.hls_url s)
          (note_probe config world now row.url s)

  unfoldable pub reconcile_disappeared : List String → List InstanceRow → Cycle → Cycle
  unfolding reconcile_row
  reconcile_disappeared live_urls [] s = s
  reconcile_disappeared live_urls (row ∷ rows) s =
      reconcile_disappeared live_urls rows (reconcile_row live_urls row s)

  unfoldable pub process_live_set : List DiscoveredLive → Cycle → Cycle
  unfolding process_live
  process_live_set [] s = s
  process_live_set (i ∷ live) s = process_live_set live (process_live config world now i s)

  abbrev pub urls_of : List DiscoveredLive → List String → List String
  urls_of [] s = s
  urls_of (i ∷ live) s = urls_of live (add i.url s)

  -- The cycle after a successful fetch, up to the snapshot.
  unfoldable pub run_passes : DiscoveryResult → Cycle → Cycle
  unfolding process_live_set process_manual_rows reconcile_disappeared list_manual list_by_status
  run_passes result s =
      let s1 = process_live_set result.live s in
      let manual =
        process_manual_rows (list_manual config.source_key s1.rows) (urls_of result.live [], s1) in
      reconcile_disappeared manual.0 (list_by_status Status.live config.source_key (manual.1.rows))
        manual.1

  abbrev pub snapshot_due : Option ℕ → Bool
  snapshot_due none = true
  snapshot_due (some last) = leb (last + config.snapshot_interval_ms) now

  -- `runCycle`: the fetch is `none` on a source outage, and `finished` is the time at the end.
  unfoldable pub run_cycle : Option DiscoveryResult → ℕ → Engine → Engine × Cycle
  unfolding run_passes new_cycle_metrics
  run_cycle none finished e = (
    e,
    record {
      rows = e.rows;
      metrics = record new_cycle_metrics { duration_ms = finished - now };
      published = [];
      probed = [];
    },
  )
  run_cycle (some result) finished e =
      let s = run_passes result (record {
        rows = e.rows;
        metrics = record new_cycle_metrics {
          directory_ok = true;
          schema_version = result.schema_version;
          live_in_directory = length result.live;
        };
        published = [];
        probed = [];
      }) in
      let due = snapshot_due e.last_snapshot_at in
      let snapshot : LiveSnapshot = record {
        source = config.source_key;
        directory_live_count = length result.live;
        bridged_live_count = length result.live;
        hls_live = s.metrics.hls_live;
        hls_ended = s.metrics.hls_ended;
        hls_error = s.metrics.hls_error;
        schema_version = s.metrics.schema_version;
        captured_at = now;
      } in
      (
        record {
          rows = s.rows;
          last_schema_version = some result.schema_version;
          last_snapshot_at = if due then some now else e.last_snapshot_at;
          snapshots = if due then snapshot ∷ e.snapshots else e.snapshots;
        },
        record s {
          metrics = record s.metrics { snapshot_taken = due; duration_ms = finished - now };
        },
      )

-- `start`: the snapshot cadence goes on from the last snapshot of the table.
unfoldable pub start_engine : EngineConfig → List InstanceRow → List LiveSnapshot → Engine
unfolding latest_snapshot_at
start_engine config rows snapshots = record {
  rows = rows;
  last_schema_version = none;
  last_snapshot_at = latest_snapshot_at config.source_key snapshots;
  snapshots = snapshots;
}
