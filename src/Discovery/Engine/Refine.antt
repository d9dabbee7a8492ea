-- ===== src/Discovery/Engine/Refine.antt =====
-- Every pass of a cycle is a sequence of the atomic steps of Trace.
use livelier.Base.{
  ℕ, suc, String, Bool, true, not, ◌≡◌, refl, sym, subst, some, List, [], ◌∷◌, if◌then◌else◌, arith,
  if-cases, All, All-mono, keep, All-keep, ap, length, ltb,
}
use mathlib.Core.Option
use livelier.Base.Keys.{mem, Distinct}
use livelier.Discovery.Store.{
  InstanceRow, Liveness, Status, get, upsert_seen, list_manual, list_by_status,
}
use livelier.Discovery.Store.Laws.{
  settings, settings_at, get-upsert_seen, get-url, get-own, urls, upsert_seen-Distinct, urls-update,
}
use livelier.Discovery.Publisher.{BridgedProfileInput, bridged_profile_content}
use livelier.Discovery.Engine.State.{EngineConfig, DiscoveredLive, DiscoveryResult, World, Cycle}
use livelier.Discovery.Engine.Steps.{
  viewers_known, seen_event, settle_row, is_error, same_hash, note_hash, emit, note_probe,
  seen_input, count_liveness, maybe_publish_profile, publish_seen, process_seen, process_live,
  next_probe, status_of, poll_viewers, should_publish, seen_profile, is_live_probe,
}
use livelier.Discovery.Engine.Cycle.{
  publish_manual, stays_quiet, mark_live, mark_published, mark_lagging, mark_failure, mark_ended,
  manual_event, teardown_event, row_profile, manual_starts, process_manual, process_manual_rows,
  count_failure, reconcile_row, reconcile_disappeared, process_live_set, run_passes, urls_of,
}
use livelier.Discovery.Engine.Trace.{
  enabled, see, Reach, here, sees, skips, probes, counts, sends_profile, sends_relay_list,
  announces, tears_down, writes, Reach-trans, Reach-settings, Reach-enabled,
}

-- A row that was read earlier still shows whether its instance is opted in.
abbrev pub Current : Cycle → InstanceRow → Type 0
Current s row = settings_at row.url s.rows ≡ some (settings row)

module _ (config : EngineConfig) (world : World) (now : ℕ) where
  abbrev pub Passes : Cycle → Cycle → Type 0
  Passes = Reach config world now

  maybe_publish_profile-Reach :
      (profile : BridgedProfileInput) (row : InstanceRow) (s : Cycle)
      → enabled row.url s ≡ true
      → Passes s (maybe_publish_profile config world now profile row s)
  unfolding maybe_publish_profile emit
  maybe_publish_profile-Reach profile row s e =
      let hash = world.profile_hash (bridged_profile_content profile) in
      if-cases (Passes s) (same_hash row.profile_hash hash) (λ _. here)
        (λ _.
          writes row.url (note_hash hash) (λ r. refl) e
            (sends_relay_list row.url e (sends_profile row.url profile e here)))

  publish_seen-Reach :
      (i : DiscoveredLive) (row : InstanceRow) (is_new : Bool) (l : Liveness) (s : Cycle)
      → row.url ≡ i.url
      → enabled i.url s ≡ true
      → Passes s (publish_seen config world now i row is_new l s)
  unfolding publish_seen emit
  publish_seen-Reach i row is_new l s u e =
      let s0 : Cycle = record s { metrics = count_liveness l s.metrics } in
      let profile = seen_profile config world now i in
      let s1 : Cycle = maybe_publish_profile config world now profile row s0 in
      let r1 : Passes s s1 = Reach-trans config world now (counts l here) (
        maybe_publish_profile-Reach profile row s0
          (subst (λ url. enabled url s ≡ true) (sym u) e)) in
      let e1 : enabled i.url s1 ≡ true = Reach-enabled config world now i.url r1 e in
      let polled = poll_viewers config world now (status_of l) i.url (length s1.probed) in
      let publish = should_publish config world now is_new (status_of l) polled row in
      let settled =
        settle_row config world now l (if is_error l then row.consecutive_failures else 0) publish
          polled in
      let event = seen_event config world now i row (status_of l) polled in
      writes i.url settled (λ r. refl)
        (if-cases (λ t. enabled i.url t ≡ true) publish (λ _. e1) (λ _. e1))
        (if-cases (Passes s) publish (λ _. announces i.url event (refl, refl) e1 r1) (λ _. r1))

  process_seen-Reach :
      (i : DiscoveredLive) (row : InstanceRow) (is_new : Bool) (s : Cycle)
      → get i.url s.rows ≡ some row
      → Passes s (process_seen config world now i row is_new s)
  unfolding process_seen
  process_seen-Reach i row is_new s g =
      if-cases (Passes s) row.discovery_enabled
        (λ e.
          let on : enabled i.url s ≡ true = ground (arith, g) in
          Reach-trans config world now (probes i.url on here) (
            publish_seen-Reach i row is_new _ (note_probe config world now i.url s)
              (get-url i.url s.rows row g) on))
        (λ _. skips here)

  process_live-Reach :
      (i : DiscoveredLive) (s : Cycle) → Passes s (process_live config world now i s)
  unfolding process_live
  process_live-Reach i s =
      let input = seen_input config world now i in
      Reach-trans config world now (sees i here) (
        process_seen-Reach i (upsert_seen now input s.rows).0 (upsert_seen now input s.rows).1
          (see config world now i s) (get-upsert_seen now input s.rows))

  pub process_live_set-Reach :
      (live : List DiscoveredLive) (s : Cycle) → Passes s (process_live_set config world now live s)
  unfolding process_live_set
  process_live_set-Reach [] s = here
  process_live_set-Reach (i ∷ live) s =
      Reach-trans config world now (process_live-Reach i s)
        (process_live_set-Reach live (process_live config world now i s))

  opted_in :
      (row : InstanceRow) (s : Cycle)
      → Current s row
      → row.discovery_enabled ≡ true
      → enabled row.url s ≡ true
  opted_in row s c e = ground (arith, c)

  publish_manual-Reach :
      (row : InstanceRow) (s : Cycle)
      → enabled row.url s ≡ true
      → Passes s (publish_manual config world now row s)
  unfolding publish_manual emit
  publish_manual-Reach row s e =
      let s0 : Cycle = record s {
        metrics = record s.metrics { hls_live = suc s.metrics.hls_live };
      } in
      let profile = row_profile config.source_name row in
      let s1 : Cycle = maybe_publish_profile config world now profile row s0 in
      let r1 : Passes s s1 =
        Reach-trans config world now (counts Liveness.live here)
          (maybe_publish_profile-Reach profile row s0 e) in
      let e1 : enabled row.url s1 ≡ true = Reach-enabled config world now row.url r1 e in
      let polled = world.viewers (length s1.probed) row.url in
      let starts = manual_starts now row row.starts_at in
      let event =
        manual_event config world now row starts (viewers_known polled row.viewer_count) in
      if-cases (Passes s) (stays_quiet config world now row polled)
        (λ _. writes row.url mark_live (λ r. refl) e1 r1)
        (λ _.
          writes row.url (mark_published now starts polled) (λ r. refl) e1
            (announces row.url event (refl, refl) e1 r1))

  process_manual-Reach :
      (row : InstanceRow) (live_urls : List String) (s : Cycle)
      → Current s row
      → Passes s (process_manual config world now row (live_urls, s)).1
  unfolding process_manual
  process_manual-Reach row live_urls s c =
      let P : List String × Cycle → Type 0 = λ t. Passes s t.1 in
      if-cases P (mem row.url live_urls) (λ _. here)
        (λ _.
          if-cases P (not row.discovery_enabled) (λ _. skips here)
            (λ n.
              let on : enabled row.url s ≡ true = opted_in row s c (ground (arith, n)) in
              if-cases P (is_live_probe (next_probe config world now row.hls_url s))
                (λ _.
                  Reach-trans config world now (probes row.url on here)
                    (publish_manual-Reach row (note_probe config world now row.url s) on))
                (λ _. probes row.url on here)))

  later_Current :
      (s t : Cycle) (rows : List InstanceRow)
      → Passes s t
      → All (Current s) rows
      → All (Current t) rows
  later_Current s t rows r =
      All-mono (λ row c. Reach-settings config world now row.url (settings row) r c) rows

  process_manual_rows-Reach :
      (rows : List InstanceRow) (live_urls : List String) (s : Cycle)
      → All (Current s) rows
      → Passes s (process_manual_rows config world now rows (live_urls, s)).1
  unfolding process_manual_rows
  process_manual_rows-Reach [] live_urls s _ = here
  process_manual_rows-Reach (row ∷ rows) live_urls s (c, cs) =
      let t = process_manual config world now row (live_urls, s) in
      let r = process_manual-Reach row live_urls s c in
      Reach-trans config world now r
        (process_manual_rows-Reach rows t.0 t.1 (later_Current s t.1 rows r cs))

  count_failure-Reach :
      (row : InstanceRow) (l : Liveness) (s : Cycle)
      → enabled row.url s ≡ true
      → Passes s (count_failure config world now row l s)
  unfolding count_failure emit
  count_failure-Reach row l s e =
      let failures = suc row.consecutive_failures in
      if-cases (Passes s) (is_live_probe l) (λ _. writes row.url mark_lagging (λ r. refl) e here)
        (λ _.
          if-cases (Passes s) (ltb failures config.max_consecutive_failures)
            (λ _. writes row.url (mark_failure l failures) (λ r. refl) e here)
            (λ _.
              writes row.url (mark_ended now l failures) (λ r. refl) e
                (tears_down row.url (teardown_event config world now row) (refl, refl) e here)))

  reconcile_row-Reach :
      (live_urls : List String) (row : InstanceRow) (s : Cycle)
      → Current s row
      → Passes s (reconcile_row config world now live_urls row s)
  unfolding reconcile_row
  reconcile_row-Reach live_urls row s c =
      if-cases (Passes s) (mem row.url live_urls) (λ _. here)
        (λ _.
          if-cases (Passes s) (not row.discovery_enabled) (λ _. here)
            (λ n.
              let on : enabled row.url s ≡ true = opted_in row s c (ground (arith, n)) in
              Reach-trans config world now (probes row.url on here)
                (count_failure-Reach row _ (note_probe config world now row.url s) on)))

  reconcile_disappeared-Reach :
      (live_urls : List String) (rows : List InstanceRow) (s : Cycle)
      → All (Current s) rows
      → Passes s (reconcile_disappeared config world now live_urls rows s)
  unfolding reconcile_disappeared
  reconcile_disappeared-Reach live_urls [] s _ = here
  reconcile_disappeared-Reach live_urls (row ∷ rows) s (c, cs) =
      let t = reconcile_row config world now live_urls row s in
      let r = reconcile_row-Reach live_urls row s c in
      Reach-trans config world now r
        (reconcile_disappeared-Reach live_urls rows t (later_Current s t rows r cs))

  -- The URLs of the table stay distinct.
  pub Reach-Distinct : {x y : Cycle} → Passes x y → Distinct (urls x.rows) → Distinct (urls y.rows)
  unfolding emit
  Reach-Distinct here d = d
  Reach-Distinct (sees {s = s} i r) d =
      upsert_seen-Distinct now (seen_input config world now i) s.rows (Reach-Distinct r d)
  Reach-Distinct (skips r) d = Reach-Distinct r d
  Reach-Distinct (probes _ _ r) d = Reach-Distinct r d
  Reach-Distinct (counts _ r) d = Reach-Distinct r d
  Reach-Distinct (sends_profile _ _ _ r) d = Reach-Distinct r d
  Reach-Distinct (sends_relay_list _ _ r) d = Reach-Distinct r d
  Reach-Distinct (announces _ _ _ _ r) d = Reach-Distinct r d
  Reach-Distinct (tears_down _ _ _ _ r) d = Reach-Distinct r d
  Reach-Distinct (writes {s = s} u f _ _ r) d =
      subst Distinct (sym (urls-update now u f s.rows)) (Reach-Distinct r d)

  read_Current :
      (p : InstanceRow → Bool) (s : Cycle)
      → Distinct (urls s.rows)
      → All (Current s) (keep p s.rows)
  read_Current p s d =
      All-keep (Current s) p s.rows
        (All-mono (λ row g. ap (Option.map settings) g) s.rows (get-own s.rows d))

  pub run_passes-Reach :
      (result : DiscoveryResult) (s : Cycle)
      → Distinct (urls s.rows)
      → Passes s (run_passes config world now result s)
  unfolding run_passes list_manual list_by_status
  run_passes-Reach result s d =
      let s1 = process_live_set config world now result.live s in
      let r1 = process_live_set-Reach result.live s in
      let d1 = Reach-Distinct r1 d in
      let manual =
        process_manual_rows config world now (list_manual config.source_key s1.rows)
          (urls_of config world now result.live [], s1) in
      let r2 : Passes s1 manual.1 =
        process_manual_rows-Reach (list_manual config.source_key s1.rows)
          (urls_of config world now result.live []) s1 (read_Current _ s1 d1) in
      Reach-trans config world now r1 (
        Reach-trans config world now r2 (
          reconcile_disappeared-Reach manual.0
            (list_by_status Status.live config.source_key (manual.1.rows)) manual.1
            (read_Current _ manual.1 (Reach-Distinct r2 d1))))
