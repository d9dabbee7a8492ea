-- ===== src/Discovery/Engine/Tally.antt =====
-- `processLive` over the live set: every instance is counted once.
use livelier.Base.{ℕ, suc, ◌+◌, Bool, ◌≡◌, refl, ◌∙◌, List, [], ◌∷◌, arith, if-cases, length}
use livelier.Discovery.Store.{InstanceRow, Liveness, upsert_seen}
use livelier.Discovery.Publisher.{BridgedProfileInput, bridged_profile_content}
use livelier.Discovery.Engine.State.{EngineConfig, DiscoveredLive, World, Cycle, PollCycleMetrics}
use livelier.Discovery.Engine.Steps.{
  emit, count_liveness, maybe_publish_profile, publish_seen, process_seen, process_live, same_hash,
  seen_profile, should_publish, status_of, poll_viewers, seen_input, note_probe,
}
use livelier.Discovery.Engine.Trace.{see}
use livelier.Discovery.Engine.Cycle.{process_live_set}

-- The instances that a cycle has probed or skipped.
abbrev pub tally : PollCycleMetrics → ℕ
tally m = m.hls_live + m.hls_ended + m.hls_error + m.disabled_skipped

tally-count_liveness :
    (l : Liveness) (m : PollCycleMetrics) → tally (count_liveness l m) ≡ suc (tally m)
tally-count_liveness Liveness.live m = omega arith
tally-count_liveness Liveness.ended m = omega arith
tally-count_liveness Liveness.error m = omega arith

module _ (config : EngineConfig) (world : World) (now : ℕ) where
  tally-maybe_publish_profile :
      (profile : BridgedProfileInput) (row : InstanceRow) (s : Cycle)
      → tally (maybe_publish_profile config world now profile row s).metrics ≡ tally s.metrics
  unfolding maybe_publish_profile emit
  tally-maybe_publish_profile profile row s =
      if-cases (λ (t : Cycle). tally t.metrics ≡ tally s.metrics)
        (same_hash row.profile_hash (world.profile_hash (bridged_profile_content profile)))
        (λ _. refl) (λ _. refl)

  tally-publish_seen :
      (i : DiscoveredLive) (row : InstanceRow) (is_new : Bool) (l : Liveness) (s : Cycle)
      → tally (publish_seen config world now i row is_new l s).metrics ≡ suc (tally s.metrics)
  unfolding publish_seen emit
  tally-publish_seen i row is_new l s =
      let s0 : Cycle = record s { metrics = count_liveness l s.metrics } in
      let profile = seen_profile config world now i in
      let s1 : Cycle = maybe_publish_profile config world now profile row s0 in
      let h : tally s1.metrics ≡ suc (tally s.metrics) =
        tally-maybe_publish_profile profile row s0 ∙ tally-count_liveness l s.metrics in
      if-cases (λ (t : Cycle). tally t.metrics ≡ suc (tally s.metrics))
        (should_publish config world now is_new (status_of l)
          (poll_viewers config world now (status_of l) i.url (length s1.probed)) row)
        (λ _. h) (λ _. h)

  tally-process_live :
      (i : DiscoveredLive) (s : Cycle)
      → tally (process_live config world now i s).metrics ≡ suc (tally s.metrics)
  unfolding process_live process_seen
  tally-process_live i s =
      let seen = upsert_seen now (seen_input config world now i) s.rows in
      let s1 : Cycle = see config world now i s in
      if-cases (λ (t : Cycle). tally t.metrics ≡ suc (tally s.metrics)) seen.0.discovery_enabled
        (λ _. tally-publish_seen i seen.0 seen.1 _ (note_probe config world now i.url s1))
        (λ _. omega arith)

  -- The pass over the live set counts each of its instances once, as live, ended, error or skipped.
  pub tally-process_live_set :
      (live : List DiscoveredLive) (s : Cycle)
      → tally (process_live_set config world now live s).metrics ≡ length live + tally s.metrics
  unfolding process_live_set
  tally-process_live_set [] s = omega arith
  tally-process_live_set (i ∷ live) s = omega (
    arith,
    tally-process_live_set live (process_live config world now i s),
    tally-process_live i s,
  )
