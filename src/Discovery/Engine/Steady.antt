-- ===== src/Discovery/Engine/Steady.antt =====
-- `processLive` twice: what a pass leaves in the row keeps the next one quiet, until the heartbeat is due
-- or an answer changes.
use livelier.Base.{
  ℕ, suc, ◌<◌, String, Bool, true, false, ◌≡◌, refl, sym, subst, ◌∙◌, Option, none, some, List,
  if◌then◌else◌, arith, Bool-cases, if-cases, inl, inr, length, eq_iff, eq_refl,
}
use livelier.Discovery.Store.{
  InstanceRow, Liveness, Status, same_status, update, get, upsert_seen, upsert_at, refreshed,
}
use livelier.Discovery.Store.Laws.{get-update, updated, get-url, get-upsert_seen}
use livelier.Discovery.Publisher.{bridged_profile_content}
use livelier.Discovery.Engine.State.{EngineConfig, DiscoveredLive, World, Cycle}
use livelier.Discovery.Engine.Trace.{see}
use livelier.Discovery.Engine.Steps.{
  emit, same_count, viewers_changed, viewers_known, republish_due, same_hash, note_hash, status_of,
  is_error, count_liveness, next_probe, note_probe, maybe_publish_profile, seen_input, seen_profile,
  poll_viewers, should_publish, settle_row, publish_seen, process_seen, process_live,
}

module _ (config : EngineConfig) (world : World) where
  -- The hash of the profile of a discovered instance.
  abbrev pub hash_of : DiscoveredLive → String
  hash_of i = world.profile_hash (bridged_profile_content (seen_profile config world 0 i))

  -- The poll of viewers that follows the next probe.
  abbrev pub polled_next : Liveness → DiscoveredLive → Cycle → Option (Option ℕ)
  polled_next l i s = poll_viewers config world 0 (status_of l) i.url (suc (length s.probed))

  -- A row that gives no cause to publish: its profile is out, its status and viewers are those of the
  -- answers, and the heartbeat is not due.
  abbrev pub Settled : DiscoveredLive → Liveness → Option (Option ℕ) → ℕ → InstanceRow → Type 0
  Settled i l polled now row =
      (row.profile_hash ≡ some (hash_of i))
      × (row.status ≡ status_of l)
      × (viewers_changed polled row.viewer_count ≡ false)
      × (republish_due now config.republish_interval_ms row.last_published_at ≡ false)

  upsert_seen-found :
      (now : ℕ) (i : DiscoveredLive) (s : Cycle) (row : InstanceRow)
      → get i.url s.rows ≡ some row
      → upsert_seen now (seen_input config world now i) s.rows ≡ (
        refreshed now (seen_input config world now i) row,
        false,
        update now i.url (refreshed now (seen_input config world now i)) s.rows,
      )
  unfolding upsert_seen upsert_at
  upsert_seen-found now i s row g = rw g

  same_status_refl : (st : Status) → same_status st st ≡ true
  same_status_refl Status.live = refl
  same_status_refl Status.ended = refl

  should_publish-Settled :
      (now : ℕ) (i : DiscoveredLive) (l : Liveness) (polled : Option (Option ℕ)) (row : InstanceRow)
      → Settled i l polled now row
      → should_publish config world now false (status_of l) polled row ≡ false
  should_publish-Settled now i l polled row (h, st, v, due) =
      rw (st, same_status_refl (status_of l), due, v)

  maybe_publish_profile-same :
      (now : ℕ) (i : DiscoveredLive) (row : InstanceRow) (s : Cycle)
      → row.profile_hash ≡ some (hash_of i)
      → maybe_publish_profile config world now (seen_profile config world now i) row s ≡ s
  unfolding maybe_publish_profile
  maybe_publish_profile-same now i row s h = rw (h, eq_refl (hash_of i))

  publish_seen-quiet :
      (now : ℕ) (i : DiscoveredLive) (l : Liveness) (s : Cycle) (row : InstanceRow)
      → Settled i l (poll_viewers config world now (status_of l) i.url (length s.probed)) now row
      → (publish_seen config world now i row false l s).published ≡ s.published
  unfolding publish_seen
  publish_seen-quiet now i l s row h = rw (
    maybe_publish_profile-same now i row (record s { metrics = count_liveness l s.metrics }) h.0,
    should_publish-Settled now i l
        (poll_viewers config world now (status_of l) i.url (length s.probed)) row h,
  )

  -- A pass over an instance whose row is opted in and settled for the answers of the pass publishes nothing.
  -- A pass over an instance whose row is opted in and settled for the answers of the pass publishes nothing.
  process_live-quiet :
      (now : ℕ) (i : DiscoveredLive) (s : Cycle) (row : InstanceRow)
      → get i.url s.rows ≡ some row
      → row.discovery_enabled ≡ true
      → Settled i
          (next_probe config world now i.stream_url s)
          (polled_next (next_probe config world now i.stream_url s) i s)
          now
          row
      → (process_live config world now i s).published ≡ s.published
  unfolding process_live process_seen refreshed
  process_live-quiet now i s row g on h =
      let l = next_probe config world now i.stream_url s in
      rw (upsert_seen-found now i s row g, on)
        (publish_seen-quiet now i l (note_probe config world now i.url _)
          (refreshed now (seen_input config world now i) row) h)

  -- What the profile pass leaves of a row: the hash is out, the other columns are as before.
  abbrev pub Carries : DiscoveredLive → InstanceRow → InstanceRow → Type 0
  Carries i r r1 =
      (r1.profile_hash ≡ some (hash_of i))
      × (r1.viewer_count ≡ r.viewer_count)
      × (r1.last_published_at ≡ r.last_published_at)
      × (r1.discovery_enabled ≡ r.discovery_enabled)

  same_hash-eq : (o : Option String) (h : String) → same_hash o h ≡ true → o ≡ some h
  same_hash-eq none h e = ground arith
  same_hash-eq (some g) h e = ground (arith, eq_iff g h)

  get-maybe_publish_profile :
      (now : ℕ) (i : DiscoveredLive) (row : InstanceRow) (s : Cycle)
      → get row.url s.rows ≡ some row
      → (r1 : InstanceRow) × (get row.url
            (maybe_publish_profile config world now (seen_profile config world now i) row s).rows
          ≡ some r1)
        × Carries i row r1
  unfolding maybe_publish_profile emit
  get-maybe_publish_profile now i row s g =
      if-cases
        (λ (t : Cycle). (r1 : InstanceRow) × (get row.url t.rows ≡ some r1) × Carries i row r1)
        (same_hash row.profile_hash (hash_of i))
        (λ h. (row, g, (same_hash-eq row.profile_hash (hash_of i) h, refl, refl, refl)))
        (λ _. (
          updated now (note_hash (hash_of i)) row,
          ground (
            arith,
            get-update now row.url row.url (note_hash (hash_of i)) s.rows,
            eq_refl row.url,
          ),
          (refl, refl, refl, refl),
        ))

  same_count_refl : (n : Option ℕ) → same_count n n ≡ true
  same_count_refl none = refl
  same_count_refl (some n) = ground arith

  viewers_changed-known :
      (polled : Option (Option ℕ)) (n : Option ℕ)
      → viewers_changed polled (viewers_known polled n) ≡ false
  viewers_changed-known none n = refl
  viewers_changed-known (some v) n = rw (same_count_refl v)

  -- The columns after a pass, by whether it published.
  settle_row-Settled :
      (now : ℕ) (i : DiscoveredLive) (l : Liveness) (is_new : Bool) (polled : Option (Option ℕ))
      (failures : ℕ) (row r1 : InstanceRow)
      → 0 < config.republish_interval_ms
      → Carries i row r1
      → Settled i l polled now (
          settle_row config world now l failures
            (should_publish config world now is_new (status_of l) polled row)
            polled
            r1)
  settle_row-Settled now i l is_new polled failures row r1 pos (h, v, p, o) =
      elim (Bool-cases (should_publish config world now is_new (status_of l) polled row)) [
        | inl e ↦ (
          h,
          refl,
          ground (arith, e, viewers_changed-known polled r1.viewer_count),
          ground (arith, e),
        )
        | inr e ↦ (h, refl, ground (arith, e, v), ground (arith, e, p))
      ]

  probed-maybe_publish_profile :
      (now : ℕ) (i : DiscoveredLive) (row : InstanceRow) (s : Cycle)
      → (maybe_publish_profile config world now (seen_profile config world now i) row s).probed
        ≡ s.probed
  unfolding maybe_publish_profile emit
  probed-maybe_publish_profile now i row s =
      if-cases (λ (t : Cycle). t.probed ≡ s.probed) (same_hash row.profile_hash (hash_of i))
        (λ _. refl) (λ _. refl)

  -- The row of `url` is opted in and settled for the answers.
  abbrev pub RowSettled :
      DiscoveredLive → Liveness → Option (Option ℕ) → ℕ → List InstanceRow → Type 0
  RowSettled i l polled now rows =
      (row : InstanceRow) × (get i.url rows ≡ some row)
      × (row.discovery_enabled ≡ true)
      × Settled i l polled now row

  publish_seen-Settled :
      (now : ℕ) (i : DiscoveredLive) (row : InstanceRow) (is_new : Bool) (l : Liveness) (s : Cycle)
      → 0 < config.republish_interval_ms
      → row.url ≡ i.url
      → get i.url s.rows ≡ some row
      → row.discovery_enabled ≡ true
      → RowSettled i l
          (poll_viewers config world now (status_of l) i.url (length s.probed))
          now
          (publish_seen config world now i row is_new l s).rows
  unfolding publish_seen emit
  publish_seen-Settled now i row is_new l s pos u g on =
      let s0 : Cycle = record s { metrics = count_liveness l s.metrics } in
      let s1 : Cycle =
        maybe_publish_profile config world now (seen_profile config world now i) row s0 in
      let failures = if is_error l then row.consecutive_failures else 0 in
      let (r1, g1, c) =
        get-maybe_publish_profile now i row s0 (subst (λ k. get k s.rows ≡ some row) (sym u) g) in
      let settled =
        settle_row config world now l failures
          (should_publish config world now is_new (status_of l)
            (poll_viewers config world now (status_of l) i.url (length s1.probed)) row)
          (poll_viewers config world now (status_of l) i.url (length s1.probed)) in
      (
        updated now settled r1,
        if-cases
            (λ (t : Cycle).
              get i.url (update now i.url settled t.rows) ≡ some (updated now settled r1))
            (should_publish config world now is_new (status_of l)
              (poll_viewers config world now (status_of l) i.url (length s1.probed)) row)
            (λ _. ground (arith, get-update now i.url i.url settled s1.rows, eq_refl i.url, g1, u))
            (λ _. ground (arith, get-update now i.url i.url settled s1.rows, eq_refl i.url, g1, u)),
        c.3 ∙ on,
        subst
            (λ ps.
              Settled i l (poll_viewers config world now (status_of l) i.url (length ps)) now
                (updated now settled r1))
            (probed-maybe_publish_profile now i row s0)
            (settle_row-Settled now i l is_new
              (poll_viewers config world now (status_of l) i.url (length s1.probed)) failures row r1
              pos c),
      )

  process_live-Settled :
      (now : ℕ) (i : DiscoveredLive) (s : Cycle)
      → 0 < config.republish_interval_ms
      → (upsert_seen now (seen_input config world now i) s.rows).0.discovery_enabled ≡ true
      → RowSettled i
          (next_probe config world now i.stream_url s)
          (polled_next (next_probe config world now i.stream_url s) i s)
          now
          (process_live config world now i s).rows
  unfolding process_live process_seen
  process_live-Settled now i s pos on =
      let input = seen_input config world now i in
      let seen = upsert_seen now input s.rows in
      let s1 : Cycle = note_probe config world now i.url (see config world now i s) in
      let g : get i.url s1.rows ≡ some seen.0 = get-upsert_seen now input s.rows in
      rw on (
        publish_seen-Settled now i seen.0 seen.1 (next_probe config world now i.stream_url s) s1 pos
          (get-url i.url s1.rows seen.0 g) g on)

  -- After a pass over an instance that is opted in, with a heartbeat interval above zero, its row is in the
  -- table and the heartbeat is not due at the time of the pass; any pass over the same row for which the
  -- heartbeat is not due either, with the same answers of the probe and of the viewer poll, publishes nothing.
  pub process_live-twice :
      (now : ℕ) (i : DiscoveredLive) (s : Cycle)
      → 0 < config.republish_interval_ms
      → (upsert_seen now (seen_input config world now i) s.rows).0.discovery_enabled ≡ true
      → (row : InstanceRow) × (get i.url (process_live config world now i s).rows ≡ some row)
        × (republish_due now config.republish_interval_ms row.last_published_at ≡ false)
        × ((later : ℕ) (s2 : Cycle)
            → get i.url s2.rows ≡ some row
            → republish_due later config.republish_interval_ms row.last_published_at ≡ false
            → next_probe config world later i.stream_url s2
              ≡ next_probe config world now i.stream_url s
            → polled_next (next_probe config world now i.stream_url s) i s2
              ≡ polled_next (next_probe config world now i.stream_url s) i s
            → (process_live config world later i s2).published ≡ s2.published)
  process_live-twice now i s pos on =
      let (row, g, o, (h, st, v, due)) = process_live-Settled now i s pos on in
      (
        row,
        g,
        due,
        λ later s2 g2 due2 same_probe same_poll.
            process_live-quiet later i s2 row g2 o (rw (same_probe, same_poll) (h, st, v, due2)),
      )
