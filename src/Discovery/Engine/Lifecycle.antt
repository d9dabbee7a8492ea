-- ===== src/Discovery/Engine/Lifecycle.antt =====
-- `reconcileDisappeared` over the cycles in which a row stays away: the failures add up, and the row is
-- torn down at the configured number of them and not before.
use livelier.Base.{
  ℕ, zero, suc, ◌+◌, ◌<◌, ◌≤◌, String, true, false, ◌≡◌, refl, sym, subst, ap, ◌∙◌, Option, none,
  some, [], ◌∷◌, arith, length, ltb, eq_iff,
}
use livelier.Base.Keys.{mem}
use livelier.Discovery.Store.{InstanceRow, Liveness, Status, get}
use livelier.Discovery.Store.Laws.{get-update, updated, get-url}
use livelier.Discovery.Publisher.{publish_live_event}
use livelier.Discovery.Engine.State.{EngineConfig, World, Cycle}
use livelier.Discovery.Engine.Steps.{emit, is_live_probe, next_probe, note_probe, set_row}
use livelier.Discovery.Engine.Trace.{tear_down}
use livelier.Discovery.Engine.Cycle.{
  reconcile_row, count_failure, mark_failure, mark_ended, teardown_event,
}

module _ (config : EngineConfig) (world : World) (now : ℕ) where
  abbrev pub reconcile_found : Option InstanceRow → Cycle → Cycle
  reconcile_found none s = s
  reconcile_found (some row) s = reconcile_row config world now [] row s

  -- `reconcileDisappeared` on the row of `url` as the table has it, `n` times.
  unfoldable pub reconcile_times : ℕ → String → Cycle → Cycle
  unfolding get reconcile_row
  reconcile_times zero url s = s
  reconcile_times (suc n) url s = reconcile_times n url (reconcile_found (get url s.rows) s)

  -- The row is there, opted in, with `failures` failures, and the status `status`.
  abbrev pub At : String → Status → ℕ → Cycle → Type 0
  At url status failures s =
      (row : InstanceRow) × (get url s.rows ≡ some row)
      × (row.discovery_enabled ≡ true)
      × (row.status ≡ status)
      × (row.consecutive_failures ≡ failures)

  abbrev pub Away : Type 0
  Away = (n : ℕ) (url : String) → is_live_probe (world.probe n url) ≡ false

  reconcile_row-enabled :
      (row : InstanceRow) (s : Cycle)
      → row.discovery_enabled ≡ true
      → reconcile_row config world now [] row s
        ≡ count_failure config world now row
            (next_probe config world now row.hls_url s)
            (note_probe config world now row.url s)
  unfolding reconcile_row mem
  reconcile_row-enabled row s on = rw on

  count_failure-below :
      (row : InstanceRow) (l : Liveness) (s : Cycle)
      → is_live_probe l ≡ false
      → ltb (suc row.consecutive_failures) config.max_consecutive_failures ≡ true
      → count_failure config world now row l s
        ≡ set_row config world now row.url (mark_failure l (suc row.consecutive_failures)) s
  unfolding count_failure
  count_failure-below row l s failed lt = rw (failed, lt)

  count_failure-at :
      (row : InstanceRow) (l : Liveness) (s : Cycle)
      → is_live_probe l ≡ false
      → ltb (suc row.consecutive_failures) config.max_consecutive_failures ≡ false
      → count_failure config world now row l s
        ≡ set_row config world now row.url
            (mark_ended now l (suc row.consecutive_failures))
            (tear_down config world now row.url (teardown_event config world now row) s)
  unfolding count_failure emit
  count_failure-at row l s failed lt = rw (failed, lt)

  -- The cycle in which the probe of a row fails, short of the limit and at it.
  below :
      (away : Away) (url : String) (row : InstanceRow) (s : Cycle)
      → get url s.rows ≡ some row
      → row.discovery_enabled ≡ true
      → suc row.consecutive_failures < config.max_consecutive_failures
      → reconcile_found (get url s.rows) s
        ≡ set_row config world now row.url
            (mark_failure
              (next_probe config world now row.hls_url s)
              (suc row.consecutive_failures))
            (note_probe config world now row.url s)
  below away url row s g on lt =
      rw (g, reconcile_row-enabled row s on)
        (count_failure-below row _ (note_probe config world now row.url s)
          (away (length s.probed) row.hls_url) (ground arith))

  at_limit :
      (away : Away) (url : String) (row : InstanceRow) (s : Cycle)
      → get url s.rows ≡ some row
      → row.discovery_enabled ≡ true
      → config.max_consecutive_failures ≤ suc row.consecutive_failures
      → reconcile_found (get url s.rows) s
        ≡ set_row config world now row.url
            (mark_ended now
              (next_probe config world now row.hls_url s)
              (suc row.consecutive_failures))
            (tear_down config world now row.url
              (teardown_event config world now row)
              (note_probe config world now row.url s))
  at_limit away url row s g on le =
      rw (g, reconcile_row-enabled row s on)
        (count_failure-at row _ (note_probe config world now row.url s)
          (away (length s.probed) row.hls_url) (ground arith))

  -- A row that is written is found, with the columns that were set.
  set_row-At :
      (url : String) (f : InstanceRow → InstanceRow) (row : InstanceRow) (s : Cycle)
      → get url s.rows ≡ some row
      → get url (set_row config world now row.url f s).rows ≡ some (updated now f row)
  set_row-At url f row s g =
      ground
        (arith, get-update now row.url url f s.rows, get-url url s.rows row g, eq_iff row.url url)

  fail_once :
      (away : Away) (url : String) (failures : ℕ) (s : Cycle)
      → suc failures < config.max_consecutive_failures
      → At url Status.live failures s
      → At url Status.live (suc failures) (reconcile_found (get url s.rows) s)
        × ((reconcile_found (get url s.rows) s).published ≡ s.published)
  fail_once away url failures s lt (row, g, on, st, f) =
      let mark =
        mark_failure (next_probe config world now row.hls_url s) (suc row.consecutive_failures) in
      rw
        (below away url row s g on
          (subst (λ k. suc k < config.max_consecutive_failures) (sym f) lt))
        ((updated now mark row, set_row-At url mark row s g, on, st, ap suc f), refl)

  -- A row that is opted in and live, with no failures yet, and whose every probe fails: as long as the
  -- failures are fewer than the limit it stays live, counts them, and nothing is published.
  fail_times :
      (away : Away) (n : ℕ) (url : String) (failures : ℕ) (s : Cycle)
      → n + failures < config.max_consecutive_failures
      → At url Status.live failures s
      → At url Status.live (n + failures) (reconcile_times n url s)
        × ((reconcile_times n url s).published ≡ s.published)
  unfolding reconcile_times
  fail_times away zero url failures s lt h =
      (subst (λ k. At url Status.live k s) (omega arith) h, refl)
  fail_times away (suc n) url failures s lt h =
      let (h1, p1) = fail_once away url failures s (omega arith) h in
      let (h2, p2) =
        fail_times away n url (suc failures) (reconcile_found (get url s.rows) s) (omega arith)
          h1 in
      (subst (λ k. At url Status.live k (reconcile_times (suc n) url s)) (omega arith) h2, p2 ∙ p1)

  times-last :
      (n : ℕ) (url : String) (s : Cycle)
      → reconcile_times (suc n) url s
        ≡ reconcile_found (get url (reconcile_times n url s).rows) (reconcile_times n url s)
  unfolding reconcile_times
  times-last zero url s = refl
  times-last (suc n) url s = times-last n url (reconcile_found (get url s.rows) s)

  -- The last publication is the teardown of some row of `url`.
  abbrev pub TornDown : String → Cycle → Cycle → Type 0
  TornDown url s t =
      (row : InstanceRow) × (row.url ≡ url)
      × (t.published
          ≡ record {
            subject = url;
            publication = publish_live_event (teardown_event config world now row);
          }
            ∷ s.published)

  fail_last :
      (away : Away) (url : String) (failures : ℕ) (s : Cycle)
      → config.max_consecutive_failures ≤ suc failures
      → At url Status.live failures s
      → At url Status.ended (suc failures) (reconcile_found (get url s.rows) s)
        × TornDown url s (reconcile_found (get url s.rows) s)
  unfolding emit
  fail_last away url failures s le (row, g, on, st, f) =
      let mark =
        mark_ended now (next_probe config world now row.hls_url s) (suc row.consecutive_failures) in
      rw
        (at_limit away url row s g on
          (subst (λ k. config.max_consecutive_failures ≤ suc k) (sym f) le))
        (
          (
            updated now mark row,
            set_row-At url mark row
                (tear_down config world now row.url (teardown_event config world now row)
                  (note_probe config world now row.url s))
                g,
            on,
            refl,
            ap suc f,
          ),
          (
            row,
            get-url url s.rows row g,
            ap
                (λ u.
                  record {
                    subject = u;
                    publication = publish_live_event (teardown_event config world now row);
                  }
                  ∷ s.published)
                (get-url url s.rows row g),
          ),
        )

  -- A row that is there, opted in and live with no failures yet, and whose every probe fails: with the limit
  -- `suc m`, after `n ≤ m` reconciliations it is live with `n` failures and nothing was published for it;
  -- the next one after `m` marks it ended and publishes the one teardown event.
  pub reconcile_times-TornDown :
      (away : Away) (url : String) (m : ℕ) (s : Cycle)
      → config.max_consecutive_failures ≡ suc m
      → At url Status.live 0 s
      → ((n : ℕ)
          → n ≤ m
          → At url Status.live n (reconcile_times n url s)
            × ((reconcile_times n url s).published ≡ s.published))
        × At url Status.ended (suc m) (reconcile_times (suc m) url s)
        × TornDown url s (reconcile_times (suc m) url s)
  reconcile_times-TornDown away url m s e h =
      let live : (n : ℕ)
          → n ≤ m
          → At url Status.live n (reconcile_times n url s)
            × ((reconcile_times n url s).published ≡ s.published) =
        λ n le.
          let (a, p) = fail_times away n url 0 s (omega arith) h in
          (subst (λ k. At url Status.live k (reconcile_times n url s)) (omega arith) a, p) in
      let (a, p) = live m (omega arith) in
      let (b, (row, u, q)) = fail_last away url m (reconcile_times m url s) (omega arith) a in
      (
        live,
        subst (At url Status.ended (suc m)) (sym (times-last m url s)) b,
        (
          row,
          u,
          ap (λ t. t.published) (times-last m url s)
              ∙ q
              ∙ ap
                  (λ ps.
                    record {
                      subject = url;
                      publication = publish_live_event (teardown_event config world now row);
                    }
                    ∷ ps)
                  p,
        ),
      )
