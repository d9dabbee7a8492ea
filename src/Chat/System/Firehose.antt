-- ===== src/Chat/System/Firehose.antt =====
-- The subscriptions of the running chat bridge: none behind a stop, and the pace of the redials.
use livelier.Base.{
  ℕ, suc, ◌+◌, ◌*◌, ◌++◌, String, Bool, true, false, not, ◌&&◌, ◌||◌, ◌≡◌, refl, sym, subst, none,
  List, [], if◌then◌else◌, if-cases, arith, ltb, leb, is_some,
}
use livelier.Discovery.Store.{InstanceRow}
use livelier.Chat.State.{ChatServiceConfig, Service}
use livelier.Chat.Firehose.{
  cleared, ensure_nostr_sub, ensure_network_sub, restart_nostr_sub, on_nostr_close,
  on_network_close, check_subscription_health, min_restart_interval_ms, max_silence_ms,
  echo_miss_restart, disconnect_threshold_percent, local_firehose_relays, is_empty, log_heartbeat,
}
use livelier.Chat.Rooms.{
  refresh_rooms, open_rooms, wanted_rooms, close_unwanted, ensure_subs, stop, start_begin,
}
use livelier.Chat.System.{
  System, Step, Reach, boot, create, tick, hears, delivers, chats, joins, refreshes, polls,
  has_started, loses_firehose, loses_network, checks, beats, stops, here, next,
}
use livelier.Chat.System.Frame.{
  Subs, subs, handle_nostr_event-SameSubs, deliver_to_source-SameSubs, handle_source_chat-SameSubs,
  handle_source_join-SameSubs, open_rooms-SameSubs, poll_demand-SameSubs, start_end-SameSubs,
}

-- A stopped service holds no subscription.
abbrev pub QuietSubs : Subs → Type 0
QuietSubs s = s.0 ≡ true → (s.1 ≡ none) × (s.2 ≡ none)

abbrev pub Quiet : Service → Type 0
Quiet s = QuietSubs (subs s)

module _ (config : ChatServiceConfig) where
  -- A stopped service stays as it is, and one that runs stays running.
  ensure_nostr_sub-Quiet : (s : Service) → Quiet s → Quiet (ensure_nostr_sub config s)
  unfolding ensure_nostr_sub
  ensure_nostr_sub-Quiet s q =
      if-cases Quiet (s.stopped || not config.chat_from_nostr || is_some s.nostr_sub) (λ _. q)
        (λ e h. ground (arith, e, h))

  ensure_network_sub-Quiet : (s : Service) → Quiet s → Quiet (ensure_network_sub config s)
  unfolding ensure_network_sub
  ensure_network_sub-Quiet s q =
      if-cases Quiet (s.stopped || not config.chat_from_nostr || is_some s.network_sub) (λ _. q)
        (λ e.
          if-cases Quiet (is_empty config.network_chat_read_relays) (λ _. q)
            (λ _ h. ground (arith, e, h)))

  restart_nostr_sub-Quiet :
      (now : ℕ) (s : Service) → Quiet s → Quiet (restart_nostr_sub config now s)
  unfolding restart_nostr_sub
  restart_nostr_sub-Quiet now s q = ensure_nostr_sub-Quiet (cleared now s) (λ h. (refl, (q h).1))

  on_nostr_close-Quiet :
      (now reasons : ℕ) (s : Service) → Quiet s → Quiet (on_nostr_close config now reasons s)
  unfolding on_nostr_close
  on_nostr_close-Quiet now reasons s q =
      let count = s.disconnected_relay_count + reasons in
      let s1 : Service = record s { disconnected_relay_count = count } in
      if-cases Quiet (s.stopped || not (is_some s.nostr_sub)) (λ _. q)
        (λ _.
          if-cases Quiet (ltb (disconnect_threshold_percent * local_firehose_relays) (count * 100))
            (λ _.
              if-cases Quiet (ltb now (s.last_restart_at + min_restart_interval_ms)) (λ _. q)
                (λ _. restart_nostr_sub-Quiet now s1 q))
            (λ _. q))

  on_network_close-Quiet : (s : Service) → Quiet s → Quiet (on_network_close config s)
  unfolding on_network_close
  on_network_close-Quiet s q =
      if-cases Quiet (s.stopped || not (is_some s.network_sub)) (λ _. q)
        (λ _. ensure_network_sub-Quiet (record s { network_sub = none }) (λ h. ((q h).0, refl)))

  check_subscription_health-Quiet :
      (now : ℕ) (s : Service) → Quiet s → Quiet (check_subscription_health config now s)
  unfolding check_subscription_health
  check_subscription_health-Quiet now s q =
      let streak =
        if ltb 0 s.published_since_check && not (ltb 0 s.seen_since_check)
        then suc s.echo_miss_streak
        else 0 in
      let s1 : Service = record s {
        published_since_check = 0;
        seen_since_check = 0;
        echo_miss_streak = streak;
      } in
      if-cases Quiet (not config.chat_from_nostr || not (is_some s.nostr_sub)) (λ _. q)
        (λ _.
          if-cases Quiet (leb echo_miss_restart streak)
            (λ _. restart_nostr_sub-Quiet now (record s1 { echo_miss_streak = 0 }) q)
            (λ _.
              if-cases Quiet (ltb now (s.last_event_time + max_silence_ms)) (λ _. q)
                (λ _. restart_nostr_sub-Quiet now s1 q)))

  ensure_subs-Quiet :
      (opens : String → Bool) (r : Bool × Service) → Quiet r.1 → Quiet (ensure_subs config opens r)
  ensure_subs-Quiet opens (false, s) q = q
  ensure_subs-Quiet opens (true, s) q =
      ensure_network_sub-Quiet (ensure_nostr_sub config s) (ensure_nostr_sub-Quiet s q)

  refresh_rooms-Quiet :
      (opens : String → Bool) (rows : List InstanceRow) (s : Service)
      → Quiet s
      → Quiet (refresh_rooms config opens rows s)
  unfolding refresh_rooms
  refresh_rooms-Quiet opens rows s q =
      let wanted = wanted_rooms rows [] in
      let kept = close_unwanted wanted s.rooms in
      let s1 : Service = record s { rooms = kept.0; closed_rooms = kept.1 ++ s.closed_rooms } in
      ensure_subs-Quiet opens (open_rooms config opens wanted s1)
        (subst QuietSubs (sym (open_rooms-SameSubs config opens wanted s1)) q)

  Step-Quiet : {x y : System} → Step config x y → Quiet x.service → Quiet y.service
  unfolding stop log_heartbeat
  Step-Quiet (tick _ _) q = q
  Step-Quiet {x} (hears via event) q =
      subst QuietSubs (sym (handle_nostr_event-SameSubs config x.clock via event x.service)) q
  Step-Quiet {x} (delivers before after d fetched accepted _ _) q =
      let s : Service = record x.service { pending = before ++ after } in
      subst QuietSubs (sym (deliver_to_source-SameSubs x.clock fetched accepted d s)) q
  Step-Quiet {x} (chats key msg room _) q =
      subst QuietSubs (sym (handle_source_chat-SameSubs config x.clock key msg room x.service)) q
  Step-Quiet {x} (joins key join room _) q =
      subst QuietSubs (sym (handle_source_join-SameSubs config x.clock key join room x.service)) q
  Step-Quiet {x} (refreshes opens rows) q = refresh_rooms-Quiet opens rows x.service q
  Step-Quiet {x} (polls opens demanded) q =
      subst QuietSubs (sym (poll_demand-SameSubs config opens demanded x.service)) q
  Step-Quiet {x} (has_started opens demanded) q =
      subst QuietSubs (sym (start_end-SameSubs config opens demanded x.service)) q
  Step-Quiet {x} (loses_firehose reasons) q = on_nostr_close-Quiet x.clock reasons x.service q
  Step-Quiet {x} loses_network q = on_network_close-Quiet x.service q
  Step-Quiet {x} checks q = check_subscription_health-Quiet x.clock x.service q
  Step-Quiet beats q = q
  Step-Quiet stops q = λ _. (refl, refl)

  later-Quiet : {x y : System} → Reach config x y → Quiet x.service → Quiet y.service
  later-Quiet here q = q
  later-Quiet (next r st) q = Step-Quiet st (later-Quiet r q)

  -- In every state that the started service can reach, and whatever is still in flight when `stop` runs, a
  -- stopped service holds neither the local nor the network subscription.
  pub Reach-Quiet :
      (now : ℕ) (x : System)
      → Reach config (boot now) x
      → x.service.stopped ≡ true
      → (x.service.nostr_sub ≡ none) × (x.service.network_sub ≡ none)
  unfolding boot create start_begin
  Reach-Quiet now x r h = later-Quiet r (λ e. (refl, refl)) h
