-- ===== src/Chat/System/Traffic.antt =====
-- The subscriptions and the heartbeat do not touch what the chat bridge carries.
use livelier.Base.{
  ℕ, suc, ◌+◌, ◌*◌, String, not, ◌&&◌, ◌||◌, ◌≡◌, refl, none, List, if◌then◌else◌, if-cases, ltb,
  leb, is_some, All,
}
use livelier.Base.Dict.{Dict}
use livelier.Chat.State.{ChatServiceConfig, Room, Delivery, SourceSend, Outbound, Service}
use livelier.Chat.Firehose.{
  cleared, ensure_nostr_sub, ensure_network_sub, restart_nostr_sub, on_nostr_close,
  on_network_close, check_subscription_health, min_restart_interval_ms, max_silence_ms,
  echo_miss_restart, disconnect_threshold_percent, local_firehose_relays, is_empty,
}
use livelier.Chat.System.Echo.{Own, OwnRooms, Foreign}

-- The state that the dedup of the first two layers rests on.
abbrev pub Traffic : Type 0
Traffic = List String × Dict Room × List Delivery × List SourceSend × List Outbound

abbrev pub traffic : Service → Traffic
traffic s = (s.bridged_pubkeys, s.rooms, s.pending, s.sent, s.published)

module _ (config : ChatServiceConfig) where
  abbrev pub OkTraffic : Traffic → Type 0
  OkTraffic t =
      All (λ p. Own t.0 p.author) t.4
      × OwnRooms t.0 t.1
      × All (λ d. Foreign config.bridge_name d.event) t.2
      × All (λ m. Foreign config.bridge_name m.event) t.3

  -- The subscriptions do not touch the traffic.
  pub traffic-ensure_nostr_sub : (s : Service) → traffic (ensure_nostr_sub config s) ≡ traffic s
  unfolding ensure_nostr_sub
  traffic-ensure_nostr_sub s =
      if-cases (λ (t : Service). traffic t ≡ traffic s)
        (s.stopped || not config.chat_from_nostr || is_some s.nostr_sub) (λ _. refl) (λ _. refl)

  pub traffic-ensure_network_sub : (s : Service) → traffic (ensure_network_sub config s) ≡ traffic s
  unfolding ensure_network_sub
  traffic-ensure_network_sub s =
      if-cases (λ (t : Service). traffic t ≡ traffic s)
        (s.stopped || not config.chat_from_nostr || is_some s.network_sub) (λ _. refl)
        (λ _.
          if-cases (λ (t : Service). traffic t ≡ traffic s)
            (is_empty config.network_chat_read_relays) (λ _. refl) (λ _. refl))

  pub traffic-restart_nostr_sub :
      (now : ℕ) (s : Service) → traffic (restart_nostr_sub config now s) ≡ traffic s
  unfolding restart_nostr_sub
  traffic-restart_nostr_sub now s = traffic-ensure_nostr_sub (cleared now s)

  pub traffic-on_nostr_close :
      (now reasons : ℕ) (s : Service) → traffic (on_nostr_close config now reasons s) ≡ traffic s
  unfolding on_nostr_close
  traffic-on_nostr_close now reasons s =
      let count = s.disconnected_relay_count + reasons in
      let P : Service → Type 0 = λ t. traffic t ≡ traffic s in
      if-cases P (s.stopped || not (is_some s.nostr_sub)) (λ _. refl)
        (λ _.
          if-cases P (ltb (disconnect_threshold_percent * local_firehose_relays) (count * 100))
            (λ _.
              if-cases P (ltb now (s.last_restart_at + min_restart_interval_ms)) (λ _. refl)
                (λ _.
                  traffic-restart_nostr_sub now (record s { disconnected_relay_count = count })))
            (λ _. refl))

  pub traffic-on_network_close : (s : Service) → traffic (on_network_close config s) ≡ traffic s
  unfolding on_network_close
  traffic-on_network_close s =
      if-cases (λ (t : Service). traffic t ≡ traffic s) (s.stopped || not (is_some s.network_sub))
        (λ _. refl) (λ _. traffic-ensure_network_sub (record s { network_sub = none }))

  pub traffic-check_subscription_health :
      (now : ℕ) (s : Service) → traffic (check_subscription_health config now s) ≡ traffic s
  unfolding check_subscription_health
  traffic-check_subscription_health now s =
      let streak =
        if ltb 0 s.published_since_check && not (ltb 0 s.seen_since_check)
        then suc s.echo_miss_streak
        else 0 in
      let s1 : Service = record s {
        published_since_check = 0;
        seen_since_check = 0;
        echo_miss_streak = streak;
      } in
      let P : Service → Type 0 = λ t. traffic t ≡ traffic s in
      if-cases P (not config.chat_from_nostr || not (is_some s.nostr_sub)) (λ _. refl)
        (λ _.
          if-cases P (leb echo_miss_restart streak)
            (λ _. traffic-restart_nostr_sub now (record s1 { echo_miss_streak = 0 }))
            (λ _.
              if-cases P (ltb now (s.last_event_time + max_silence_ms)) (λ _. refl)
                (λ _. traffic-restart_nostr_sub now s1)))
