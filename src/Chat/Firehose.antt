-- ===== src/Chat/Firehose.antt =====
-- chat-bridge.service.ts, the subscriptions: `ensureNostrSub`, `ensureNetworkSub`, their close handlers,
-- `checkSubscriptionHealth`, `restartNostrSub` and `logHeartbeat`. A handle is its number; closing one
-- reports back into the close handler, which finds the field empty and returns.
pub mod Watchdog
use livelier.Base.{
  ℕ, suc, ◌+◌, ◌*◌, Bool, true, false, not, ◌&&◌, ◌||◌, none, some, List, [], ◌∷◌, if◌then◌else◌,
  ltb, leb, is_some,
}
use livelier.Chat.State.{ChatServiceConfig, Service}

abbrev pub max_silence_ms : ℕ
max_silence_ms = 3600000

abbrev pub echo_miss_restart : ℕ
echo_miss_restart = 2

abbrev pub min_restart_interval_ms : ℕ
min_restart_interval_ms = 30000

-- `RELAY_DISCONNECT_THRESHOLD * 100` and `LOCAL_FIREHOSE_RELAYS`.
abbrev pub disconnect_threshold_percent : ℕ
disconnect_threshold_percent = 75

abbrev pub local_firehose_relays : ℕ
local_firehose_relays = 1

-- `list.length === 0`
abbrev pub is_empty {ℓ} : {A : Type ℓ} → List A → Bool
is_empty [] = true
is_empty (_ ∷ _) = false

-- `restartNostrSub` before it subscribes again.
abbrev pub cleared : ℕ → Service → Service
cleared now s = record s {
  disconnected_relay_count = 0;
  published_since_check = 0;
  seen_since_check = 0;
  echo_miss_streak = 0;
  last_restart_at = now;
  nostr_sub = none;
  last_event_time = now;
}

module _ (config : ChatServiceConfig) where
  unfoldable pub ensure_nostr_sub : Service → Service
  ensure_nostr_sub s =
      if s.stopped || not config.chat_from_nostr || is_some s.nostr_sub
      then s
      else record s { nostr_sub = some s.subscriptions; subscriptions = suc s.subscriptions }

  unfoldable pub ensure_network_sub : Service → Service
  ensure_network_sub s =
      if s.stopped || not config.chat_from_nostr || is_some s.network_sub
      then s
      else if is_empty config.network_chat_read_relays
      then s
      else record s { network_sub = some s.subscriptions; subscriptions = suc s.subscriptions }

  unfoldable pub restart_nostr_sub : ℕ → Service → Service
  unfolding ensure_nostr_sub
  restart_nostr_sub now s = ensure_nostr_sub (cleared now s)

  -- The close handler of the local firehose; `reasons` is their number.
  unfoldable pub on_nostr_close : ℕ → ℕ → Service → Service
  unfolding restart_nostr_sub
  on_nostr_close now reasons s =
      if s.stopped || not (is_some s.nostr_sub)
      then s
      else let count = s.disconnected_relay_count + reasons in
        let s1 = record s { disconnected_relay_count = count } in
        if ltb (disconnect_threshold_percent * local_firehose_relays) (count * 100)
        then if ltb now (s.last_restart_at + min_restart_interval_ms)
          then s1
          else restart_nostr_sub now s1
        else s1

  -- The close handler of the network firehose.
  unfoldable pub on_network_close : Service → Service
  unfolding ensure_network_sub
  on_network_close s =
      if s.stopped || not (is_some s.network_sub)
      then s
      else ensure_network_sub (record s { network_sub = none })

  unfoldable pub check_subscription_health : ℕ → Service → Service
  unfolding restart_nostr_sub
  check_subscription_health now s =
      if not config.chat_from_nostr || not (is_some s.nostr_sub)
      then s
      else let echo_missing = ltb 0 s.published_since_check && not (ltb 0 s.seen_since_check) in
        let streak = if echo_missing then suc s.echo_miss_streak else 0 in
        let s1 = record s {
          published_since_check = 0;
          seen_since_check = 0;
          echo_miss_streak = streak;
        } in
        if leb echo_miss_restart streak
        then restart_nostr_sub now (record s1 { echo_miss_streak = 0 })
        else if ltb now (s.last_event_time + max_silence_ms)
        then s1
        else restart_nostr_sub now s1

-- `logHeartbeat` starts the counts of the heartbeat over.
unfoldable pub log_heartbeat : Service → Service
log_heartbeat s = record s {
  local_seen = 0;
  network_seen = 0;
  inbound_delivered = 0;
  outbound_published = 0;
}
