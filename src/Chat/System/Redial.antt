-- ===== src/Chat/System/Redial.antt =====
-- The close handler's restart floor, over the life of the chat bridge.
use livelier.Base.{
  ℕ, suc, ◌+◌, ◌*◌, ◌≤◌, ◌++◌, ◌⊎◌, inl, inr, String, Bool, true, false, not, ◌&&◌, ◌||◌, ◌≡◌, refl,
  ap, ◌∙◌, none, List, [], ◌∷◌, if◌then◌else◌, if-cases, arith, ltb, leb, eqb, is_some,
}
use livelier.Discovery.Store.{InstanceRow}
use livelier.Chat.State.{ChatServiceConfig, Service}
use livelier.Chat.Nostr.{handle_nostr_event, deliver_to_source}
use livelier.Chat.Source.{handle_source_chat, handle_source_join}
use livelier.Chat.Firehose.{
  cleared, ensure_nostr_sub, ensure_network_sub, restart_nostr_sub, on_nostr_close,
  on_network_close, check_subscription_health, min_restart_interval_ms, max_silence_ms,
  echo_miss_restart, disconnect_threshold_percent, local_firehose_relays, log_heartbeat,
}
use livelier.Chat.Rooms.{
  poll_demand, start_end, refresh_rooms, open_rooms, wanted_rooms, close_unwanted, ensure_subs,
  stop, start_begin,
}
use livelier.Chat.System.{
  System, Step, Reach, boot, create, close_firehose, with_service, tick, hears, delivers, chats,
  joins, refreshes, polls, has_started, loses_firehose, loses_network, checks, beats, stops, here,
  next,
}
use livelier.Chat.System.Frame.{
  subs, SameSubs, handle_nostr_event-SameSubs, deliver_to_source-SameSubs,
  handle_source_chat-SameSubs, handle_source_join-SameSubs, open_rooms-SameSubs,
  poll_demand-SameSubs, start_end-SameSubs,
}

-- Times, the last one first, of which each is at least the restart floor after the one before.
abbrev pub After : ℕ → List ℕ → Type 0
After t [] = Unit
After t (u ∷ _) = u + min_restart_interval_ms ≤ t

abbrev pub Spaced : List ℕ → Type 0
Spaced [] = Unit
Spaced (t ∷ ts) = After t ts × Spaced ts

-- The last redial is no later than `last`.
abbrev pub Until : ℕ → List ℕ → Type 0
Until last [] = Unit
Until last (t ∷ _) = t ≤ last

Until-After :
    (last now : ℕ) (ts : List ℕ)
    → Until last ts
    → last + min_restart_interval_ms ≤ now
    → After now ts
Until-After last now [] _ _ = tt
Until-After last now (t ∷ _) h le = omega arith

Until-later : (last later : ℕ) (ts : List ℕ) → Until last ts → last ≤ later → Until later ts
Until-later last later [] _ _ = tt
Until-later last later (t ∷ _) h le = omega arith

abbrev pub Paced : System → Type 0
Paced x =
    (x.service.last_restart_at ≤ x.clock)
    × Until x.service.last_restart_at x.redials
    × Spaced x.redials

-- The time of the last restart is as before, or it is now.
abbrev pub Moved : ℕ → ℕ → ℕ → Type 0
Moved now last later = (later ≡ last) ⊎ (later ≡ now)

pace_after_move :
    (x : System) (s : Service)
    → Moved x.clock x.service.last_restart_at s.last_restart_at
    → Paced x
    → Paced (with_service s x)
pace_after_move x s (inl e) (p, u, d) = (omega arith, Until-later _ _ x.redials u (omega arith), d)
pace_after_move x s (inr e) (p, u, d) = (omega arith, Until-later _ _ x.redials u (omega arith), d)

same-Paced : (x : System) (s : Service) → SameSubs x.service s → Paced x → Paced (with_service s x)
same-Paced x s e = pace_after_move x s (inl (ap (λ u. u.4) e))

module _ (config : ChatServiceConfig) where
  last-ensure_nostr_sub :
      (s : Service) → (ensure_nostr_sub config s).last_restart_at ≡ s.last_restart_at
  unfolding ensure_nostr_sub
  last-ensure_nostr_sub s = ground arith

  last-ensure_network_sub :
      (s : Service) → (ensure_network_sub config s).last_restart_at ≡ s.last_restart_at
  unfolding ensure_network_sub
  last-ensure_network_sub s = ground arith

  last-restart_nostr_sub :
      (now : ℕ) (s : Service) → (restart_nostr_sub config now s).last_restart_at ≡ now
  unfolding restart_nostr_sub
  last-restart_nostr_sub now s = last-ensure_nostr_sub (cleared now s)

  last-on_network_close :
      (s : Service) → (on_network_close config s).last_restart_at ≡ s.last_restart_at
  unfolding on_network_close
  last-on_network_close s =
      ground (arith, last-ensure_network_sub (record s { network_sub = none }))

  last-ensure_subs :
      (opens : String → Bool) (r : Bool × Service)
      → (ensure_subs config opens r).last_restart_at ≡ r.1.last_restart_at
  last-ensure_subs opens (false, s) = refl
  last-ensure_subs opens (true, s) =
      last-ensure_network_sub (ensure_nostr_sub config s) ∙ last-ensure_nostr_sub s

  last-refresh_rooms :
      (opens : String → Bool) (rows : List InstanceRow) (s : Service)
      → (refresh_rooms config opens rows s).last_restart_at ≡ s.last_restart_at
  unfolding refresh_rooms
  last-refresh_rooms opens rows s =
      let wanted = wanted_rooms rows [] in
      let kept = close_unwanted wanted s.rooms in
      let s1 : Service = record s { rooms = kept.0; closed_rooms = kept.1 ++ s.closed_rooms } in
      last-ensure_subs opens (open_rooms config opens wanted s1)
      ∙ ap (λ u. u.4) (open_rooms-SameSubs config opens wanted s1)

  last-check_subscription_health :
      (now : ℕ) (s : Service)
      → Moved now s.last_restart_at (check_subscription_health config now s).last_restart_at
  unfolding check_subscription_health
  last-check_subscription_health now s =
      let streak =
        if ltb 0 s.published_since_check && not (ltb 0 s.seen_since_check)
        then suc s.echo_miss_streak
        else 0 in
      let s1 : Service = record s {
        published_since_check = 0;
        seen_since_check = 0;
        echo_miss_streak = streak;
      } in
      let P : Service → Type 0 = λ t. Moved now s.last_restart_at t.last_restart_at in
      if-cases P (not config.chat_from_nostr || not (is_some s.nostr_sub)) (λ _. inl refl)
        (λ _.
          if-cases P (leb echo_miss_restart streak)
            (λ _. inr (last-restart_nostr_sub now (record s1 { echo_miss_streak = 0 })))
            (λ _.
              if-cases P (ltb now (s.last_event_time + max_silence_ms)) (λ _. inl refl)
                (λ _. inr (last-restart_nostr_sub now s1))))

  -- The close handler leaves the service's subscriptions alone, or it restarts past the floor.
  on_nostr_close-restarts :
      (now reasons : ℕ) (s : Service)
      → (subs (on_nostr_close config now reasons s) ≡ subs s)
        ⊎ ((s.last_restart_at + min_restart_interval_ms ≤ now)
            × ((on_nostr_close config now reasons s).last_restart_at ≡ now))
  unfolding on_nostr_close
  on_nostr_close-restarts now reasons s =
      let count = s.disconnected_relay_count + reasons in
      let s1 : Service = record s { disconnected_relay_count = count } in
      let P : Service → Type 0 = λ t.
        (subs t ≡ subs s)
        ⊎ ((s.last_restart_at + min_restart_interval_ms ≤ now) × (t.last_restart_at ≡ now)) in
      if-cases P (s.stopped || not (is_some s.nostr_sub)) (λ _. inl refl)
        (λ _.
          if-cases P (ltb (disconnect_threshold_percent * local_firehose_relays) (count * 100))
            (λ _.
              if-cases P (ltb now (s.last_restart_at + min_restart_interval_ms)) (λ _. inl refl)
                (λ e. inr (ground (arith, e), last-restart_nostr_sub now s1)))
            (λ _. inl refl))

  close_firehose-Paced :
      (reasons : ℕ) (x : System) → Paced x → Paced (close_firehose config reasons x)
  close_firehose-Paced reasons x (p, u, d) =
      let s : Service = on_nostr_close config x.clock reasons x.service in
      let P : List ℕ → Type 0 = λ ts. Paced (record x { service = s; redials = ts }) in
      elim (on_nostr_close-restarts x.clock reasons x.service) [
        | inl e ↦
            if-cases P (eqb s.subscriptions x.service.subscriptions)
              (λ _. same-Paced x s e (p, u, d)) (λ n. ground (arith, n, ap (λ v. v.3) e))
        | inr (floor, e) ↦
            if-cases P (eqb s.subscriptions x.service.subscriptions)
              (λ _. pace_after_move x s (inr e) (p, u, d))
              (λ _. (omega arith, omega arith, (Until-After _ _ x.redials u floor, d)))
      ]

  Step-Paced : {x y : System} → Step config x y → Paced x → Paced y
  unfolding stop log_heartbeat
  Step-Paced (tick _ le) = λ h. (omega (arith, le, h.0), h.1, h.2)
  Step-Paced {x} (hears via event) =
      same-Paced x (handle_nostr_event config x.clock via event x.service)
        (handle_nostr_event-SameSubs config x.clock via event x.service)
  Step-Paced {x} (delivers before after d fetched accepted _ _) =
      same-Paced x
        (deliver_to_source x.clock fetched accepted d
          (record x.service { pending = before ++ after }))
        (deliver_to_source-SameSubs x.clock fetched accepted d
          (record x.service { pending = before ++ after }))
  Step-Paced {x} (chats key msg room _) =
      same-Paced x (handle_source_chat config x.clock key msg room x.service)
        (handle_source_chat-SameSubs config x.clock key msg room x.service)
  Step-Paced {x} (joins key join room _) =
      same-Paced x (handle_source_join config x.clock key join room x.service)
        (handle_source_join-SameSubs config x.clock key join room x.service)
  Step-Paced {x} (refreshes opens rows) =
      pace_after_move x (refresh_rooms config opens rows x.service)
        (inl (last-refresh_rooms opens rows x.service))
  Step-Paced {x} (polls opens demanded) =
      same-Paced x (poll_demand config opens demanded x.service)
        (poll_demand-SameSubs config opens demanded x.service)
  Step-Paced {x} (has_started opens demanded) =
      same-Paced x (start_end config opens demanded x.service)
        (start_end-SameSubs config opens demanded x.service)
  Step-Paced {x} (loses_firehose reasons) = close_firehose-Paced reasons x
  Step-Paced {x} loses_network =
      pace_after_move x (on_network_close config x.service) (inl (last-on_network_close x.service))
  Step-Paced {x} checks =
      pace_after_move x (check_subscription_health config x.clock x.service)
        (last-check_subscription_health x.clock x.service)
  Step-Paced beats = λ h. h
  Step-Paced stops = λ h. h

  later-Paced : {x y : System} → Reach config x y → Paced x → Paced y
  later-Paced here h = h
  later-Paced (next r st) h = Step-Paced st (later-Paced r h)

  -- From `start` on, the close handler opens a new firehose at most once in 30 seconds, however often the
  -- relay ends the subscription.
  pub Reach-Spaced : (now : ℕ) (x : System) → Reach config (boot now) x → Spaced x.redials
  unfolding boot create start_begin
  Reach-Spaced now x r = (later-Paced r (omega arith, tt, tt)).2
