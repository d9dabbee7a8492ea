-- ===== src/Chat/System/NoEcho.antt =====
-- The dedup layers of the running chat bridge: its own events do not come back into the source chat.
use livelier.Base.{
  ℕ, ◌++◌, String, Bool, true, false, not, ◌&&◌, ◌||◌, ◌≡◌, refl, sym, subst, ◌∙◌, Option, none,
  some, List, [], ◌∷◌, if◌then◌else◌, if-cases, arith, eqb, any, All, All-mono, All-split,
}
use livelier.Base.Dict.{Dict, All-lookup}
use livelier.Base.Keys.{mem}
use livelier.Discovery.Store.{InstanceRow}
use livelier.Chat.State.{ChatServiceConfig, Event, Room, Delivery, Service}
use livelier.Chat.Nostr.{Via, handle_nostr_event, is_client_tag, count_seen}
use livelier.Chat.Firehose.{ensure_nostr_sub, log_heartbeat}
use livelier.Chat.Rooms.{
  open_rooms, open_demanded, poll_demand, start_begin, start_end, first_poll, refresh_rooms,
  wanted_rooms, close_unwanted, ensure_subs, stop, start_listener,
}
use livelier.Chat.System.{
  System, Step, Reach, boot, create, tick, hears, delivers, chats, joins, refreshes, polls,
  has_started, loses_firehose, loses_network, checks, beats, stops, here, next,
}
use livelier.Chat.System.Echo.{
  Own, OwnRoom, OwnRooms, Foreign, Ok, handle_nostr_event-Ok, deliver_to_source-Ok,
  handle_source_join-Ok, handle_source_chat-Ok, open_rooms-Ok, close_unwanted-Own,
  start_listener-Ok,
}
use livelier.Chat.System.Traffic.{
  OkTraffic, traffic-ensure_nostr_sub, traffic-ensure_network_sub, traffic-on_nostr_close,
  traffic-on_network_close, traffic-check_subscription_health,
}

module _ (config : ChatServiceConfig) where
  module _ (opens : String → Bool) where
    ensure_subs-Ok : (r : Bool × Service) → Ok config r.1 → Ok config (ensure_subs config opens r)
    ensure_subs-Ok (false, s) h = h
    ensure_subs-Ok (true, s) h =
        subst (OkTraffic config)
          (sym (
            traffic-ensure_network_sub config (ensure_nostr_sub config s)
            ∙ traffic-ensure_nostr_sub config s))
          h

    refresh_rooms-Ok :
        (rows : List InstanceRow) (s : Service)
        → Ok config s
        → Ok config (refresh_rooms config opens rows s)
    unfolding refresh_rooms
    refresh_rooms-Ok rows s (p, r, q, m) =
        let wanted = wanted_rooms rows [] in
        let kept = close_unwanted wanted s.rooms in
        let s1 : Service = record s { rooms = kept.0; closed_rooms = kept.1 ++ s.closed_rooms } in
        ensure_subs-Ok (open_rooms config opens wanted s1) (
          open_rooms-Ok config opens wanted s1
            (p, close_unwanted-Own config s.bridged_pubkeys wanted s.rooms r, q, m))

    keys-start_listener :
        (room : Room) (s : Service)
        → (start_listener config opens room s).1.bridged_pubkeys ≡ s.bridged_pubkeys
    unfolding start_listener
    keys-start_listener room s =
        if-cases (λ (t : Bool × Service). t.1.bridged_pubkeys ≡ s.bridged_pubkeys)
          (opens room.row.url) (λ _. refl) (λ _. refl)

    open_demanded-Ok :
        (demanded : List String) (rooms : Dict Room) (s : Service)
        → OwnRooms s.bridged_pubkeys rooms
        → Ok config s
        → Ok config (open_demanded config opens demanded rooms s)
    unfolding open_demanded
    open_demanded-Ok demanded [] s o h = h
    open_demanded-Ok demanded ((_, room) ∷ rooms) s (o, os) h =
        let skipped = room.listening || not (mem room.a_tag demanded) in
        let started : Bool × Service =
          if skipped then (true, s) else start_listener config opens room s in
        let h1 : Ok config started.1 =
          if-cases (λ (t : Bool × Service). Ok config t.1) skipped (λ _. h)
            (λ _. start_listener-Ok config opens room s o h) in
        let k : started.1.bridged_pubkeys ≡ s.bridged_pubkeys =
          if-cases (λ (t : Bool × Service). t.1.bridged_pubkeys ≡ s.bridged_pubkeys) skipped
            (λ _. refl) (λ _. keys-start_listener room s) in
        if-cases (Ok config) started.0
          (λ _.
            open_demanded-Ok demanded rooms started.1 (subst (λ b. OwnRooms b rooms) (sym k) os) h1)
          (λ _. h1)

    poll_demand-Ok :
        (demanded : List String) (s : Service)
        → Ok config s
        → Ok config (poll_demand config opens demanded s)
    unfolding poll_demand
    poll_demand-Ok demanded s h =
        if-cases (Ok config) (not config.has_demand || not config.chat_to_nostr) (λ _. h)
          (λ _. open_demanded-Ok demanded s.rooms s h.1 h)

    first_poll-Ok :
        (demanded : Option (List String)) (s : Service)
        → Ok config s
        → Ok config (first_poll config opens demanded s)
    first_poll-Ok none s h = h
    first_poll-Ok (some demanded) s h = poll_demand-Ok demanded s h

    start_end-Ok :
        (demanded : Option (List String)) (s : Service)
        → Ok config s
        → Ok config (start_end config opens demanded s)
    unfolding start_end
    start_end-Ok demanded s h =
        if-cases (Ok config) (config.has_demand && config.chat_to_nostr)
          (λ _. first_poll-Ok demanded (record s { timers = true }) h) (λ _. h)

  delivers-Ok :
      (before after : List Delivery) (d : Delivery) (s : Service)
      → s.pending ≡ before ++ d ∷ after
      → Ok config s
      → Foreign config.bridge_name d.event × Ok config (record s { pending = before ++ after })
  delivers-Ok before after d s e (p, r, q, m) =
      let (f, q1) =
        All-split (λ c. Foreign config.bridge_name c.event) before d after
          (subst (All (λ c. Foreign config.bridge_name c.event)) e q) in
      (f, (p, r, q1, m))

  Step-Ok : {x y : System} → Step config x y → Ok config x.service → Ok config y.service
  unfolding stop log_heartbeat
  Step-Ok (tick _ _) h = h
  Step-Ok {x} (hears via event) h = handle_nostr_event-Ok config x.clock via event x.service h
  Step-Ok {x} (delivers before after d fetched accepted e _) h =
      let (f, h1) = delivers-Ok before after d x.service e h in
      deliver_to_source-Ok config x.clock fetched accepted d
        (record x.service { pending = before ++ after }) f h1
  Step-Ok {x} (chats key msg room e) h =
      handle_source_chat-Ok config x.clock key msg room x.service
        (All-lookup (OwnRoom x.service.bridged_pubkeys) room.row.url x.service.rooms room h.1 e) h
  Step-Ok {x} (joins key join room e) h =
      handle_source_join-Ok config x.clock key join room x.service
        (All-lookup (OwnRoom x.service.bridged_pubkeys) room.row.url x.service.rooms room h.1 e) h
  Step-Ok {x} (refreshes opens rows) h = refresh_rooms-Ok opens rows x.service h
  Step-Ok {x} (polls opens demanded) h = poll_demand-Ok opens demanded x.service h
  Step-Ok {x} (has_started opens demanded) h = start_end-Ok opens demanded x.service h
  Step-Ok {x} (loses_firehose reasons) h =
      subst (OkTraffic config) (sym (traffic-on_nostr_close config x.clock reasons x.service)) h
  Step-Ok {x} loses_network h =
      subst (OkTraffic config) (sym (traffic-on_network_close config x.service)) h
  Step-Ok {x} checks h =
      subst (OkTraffic config) (sym (traffic-check_subscription_health config x.clock x.service)) h
  Step-Ok beats h = h
  Step-Ok stops (p, r, q, m) = (p, tt, q, m)

  later-Ok : {x y : System} → Reach config x y → Ok config x.service → Ok config y.service
  later-Ok here h = h
  later-Ok (next r st) h = Step-Ok st (later-Ok r h)

  -- `event` is dropped before it reaches a delivery chain.
  abbrev pub Dropped : Service → Event → Type 0
  Dropped s event =
      (now : ℕ) (via : Via) → (handle_nostr_event config now via event s).pending ≡ s.pending

  pending-count_seen :
      (now : ℕ) (via : Via) (s : Service) → (count_seen now via s).pending ≡ s.pending
  pending-count_seen now Via.local s = refl
  pending-count_seen now Via.network s = refl

  bridged_events_drop :
      (s : Service) (event : Event) → Own s.bridged_pubkeys event.pubkey → Dropped s event
  unfolding handle_nostr_event
  bridged_events_drop s event own now via =
      let P : Service → Type 0 = λ t. t.pending ≡ s.pending in
      let c = pending-count_seen now via s in
      if-cases P (not (eqb event.kind 1311)) (λ _. c)
        (λ _.
          if-cases P (any (is_client_tag config.bridge_name) event.tags) (λ _. c)
            (λ _.
              if-cases P (mem event.pubkey s.bridged_pubkeys) (λ _. c)
                (λ e. ground (arith, e, own))))

  -- In every state that the started service can reach: whatever was sent into a source chat came from a
  -- kind-1311 event without the bridge's client tag, and an event by the author of anything that the rooms
  -- published is dropped, whichever firehose it comes by.
  pub Reach-NoEcho :
      (now : ℕ) (x : System)
      → Reach config (boot now) x
      → All (λ m. Foreign config.bridge_name m.event) x.service.sent
        × All
            (λ p. (event : Event) → event.pubkey ≡ p.author → Dropped x.service event)
            x.service.published
  unfolding boot create start_begin
  Reach-NoEcho now x r =
      let (p, _, _, m) = later-Ok r (tt, tt, tt, tt) in
      (
        m,
        All-mono
            (λ o own event e.
              bridged_events_drop x.service event
                (subst (Own x.service.bridged_pubkeys) (sym e) own))
            x.service.published p,
      )
