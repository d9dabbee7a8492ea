-- ===== src/Chat/System/Echo.antt =====
-- What the handlers and the rooms of the chat bridge keep: the keys that publish are known as the bridge's own,
-- and what waits for delivery or was delivered passed the filters.
use livelier.Base.{
  ℕ, suc, String, Bool, true, false, not, ◌&&◌, ◌≡◌, Option, none, some, List, [], ◌∷◌, if-cases,
  Option-cases, inl, inr, arith, eqb, ◌==◌, any, All, All-mono, All-append, eq_refl,
}
use livelier.Base.Dict.{Dict, lookup, insert, has, All-insert, All-lookup}
use livelier.Base.Keys.{mem, add, mem-add}
use livelier.Discovery.Store.{InstanceRow}
use livelier.Chat.Fingerprint.{fingerprint, has_fingerprint, add_fingerprint}
use livelier.Chat.State.{
  ChatServiceConfig, Event, Room, Delivery, Service, SourceChatMessage, SourceChatJoin,
}
use livelier.Chat.Nostr.{
  Via, handle_nostr_event, deliver_to_source, resolve_name, cached_name, fetched_name,
  deliver_named, deliver_in, route, enqueue, a_tag_of, room_of, is_client_tag, count_seen,
}
use livelier.Chat.Source.{
  handle_source_chat, handle_source_join, bridge_message, introduce, chatter_signer, signer_of,
  publish_chatter_identity,
}
use livelier.Chat.Rooms.{new_room, open_room, open_rooms, start_listener, close_unwanted}

-- Every key in the list is the bridge's own.
abbrev pub Own : List String → String → Type 0
Own keys k = mem k keys ≡ true

abbrev pub OwnRoom : List String → Room → Type 0
OwnRoom keys room = All (λ e. Own keys e.1) room.chatter_signers

abbrev pub OwnRooms : List String → Dict Room → Type 0
OwnRooms keys = All (λ e. OwnRoom keys e.1)

-- A chat message that does not carry the bridge's client tag.
abbrev pub Foreign : String → Event → Type 0
Foreign name event = (eqb event.kind 1311 ≡ true) × (any (is_client_tag name) event.tags ≡ false)

module _ (config : ChatServiceConfig) where
  abbrev pub Ok : Service → Type 0
  Ok s =
      All (λ p. Own s.bridged_pubkeys p.author) s.published
      × OwnRooms s.bridged_pubkeys s.rooms
      × All (λ d. Foreign config.bridge_name d.event) s.pending
      × All (λ m. Foreign config.bridge_name m.event) s.sent

  grow-Own : (key k : String) (keys : List String) → Own keys k → Own (add key keys) k
  grow-Own key k keys h = ground (arith, mem-add key k keys)

  grow-OwnRooms :
      (key : String) (keys : List String) (rooms : Dict Room)
      → OwnRooms keys rooms
      → OwnRooms (add key keys) rooms
  grow-OwnRooms key keys =
      All-mono (λ e h. All-mono (λ c g. grow-Own key c.1 keys g) e.1.chatter_signers h)

  enqueue-Ok :
      (event : Event) (room : Option Room) (s : Service)
      → Foreign config.bridge_name event
      → Ok s
      → Ok (enqueue event room s)
  enqueue-Ok event none s f h = h
  enqueue-Ok event (some room) s f (p, r, d, m) =
      (p, r, All-append (λ d. Foreign config.bridge_name d.event) s.pending _ d (f, tt), m)

  route-Ok :
      (event : Event) (a : Option String) (s : Service)
      → Foreign config.bridge_name event
      → Ok s
      → Ok (route event a s)
  route-Ok event none s f h = h
  route-Ok event (some a) s f h =
      if-cases Ok (a == "") (λ _. h) (λ _. enqueue-Ok event (room_of a s.rooms) s f h)

  count_seen-Ok : (now : ℕ) (via : Via) (s : Service) → Ok s → Ok (count_seen now via s)
  count_seen-Ok now Via.local s h = h
  count_seen-Ok now Via.network s h = h

  pub handle_nostr_event-Ok :
      (now : ℕ) (via : Via) (event : Event) (s : Service)
      → Ok s
      → Ok (handle_nostr_event config now via event s)
  unfolding handle_nostr_event
  handle_nostr_event-Ok now via event s h =
      let c = count_seen-Ok now via s h in
      if-cases Ok (not (eqb event.kind 1311)) (λ _. c)
        (λ k.
          if-cases Ok (any (is_client_tag config.bridge_name) event.tags) (λ _. c)
            (λ t.
              if-cases Ok (mem event.pubkey s.bridged_pubkeys) (λ _. c)
                (λ _.
                  route-Ok event (a_tag_of event.tags) (count_seen now via s) (ground (arith, k), t)
                    c)))

  fetched_name-Ok :
      (pubkey : String) (fetched : Option String) (s : Service)
      → Ok s
      → Ok (fetched_name pubkey fetched s).1
  fetched_name-Ok pubkey none s h = h
  fetched_name-Ok pubkey (some name) s h =
      if-cases (λ (r : String × Service). Ok r.1) (name == "") (λ _. h) (λ _. h)

  cached_name-Ok :
      (pubkey : String) (fetched cached : Option String) (s : Service)
      → Ok s
      → Ok (cached_name pubkey fetched cached s).1
  cached_name-Ok pubkey fetched none s h = fetched_name-Ok pubkey fetched s h
  cached_name-Ok pubkey fetched (some name) s h =
      if-cases (λ (r : String × Service). Ok r.1) (name == "")
        (λ _. fetched_name-Ok pubkey fetched s h) (λ _. h)

  deliver_in-Ok :
      (now : ℕ) (accepted : Bool) (d : Delivery) (name : String) (s : Service)
      → Foreign config.bridge_name d.event
      → Ok s
      → Ok (deliver_in now accepted d name (lookup d.url s.rooms) s)
  unfolding deliver_named
  deliver_in-Ok now accepted d name s f (p, r, q, m) = elim (Option-cases (lookup d.url s.rooms)) [
    | inl e ↦ rw e (p, r, q, m)
    | inr (room, e) ↦
        let own = All-lookup (OwnRoom s.bridged_pubkeys) d.url s.rooms room r e in
        let put : (fps : Dict ℕ)
            → OwnRooms s.bridged_pubkeys
                (insert d.url (record room { fingerprints = fps }) s.rooms) =
          λ fps.
            All-insert (λ c. OwnRoom s.bridged_pubkeys c.1) d.url
              (record room { fingerprints = fps }) s.rooms own r in
        rw e (
          if-cases Ok (eqb room.serial d.serial)
            (λ _.
              if-cases Ok
                ((has_fingerprint now (fingerprint name d.event.content) room.fingerprints).0)
                (λ _. (p, put _, q, m))
                (λ _. if-cases Ok accepted (λ _. (p, put _, q, (f, m))) (λ _. (p, put _, q, m))))
            (λ _. (p, r, q, m)))
  ]

  pub deliver_to_source-Ok :
      (now : ℕ) (fetched : Option String) (accepted : Bool) (d : Delivery) (s : Service)
      → Foreign config.bridge_name d.event
      → Ok s
      → Ok (deliver_to_source now fetched accepted d s)
  unfolding deliver_to_source resolve_name
  deliver_to_source-Ok now fetched accepted d s f h =
      let named = cached_name d.event.pubkey fetched (lookup d.event.pubkey s.name_cache) s in
      deliver_in-Ok now accepted d named.0 named.1 f
        (cached_name-Ok d.event.pubkey fetched (lookup d.event.pubkey s.name_cache) s h)

  -- A chatter's key, the room and the service after it was looked up or made.
  abbrev pub OkSigned : String × Room × Service → Type 0
  OkSigned r = Own r.2.bridged_pubkeys r.0 × OwnRoom r.2.bridged_pubkeys r.1 × Ok r.2

  signer_of-Ok :
      (key user : String) (room : Room) (s : Service)
      → OwnRoom s.bridged_pubkeys room
      → Ok s
      → OkSigned (signer_of key user (lookup user room.chatter_signers) room s)
  signer_of-Ok key user room s o (p, r, q, m) =
      elim (Option-cases (lookup user room.chatter_signers)) [
        | inl e ↦ rw e (
          ground (arith, mem-add key key s.bridged_pubkeys, eq_refl key),
          All-insert (λ c. Own (add key s.bridged_pubkeys) c.1) user key room.chatter_signers
              (ground (arith, mem-add key key s.bridged_pubkeys, eq_refl key))
              (All-mono (λ c g. grow-Own key c.1 s.bridged_pubkeys g) room.chatter_signers o),
          (
            All-mono (λ c g. grow-Own key c.author s.bridged_pubkeys g) s.published p,
            grow-OwnRooms key s.bridged_pubkeys s.rooms r,
            q,
            m,
          ),
        )
        | inr (k, e) ↦
            rw e
              (All-lookup (Own s.bridged_pubkeys) user room.chatter_signers k o e, o, (p, r, q, m))
      ]

  module _ (now : ℕ) where
    introduce-Ok :
        (key user name : String) (room : Room) (s : Service)
        → OwnRoom s.bridged_pubkeys room
        → Ok s
        → OkSigned (introduce config now key user name room s)
    unfolding introduce chatter_signer publish_chatter_identity
    introduce-Ok key user name room s o h =
        let (k, o1, (p, r, q, m)) = signer_of-Ok key user room s o h in
        if-cases OkSigned (mem user room.profiled_chatters) (λ _. (k, o1, (p, r, q, m)))
          (λ _. (k, o1, ((k, (k, p)), r, q, m)))

    pub handle_source_join-Ok :
        (key : String) (join : SourceChatJoin) (room : Room) (s : Service)
        → OwnRoom s.bridged_pubkeys room
        → Ok s
        → Ok (handle_source_join config now key join room s)
    unfolding handle_source_join
    handle_source_join-Ok key join room s o h =
        let known = introduce config now key join.user_id join.display_name room s in
        let (k, o1, (p, r, q, m)) = introduce-Ok key join.user_id join.display_name room s o h in
        (
          (k, p),
          All-insert (λ c. OwnRoom known.2.bridged_pubkeys c.1) room.row.url known.1 known.2.rooms
              o1 r,
          q,
          m,
        )

    bridge_message-Ok :
        (key : String) (msg : SourceChatMessage) (room : Room) (s : Service)
        → OwnRoom s.bridged_pubkeys room
        → Ok s
        → Ok (bridge_message config now key msg room s)
    unfolding bridge_message
    bridge_message-Ok key msg room s o h =
        let known = introduce config now key msg.user_id msg.display_name room s in
        let (k, o1, (p, r, q, m)) = introduce-Ok key msg.user_id msg.display_name room s o h in
        (
          (k, p),
          All-insert (λ c. OwnRoom known.2.bridged_pubkeys c.1) room.row.url known.1 known.2.rooms
              o1 r,
          q,
          m,
        )

    pub handle_source_chat-Ok :
        (key : String) (msg : SourceChatMessage) (room : Room) (s : Service)
        → OwnRoom s.bridged_pubkeys room
        → Ok s
        → Ok (handle_source_chat config now key msg room s)
    unfolding handle_source_chat
    handle_source_chat-Ok key msg room s o (p, r, q, m) =
        let seen = has_fingerprint now (fingerprint msg.display_name msg.text) room.fingerprints in
        let noted : Room = record room {
          fingerprints = add_fingerprint now (fingerprint msg.display_name msg.text) seen.1;
        } in
        if-cases Ok (msg.text == "") (λ _. (p, r, q, m))
          (λ _.
            if-cases Ok seen.0
              (λ _. (
                p,
                All-insert (λ c. OwnRoom s.bridged_pubkeys c.1) room.row.url
                    (record room { fingerprints = seen.1 }) s.rooms o r,
                q,
                m,
              ))
              (λ _. bridge_message-Ok key msg noted s o (p, r, q, m)))

  pub close_unwanted-Own :
      (keys : List String) (wanted : Dict InstanceRow) (rooms : Dict Room)
      → OwnRooms keys rooms
      → OwnRooms keys (close_unwanted wanted rooms).0
  unfolding close_unwanted
  close_unwanted-Own keys wanted [] h = tt
  close_unwanted-Own keys wanted ((url, room) ∷ rooms) (o, h) =
      if-cases (λ (r : Dict Room × List String). OwnRooms keys r.0) (has url wanted)
        (λ _. (o, close_unwanted-Own keys wanted rooms h))
        (λ _. close_unwanted-Own keys wanted rooms h)

  module _ (opens : String → Bool) where
    pub start_listener-Ok :
        (room : Room) (s : Service)
        → OwnRoom s.bridged_pubkeys room
        → Ok s
        → Ok (start_listener config opens room s).1
    unfolding start_listener
    start_listener-Ok room s o (p, r, q, m) =
        if-cases (λ (t : Bool × Service). Ok t.1) (opens room.row.url)
          (λ _. (
            p,
            All-insert (λ c. OwnRoom s.bridged_pubkeys c.1) room.row.url
                (record room { listening = true }) s.rooms o r,
            q,
            m,
          ))
          (λ _. (p, r, q, m))

    open_room-Ok :
        (url : String) (row : InstanceRow) (s : Service)
        → Ok s
        → Ok (open_room config opens url row s).1
    unfolding open_room
    open_room-Ok url row s (p, r, q, m) =
        let room = new_room config opens row s.next_serial in
        let opened : Service = record s {
          rooms = insert url room s.rooms;
          next_serial = suc s.next_serial;
        } in
        let h : Ok opened =
          (p, All-insert (λ c. OwnRoom s.bridged_pubkeys c.1) url room s.rooms tt r, q, m) in
        if-cases (λ (t : Bool × Service). Ok t.1) (has url s.rooms) (λ _. (p, r, q, m))
          (λ _.
            if-cases (λ (t : Bool × Service). Ok t.1)
              (config.chat_to_nostr && not config.has_demand)
              (λ _. start_listener-Ok room opened tt h) (λ _. h))

    pub open_rooms-Ok :
        (wanted : Dict InstanceRow) (s : Service) → Ok s → Ok (open_rooms config opens wanted s).1
    unfolding open_rooms
    open_rooms-Ok [] s h = h
    open_rooms-Ok ((url, row) ∷ wanted) s h =
        let step = open_room config opens url row s in
        if-cases (λ (t : Bool × Service). Ok t.1) step.0
          (λ _. open_rooms-Ok wanted step.1 (open_room-Ok url row s h))
          (λ _. open_room-Ok url row s h)
