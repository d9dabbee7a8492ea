-- ===== src/Chat/System/Frame.antt =====
-- The operations that leave the subscriptions alone.
use livelier.Base.{
  ℕ, suc, String, Bool, true, not, ◌&&◌, ◌||◌, ◌≡◌, refl, ◌∙◌, Option, none, some, List, [], ◌∷◌,
  if◌then◌else◌, if-cases, ◌==◌, eqb, any,
}
use livelier.Base.Dict.{Dict, lookup, insert, has}
use livelier.Base.Keys.{mem}
use livelier.Discovery.Store.{InstanceRow}
use livelier.Chat.Fingerprint.{fingerprint, has_fingerprint}
use livelier.Chat.State.{
  ChatServiceConfig, Event, Room, Delivery, Service, SourceChatMessage, SourceChatJoin,
}
use livelier.Chat.Nostr.{
  Via, handle_nostr_event, deliver_to_source, resolve_name, cached_name, fetched_name,
  deliver_named, deliver_in, route, enqueue, a_tag_of, room_of, is_client_tag, count_seen,
}
use livelier.Chat.Source.{
  handle_source_chat, handle_source_join, bridge_message, introduce, chatter_signer, signer_of,
  publish_chatter_identity,
}
use livelier.Chat.Rooms.{
  new_room, open_room, open_rooms, start_listener, open_demanded, poll_demand, start_end,
  first_poll,
}

-- The state of the subscriptions.
abbrev pub Subs : Type 0
Subs = Bool × Option ℕ × Option ℕ × ℕ × ℕ

abbrev pub subs : Service → Subs
subs s = (s.stopped, s.nostr_sub, s.network_sub, s.subscriptions, s.last_restart_at)

abbrev pub SameSubs : Service → Service → Type 0
SameSubs s t = subs t ≡ subs s

enqueue-SameSubs :
    (event : Event) (room : Option Room) (s : Service) → SameSubs s (enqueue event room s)
enqueue-SameSubs event none s = refl
enqueue-SameSubs event (some room) s = refl

route-SameSubs : (event : Event) (a : Option String) (s : Service) → SameSubs s (route event a s)
route-SameSubs event none s = refl
route-SameSubs event (some a) s =
    if-cases (SameSubs s) (a == "") (λ _. refl) (λ _. enqueue-SameSubs event (room_of a s.rooms) s)

count_seen-SameSubs : (now : ℕ) (via : Via) (s : Service) → SameSubs s (count_seen now via s)
count_seen-SameSubs now Via.local s = refl
count_seen-SameSubs now Via.network s = refl

pub handle_nostr_event-SameSubs :
    (config : ChatServiceConfig) (now : ℕ) (via : Via) (event : Event) (s : Service)
    → SameSubs s (handle_nostr_event config now via event s)
unfolding handle_nostr_event
handle_nostr_event-SameSubs config now via event s =
    let counted = count_seen now via s in
    let c = count_seen-SameSubs now via s in
    if-cases (SameSubs s) (not (eqb event.kind 1311)) (λ _. c)
      (λ _.
        if-cases (SameSubs s) (any (is_client_tag config.bridge_name) event.tags) (λ _. c)
          (λ _.
            if-cases (SameSubs s) (mem event.pubkey s.bridged_pubkeys) (λ _. c)
              (λ _. route-SameSubs event (a_tag_of event.tags) counted ∙ c)))

fetched_name-SameSubs :
    (pubkey : String) (fetched : Option String) (s : Service)
    → SameSubs s (fetched_name pubkey fetched s).1
fetched_name-SameSubs pubkey none s = refl
fetched_name-SameSubs pubkey (some name) s =
    if-cases (λ (r : String × Service). SameSubs s r.1) (name == "") (λ _. refl) (λ _. refl)

cached_name-SameSubs :
    (pubkey : String) (fetched cached : Option String) (s : Service)
    → SameSubs s (cached_name pubkey fetched cached s).1
cached_name-SameSubs pubkey fetched none s = fetched_name-SameSubs pubkey fetched s
cached_name-SameSubs pubkey fetched (some name) s =
    if-cases (λ (r : String × Service). SameSubs s r.1) (name == "")
      (λ _. fetched_name-SameSubs pubkey fetched s) (λ _. refl)

deliver_named-SameSubs :
    (now : ℕ) (accepted : Bool) (d : Delivery) (name : String) (room : Room) (s : Service)
    → SameSubs s (deliver_named now accepted d name room s)
unfolding deliver_named
deliver_named-SameSubs now accepted d name room s =
    if-cases (SameSubs s)
      ((has_fingerprint now (fingerprint name d.event.content) room.fingerprints).0) (λ _. refl)
      (λ _. if-cases (SameSubs s) accepted (λ _. refl) (λ _. refl))

deliver_in-SameSubs :
    (now : ℕ) (accepted : Bool) (d : Delivery) (name : String) (room : Option Room) (s : Service)
    → SameSubs s (deliver_in now accepted d name room s)
deliver_in-SameSubs now accepted d name none s = refl
deliver_in-SameSubs now accepted d name (some room) s =
    if-cases (SameSubs s) (eqb room.serial d.serial)
      (λ _. deliver_named-SameSubs now accepted d name room s) (λ _. refl)

pub deliver_to_source-SameSubs :
    (now : ℕ) (fetched : Option String) (accepted : Bool) (d : Delivery) (s : Service)
    → SameSubs s (deliver_to_source now fetched accepted d s)
unfolding deliver_to_source resolve_name
deliver_to_source-SameSubs now fetched accepted d s =
    let named = cached_name d.event.pubkey fetched (lookup d.event.pubkey s.name_cache) s in
    deliver_in-SameSubs now accepted d named.0 (lookup d.url named.1.rooms) named.1
    ∙ cached_name-SameSubs d.event.pubkey fetched (lookup d.event.pubkey s.name_cache) s

signer_of-SameSubs :
    (key user : String) (known : Option String) (room : Room) (s : Service)
    → SameSubs s (signer_of key user known room s).2
signer_of-SameSubs key user none room s = refl
signer_of-SameSubs key user (some k) room s = refl

introduce-SameSubs :
    (config : ChatServiceConfig) (now : ℕ) (key user name : String) (room : Room) (s : Service)
    → SameSubs s (introduce config now key user name room s).2
unfolding introduce chatter_signer publish_chatter_identity
introduce-SameSubs config now key user name room s =
    let h = signer_of-SameSubs key user (lookup user room.chatter_signers) room s in
    if-cases (λ (r : String × Room × Service). SameSubs s r.2) (mem user room.profiled_chatters)
      (λ _. h) (λ _. h)

pub handle_source_join-SameSubs :
    (config : ChatServiceConfig) (now : ℕ) (key : String) (join : SourceChatJoin) (room : Room)
    (s : Service)
    → SameSubs s (handle_source_join config now key join room s)
unfolding handle_source_join
handle_source_join-SameSubs config now key join room s =
    introduce-SameSubs config now key join.user_id join.display_name room s

pub handle_source_chat-SameSubs :
    (config : ChatServiceConfig) (now : ℕ) (key : String) (msg : SourceChatMessage) (room : Room)
    (s : Service)
    → SameSubs s (handle_source_chat config now key msg room s)
unfolding handle_source_chat bridge_message
handle_source_chat-SameSubs config now key msg room s =
    if-cases (SameSubs s) (msg.text == "") (λ _. refl)
      (λ _.
        if-cases (SameSubs s)
          ((has_fingerprint now (fingerprint msg.display_name msg.text) room.fingerprints).0)
          (λ _. refl) (λ _. introduce-SameSubs config now key msg.user_id msg.display_name _ s))

module _ (config : ChatServiceConfig) (opens : String → Bool) where
  start_listener-SameSubs :
      (room : Room) (s : Service) → SameSubs s (start_listener config opens room s).1
  unfolding start_listener
  start_listener-SameSubs room s =
      if-cases (λ (r : Bool × Service). SameSubs s r.1) (opens room.row.url) (λ _. refl) (λ _. refl)

  open_room-SameSubs :
      (url : String) (row : InstanceRow) (s : Service)
      → SameSubs s (open_room config opens url row s).1
  unfolding open_room
  open_room-SameSubs url row s =
      if-cases (λ (r : Bool × Service). SameSubs s r.1) (has url s.rooms) (λ _. refl)
        (λ _.
          if-cases (λ (r : Bool × Service). SameSubs s r.1)
            (config.chat_to_nostr && not config.has_demand)
            (λ _. start_listener-SameSubs (new_room config opens row s.next_serial) (record s {
              rooms = insert url (new_room config opens row s.next_serial) s.rooms;
              next_serial = suc s.next_serial;
            }))
            (λ _. refl))

  pub open_rooms-SameSubs :
      (wanted : Dict InstanceRow) (s : Service) → SameSubs s (open_rooms config opens wanted s).1
  unfolding open_rooms
  open_rooms-SameSubs [] s = refl
  open_rooms-SameSubs ((url, row) ∷ wanted) s =
      let step = open_room config opens url row s in
      if-cases (λ (r : Bool × Service). SameSubs s r.1) step.0
        (λ _. open_rooms-SameSubs wanted step.1 ∙ open_room-SameSubs url row s)
        (λ _. open_room-SameSubs url row s)

  open_demanded-SameSubs :
      (demanded : List String) (rooms : Dict Room) (s : Service)
      → SameSubs s (open_demanded config opens demanded rooms s)
  unfolding open_demanded
  open_demanded-SameSubs demanded [] s = refl
  open_demanded-SameSubs demanded ((_, room) ∷ rooms) s =
      let skipped = room.listening || not (mem room.a_tag demanded) in
      let started : Bool × Service =
        if skipped then (true, s) else start_listener config opens room s in
      let h : SameSubs s started.1 =
        if-cases (λ (r : Bool × Service). SameSubs s r.1) skipped (λ _. refl)
          (λ _. start_listener-SameSubs room s) in
      if-cases (SameSubs s) started.0 (λ _. open_demanded-SameSubs demanded rooms started.1 ∙ h)
        (λ _. h)

  pub poll_demand-SameSubs :
      (demanded : List String) (s : Service) → SameSubs s (poll_demand config opens demanded s)
  unfolding poll_demand
  poll_demand-SameSubs demanded s =
      if-cases (SameSubs s) (not config.has_demand || not config.chat_to_nostr) (λ _. refl)
        (λ _. open_demanded-SameSubs demanded s.rooms s)

  first_poll-SameSubs :
      (demanded : Option (List String)) (s : Service)
      → SameSubs s (first_poll config opens demanded s)
  first_poll-SameSubs none s = refl
  first_poll-SameSubs (some demanded) s = poll_demand-SameSubs demanded s

  pub start_end-SameSubs :
      (demanded : Option (List String)) (s : Service)
      → SameSubs s (start_end config opens demanded s)
  unfolding start_end
  start_end-SameSubs demanded s =
      if-cases (SameSubs s) (config.has_demand && config.chat_to_nostr)
        (λ _. first_poll-SameSubs demanded (record s { timers = true })) (λ _. refl)
