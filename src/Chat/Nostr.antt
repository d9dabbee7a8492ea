-- ===== src/Chat/Nostr.antt =====
-- chat-bridge.service.ts, Nostr to source: `handleNostrEvent` and `deliverToSource`. The name that the
-- gateway finds for a public key, and whether the adapter takes a message, are arguments.
pub mod Once
use livelier.Base.{
  ℕ, suc, String, Bool, true, false, not, ◌&&◌, Option, none, some, List, [], ◌∷◌, ◌++◌,
  if◌then◌else◌, ◌==◌, eqb, any,
}
use livelier.Base.Dict.{Dict, lookup, insert}
use livelier.Base.Keys.{mem}
use livelier.Discovery.Tags.{Tag}
use livelier.Chat.Fingerprint.{fingerprint, has_fingerprint, add_fingerprint}
use livelier.Chat.State.{ChatServiceConfig, Event, Room, Delivery, SourceSend, Service}

pub data Via : Type 0 where
  local network : Via

-- `t[0] === 'client' && t[1] === name`
abbrev pub is_client_tag : String → Tag → Bool
is_client_tag name (a ∷ b ∷ _) = (a == "client") && (b == name)
is_client_tag name _ = false

-- `event.tags.find((t) => t[0] === 'a')?.[1]`
abbrev pub second : Tag → Option String
second (_ ∷ b ∷ _) = some b
second _ = none

abbrev pub a_tag_of : List Tag → Option String
a_tag_of [] = none
a_tag_of (t ∷ tags) = if is_a t then second t else a_tag_of tags
  where
    is_a : Tag → Bool
    is_a (a ∷ _) = a == "a"
    is_a [] = false

-- `[...rooms.values()].find((r) => r.aTag === aTag)`
unfoldable pub room_of : String → Dict Room → Option Room
room_of a_tag [] = none
room_of a_tag ((_, room) ∷ rooms) = if room.a_tag == a_tag then some room else room_of a_tag rooms

-- A change to the room that `url` has.
abbrev pub set_room : String → Room → Service → Service
set_room url room s = record s { rooms = insert url room s.rooms }

-- `resolveName`: `fetched` is what the gateway finds; a name that is not found is not cached.
abbrev pub fallback_name : String
fallback_name = "Guest"

abbrev pub fetched_name : String → Option String → Service → String × Service
fetched_name pubkey none s = (fallback_name, s)
fetched_name pubkey (some name) s =
    if name == ""
    then (fallback_name, s)
    else (name, record s { name_cache = insert pubkey name s.name_cache })

abbrev pub cached_name : String → Option String → Option String → Service → String × Service
cached_name pubkey fetched none s = fetched_name pubkey fetched s
cached_name pubkey fetched (some name) s =
    if name == "" then fetched_name pubkey fetched s else (name, s)

unfoldable pub resolve_name : String → Option String → Service → String × Service
unfolding lookup insert
resolve_name pubkey fetched s = cached_name pubkey fetched (lookup pubkey s.name_cache) s

-- `adapter.sendMessage`, and the counter; a send that fails is logged and dropped.
abbrev pub send_message : Bool → Delivery → String → Service → Service
send_message accepted d name s =
    if accepted
    then record s {
      sent =
          record { serial = d.serial; url = d.url; display_name = name; event = d.event } ∷ s.sent;
      inbound_delivered = suc s.inbound_delivered;
    }
    else s

-- The delivery into a room that is still open, once the name is known.
unfoldable pub deliver_named : ℕ → Bool → Delivery → String → Room → Service → Service
unfolding fingerprint has_fingerprint add_fingerprint insert
deliver_named now accepted d name room s =
    let fp = fingerprint name d.event.content in
    let seen = has_fingerprint now fp room.fingerprints in
    let known = set_room d.url (record room { fingerprints = seen.1 }) s in
    let noted = set_room d.url (record room { fingerprints = add_fingerprint now fp seen.1 }) s in
    if seen.0 then known else send_message accepted d name noted

abbrev pub deliver_in : ℕ → Bool → Delivery → String → Option Room → Service → Service
deliver_in now accepted d name none s = s
deliver_in now accepted d name (some room) s =
    if eqb room.serial d.serial then deliver_named now accepted d name room s else s

-- `deliverToSource`. A room that was closed or replaced meanwhile is no longer reachable, so that only the
-- name cache shows its deliveries.
unfoldable pub deliver_to_source : ℕ → Option String → Bool → Delivery → Service → Service
unfolding resolve_name deliver_named lookup
deliver_to_source now fetched accepted d s =
    let named = resolve_name d.event.pubkey fetched s in
    deliver_in now accepted d named.0 (lookup d.url named.1.rooms) named.1

-- The link that an event adds to the chain of its room.
abbrev pub enqueue : Event → Option Room → Service → Service
enqueue event none s = s
enqueue event (some room) s = record s {
  pending = s.pending ++ record { serial = room.serial; url = room.row.url; event = event } ∷ [];
}

abbrev pub route : Event → Option String → Service → Service
route event none s = s
route event (some a_tag) s = if a_tag == "" then s else enqueue event (room_of a_tag s.rooms) s

abbrev pub count_seen : ℕ → Via → Service → Service
count_seen now Via.network s = record s { network_seen = suc s.network_seen }
count_seen now Via.local s = record s {
  local_seen = suc s.local_seen;
  seen_since_check = suc s.seen_since_check;
  last_event_time = now;
}

unfoldable pub handle_nostr_event : ChatServiceConfig → ℕ → Via → Event → Service → Service
unfolding room_of mem
handle_nostr_event config now via event s =
    let counted = count_seen now via s in
    if not (eqb event.kind 1311)
    then counted
    else if any (is_client_tag config.bridge_name) event.tags
    then counted
    else if mem event.pubkey s.bridged_pubkeys
    then counted
    else route event (a_tag_of event.tags) counted
