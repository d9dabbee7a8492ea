-- ===== src/Chat/Rooms.antt =====
-- chat-bridge.service.ts, the life of the service: `refreshRooms`, `pollDemand`, `startListener`, `start`
-- and `stop`. `opens url` says whether the adapter's listener for `url` opens; where it throws, the rest
-- of the refresh or of the poll does not run.
pub mod Refresh
use livelier.Base.{
  ℕ, suc, String, Bool, true, false, not, ◌&&◌, ◌||◌, Option, none, some, List, [], ◌∷◌, ◌++◌,
  if◌then◌else◌,
}
use livelier.Base.Dict.{Dict, lookup, insert, has}
use livelier.Base.Keys.{mem}
use livelier.Base.Text.{cat}
use livelier.Discovery.Store.{InstanceRow}
use livelier.Chat.State.{ChatServiceConfig, Room, Service}
use livelier.Chat.Nostr.{set_room}
use livelier.Chat.Firehose.{ensure_nostr_sub, ensure_network_sub}

-- `new Map(rows.map((r) => [r.url, r]))`
unfoldable pub wanted_rooms : List InstanceRow → Dict InstanceRow → Dict InstanceRow
unfolding insert
wanted_rooms [] wanted = wanted
wanted_rooms (row ∷ rows) wanted = wanted_rooms rows (insert row.url row wanted)

-- The rooms that are still wanted, and the URLs of the others, which are closed.
unfoldable pub close_unwanted : Dict InstanceRow → Dict Room → Dict Room × List String
unfolding lookup
close_unwanted wanted [] = ([], [])
close_unwanted wanted ((url, room) ∷ rooms) =
    let rest = close_unwanted wanted rooms in
    if has url wanted then ((url, room) ∷ rest.0, rest.1) else (rest.0, url ∷ rest.1)

module _ (config : ChatServiceConfig) (opens : String → Bool) where
  abbrev pub a_tag_for : String → String
  a_tag_for d_tag = cat "30311:" (cat config.bridge_pubkey (cat ":" d_tag))

  abbrev pub new_room : InstanceRow → ℕ → Room
  new_room row serial = record {
    serial = serial;
    row = row;
    a_tag = a_tag_for row.d_tag;
    listening = false;
    chatter_signers = [];
    profiled_chatters = [];
    fingerprints = [];
  }

  -- `startListener`: whether it resolved, and the room with its handle.
  unfoldable pub start_listener : Room → Service → Bool × Service
  unfolding insert
  start_listener room s =
      if opens room.row.url
      then (true, set_room room.row.url (record room { listening = true }) s)
      else (false, s)

  -- The second loop of `refreshRooms` on a wanted row; `false` if its listener threw.
  unfoldable pub open_room : String → InstanceRow → Service → Bool × Service
  unfolding lookup insert start_listener
  open_room url row s =
      let room = new_room row s.next_serial in
      let opened = record s { rooms = insert url room s.rooms; next_serial = suc s.next_serial } in
      if has url s.rooms
      then (true, s)
      else if config.chat_to_nostr && not config.has_demand
      then start_listener room opened
      else (true, opened)

  unfoldable pub open_rooms : Dict InstanceRow → Service → Bool × Service
  unfolding open_room
  open_rooms [] s = (true, s)
  open_rooms ((url, row) ∷ wanted) s =
      let step = open_room url row s in
      let rest = open_rooms wanted step.1 in if step.0 then rest else step

  -- `ensureNostrSub` and `ensureNetworkSub`, unless a listener threw.
  abbrev pub ensure_subs : Bool × Service → Service
  ensure_subs (false, s) = s
  ensure_subs (true, s) = ensure_network_sub config (ensure_nostr_sub config s)

  -- `refreshRooms` on the rows that the store returned.
  unfoldable pub refresh_rooms : List InstanceRow → Service → Service
  unfolding wanted_rooms close_unwanted open_rooms ensure_nostr_sub ensure_network_sub
  refresh_rooms rows s =
      let wanted = wanted_rooms rows [] in
      let kept = close_unwanted wanted s.rooms in
      ensure_subs
        (open_rooms wanted (record s { rooms = kept.0; closed_rooms = kept.1 ++ s.closed_rooms }))

  -- The loop of `pollDemand` over the rooms, as they were when it began.
  unfoldable pub open_demanded : List String → Dict Room → Service → Service
  unfolding mem start_listener
  open_demanded demanded [] s = s
  open_demanded demanded ((_, room) ∷ rooms) s =
      let skipped = room.listening || not (mem room.a_tag demanded) in
      let started = if skipped then (true, s) else start_listener room s in
      let rest = open_demanded demanded rooms started.1 in if started.0 then rest else started.1

  unfoldable pub poll_demand : List String → Service → Service
  unfolding open_demanded
  poll_demand demanded s =
      if not config.has_demand || not config.chat_to_nostr
      then s
      else open_demanded demanded s.rooms s

  -- `start` after its first refresh; `demanded` is the first answer of the demand source, if it answered.
  abbrev pub first_poll : Option (List String) → Service → Service
  first_poll none s = s
  first_poll (some demanded) s = poll_demand demanded s

  unfoldable pub start_end : Option (List String) → Service → Service
  unfolding poll_demand
  start_end demanded s =
      let timed = record s { timers = true } in
      if config.has_demand && config.chat_to_nostr
      then record (first_poll demanded timed) { demand_timer = true }
      else timed

-- `start` up to its first wait.
unfoldable pub start_begin : ℕ → Service → Service
start_begin now s = record s {
  stopped = false;
  last_event_time = now;
  disconnected_relay_count = 0;
  published_since_check = 0;
  seen_since_check = 0;
  echo_miss_streak = 0;
  last_restart_at = 0;
}

-- `stop`
abbrev pub urls_of_rooms : Dict Room → List String
urls_of_rooms [] = []
urls_of_rooms ((url, _) ∷ rooms) = url ∷ urls_of_rooms rooms

unfoldable pub stop : Service → Service
stop s = record s {
  timers = false;
  demand_timer = false;
  rooms = [];
  stopped = true;
  nostr_sub = none;
  network_sub = none;
  closed_rooms = urls_of_rooms s.rooms ++ s.closed_rooms;
}
