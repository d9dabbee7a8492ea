-- ===== src/Chat/Tests.antt =====
-- The chat bridge on concrete runs.
use livelier.Base.{String, Bool, true, false, ◌≡◌, refl, none, some, [], ◌∷◌, All}
use livelier.Base.Dict.{lookup, insert}
use livelier.Discovery.Store.{InstanceRow, Status, Origin}
use livelier.Chat.Relays.{RelayFlagConfig}
use livelier.Chat.State.{Service, ChatServiceConfig, SourceChatMessage, Room, Event, Delivery}
use livelier.Chat.Source.{handle_source_chat}
use livelier.Chat.Rooms.{
  new_room, refresh_rooms, wanted_rooms, open_rooms, open_room, start_listener, close_unwanted,
  stop,
}
use livelier.Chat.Firehose.{ensure_nostr_sub, ensure_network_sub}
use livelier.Chat.System.{
  System, Reach, boot, create, with_service, close_firehose, refreshes, chats, loses_firehose,
  stops, here, next,
}
use livelier.Chat.Rooms.Refresh.{listed, refresh_rooms-lookup}
use livelier.Base.Dict.{has}
use livelier.Chat.System.Echo.{Foreign}
use livelier.Chat.System.NoEcho.{Dropped, Reach-NoEcho}
use livelier.Chat.System.Firehose.{Reach-Quiet}
use livelier.Chat.System.Redial.{Spaced, Reach-Spaced}

abbrev config : ChatServiceConfig
config = record {
  bridge_name = "livelier";
  source_key = "owncast";
  source_name = "Owncast Directory";
  chat_relay_url = "wss://chat";
  profile_write_relays = "wss://chat" ∷ [];
  network_chat_read_relays = [];
  chat_to_nostr = true;
  chat_from_nostr = true;
  chat_expiration_seconds = 86400;
  has_demand = false;
  bridge_pubkey = "bridge";
}

abbrev row : InstanceRow
row = record {
  url = "https://a";
  source = "owncast";
  origin = Origin.discovered;
  pubkey = "host";
  d_tag = "oc-1";
  name = "A";
  stream_title = "";
  description = "";
  image = "";
  nsfw = false;
  starts_at = none;
  status = Status.live;
  hls_url = "";
  last_liveness = none;
  consecutive_failures = 0;
  profile_hash = none;
  viewer_count = none;
  chat_enabled = true;
  discovery_enabled = true;
  first_seen_at = 0;
  last_seen_at = 0;
  last_published_at = none;
  updated_at = 0;
}

abbrev opens : String → Bool
opens _ = true

-- The service opens a room, a chatter of the source speaks, the relay ends the firehose, and it stops.
abbrev refreshed : System
refreshed = with_service (refresh_rooms config opens (row ∷ []) (boot 100000).service) (boot 100000)

abbrev room : Room
room = record (new_room config opens row 0) { listening = true }

abbrev message : SourceChatMessage
message = record { user_id = "u1"; display_name = "Ann"; text = "hello"; emojis = [] }

abbrev spoken : System
spoken =
    with_service (handle_source_chat config refreshed.clock "key1" message room refreshed.service)
      refreshed

abbrev redialled : System
redialled = close_firehose config 1 spoken

abbrev stopped : System
stopped = with_service (stop redialled.service) redialled

run_to_spoken : Reach config (boot 100000) spoken
unfolding boot create refresh_rooms wanted_rooms open_rooms open_room start_listener close_unwanted
    insert lookup ensure_nostr_sub ensure_network_sub
run_to_spoken = next (next here (refreshes opens (row ∷ []))) (chats "key1" message room refl)

run_to_redialled : Reach config (boot 100000) redialled
run_to_redialled = next run_to_spoken (loses_firehose 1)

run_to_stopped : Reach config (boot 100000) stopped
run_to_stopped = next run_to_redialled stops

Reach-NoEcho_example :
    All (λ m. Foreign "livelier" m.event) spoken.service.sent
    × All
        (λ p. (event : Event) → event.pubkey ≡ p.author → Dropped config spoken.service event)
        spoken.service.published
Reach-NoEcho_example = Reach-NoEcho config 100000 spoken run_to_spoken

Reach-Spaced_example : Spaced redialled.redials
Reach-Spaced_example = Reach-Spaced config 100000 redialled run_to_redialled

Reach-Quiet_example : (stopped.service.nostr_sub ≡ none) × (stopped.service.network_sub ≡ none)
unfolding stop
Reach-Quiet_example = Reach-Quiet config 100000 stopped run_to_stopped refl

abbrev said : Delivery
said = record {
  serial = 0;
  url = "https://a";
  event = record {
    pubkey = "p1";
    kind = 1311;
    tags = ("a" ∷ "30311:bridge:oc-1" ∷ []) ∷ [];
    content = "hi";
  };
}

abbrev repeated : Event
repeated = record { pubkey = "p1"; kind = 1311; tags = []; content = "hi" }

abbrev relays : RelayFlagConfig
relays = record {
  chat_relay_url = "wss://chat";
  network_profile_publish_enabled = true;
  network_chat_read_enabled = true;
  network_profile_write_relays = "wss://chat" ∷ "wss://p" ∷ [];
  network_chat_read_relays = "wss://chat" ∷ "wss://n" ∷ [];
}

refresh_rooms-lookup_example :
    (listed config opens "https://a" (row ∷ []) ≡ false
      → lookup "https://a" (refresh_rooms config opens (row ∷ []) refreshed.service).rooms ≡ none)
    × (listed config opens "https://a" (row ∷ []) ≡ true
        → has "https://a" refreshed.service.rooms ≡ true
        → lookup "https://a" (refresh_rooms config opens (row ∷ []) refreshed.service).rooms
          ≡ lookup "https://a" refreshed.service.rooms)
    × (((v : String) → opens v ≡ true)
        → listed config opens "https://a" (row ∷ []) ≡ true
        → has "https://a" (refresh_rooms config opens (row ∷ []) refreshed.service).rooms ≡ true)
refresh_rooms-lookup_example =
    refresh_rooms-lookup config opens (row ∷ []) refreshed.service "https://a"

abbrev deaf : Service
deaf = record (create 100000) { nostr_sub = some 0; subscriptions = 1; published_since_check = 2 }
