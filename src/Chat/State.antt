-- ===== src/Chat/State.antt =====
-- packages/bridge/src/core/chat/types.ts and the state of ChatBridgeService (chat-bridge.service.ts).
-- A room object is known by a serial number, so that `this.rooms.get(url) === room` is a test of
-- numbers. A room's delivery chain is the room's part of one queue, `pending`.
use livelier.Base.{ℕ, String, Bool, Option, List}
use livelier.Base.Dict.{Dict}
use livelier.Discovery.Tags.{Tag}
use livelier.Discovery.Store.{InstanceRow}

pub record ChatServiceConfig : Type 0 where
  pub bridge_name : String
  pub source_key : String
  pub source_name : String
  pub chat_relay_url : String
  pub profile_write_relays : List String
  pub network_chat_read_relays : List String
  pub chat_to_nostr : Bool
  pub chat_from_nostr : Bool
  pub chat_expiration_seconds : ℕ
  pub has_demand : Bool
  pub bridge_pubkey : String

pub record SourceEmoji : Type 0 where
  pub shortcode : String
  pub image_url : String

-- Missing `emojis` are the empty list.
pub record SourceChatMessage : Type 0 where
  pub user_id : String
  pub display_name : String
  pub text : String
  pub emojis : List SourceEmoji

pub record SourceChatJoin : Type 0 where
  pub user_id : String
  pub display_name : String

pub record Event : Type 0 where
  pub pubkey : String
  pub kind : ℕ
  pub tags : List Tag
  pub content : String

pub record Room : Type 0 where
  pub serial : ℕ
  pub row : InstanceRow
  pub a_tag : String
  pub listening : Bool
  pub chatter_signers : Dict String
  pub profiled_chatters : List String
  pub fingerprints : Dict ℕ

-- The content that `publishChatterIdentity` serialises.
pub record ChatterProfile : Type 0 where
  pub name : String
  pub about : String

pub data Body : Type 0 where
  text : String → Body
  profile : ChatterProfile → Body

-- An event that the gateway signs and sends; `relays` is empty for the gateway's own chat relay.
pub record Outbound : Type 0 where
  pub author : String
  pub kind : ℕ
  pub body : Body
  pub tags : List Tag
  pub relays : List String

-- A link of a room's delivery chain, and a message that reached the source chat.
pub record Delivery : Type 0 where
  pub serial : ℕ
  pub url : String
  pub event : Event

pub record SourceSend : Type 0 where
  pub serial : ℕ
  pub url : String
  pub display_name : String
  pub event : Event

pub record Service : Type 0 where
  pub rooms : Dict Room
  pub next_serial : ℕ
  pub bridged_pubkeys : List String
  pub name_cache : Dict String
  pub nostr_sub : Option ℕ
  pub network_sub : Option ℕ
  pub subscriptions : ℕ
  pub timers : Bool
  pub demand_timer : Bool
  pub local_seen : ℕ
  pub network_seen : ℕ
  pub inbound_delivered : ℕ
  pub outbound_published : ℕ
  pub stopped : Bool
  pub last_event_time : ℕ
  pub disconnected_relay_count : ℕ
  pub published_since_check : ℕ
  pub seen_since_check : ℕ
  pub echo_miss_streak : ℕ
  pub last_restart_at : ℕ
  pub pending : List Delivery
  pub sent : List SourceSend
  pub published : List Outbound
  pub closed_rooms : List String
