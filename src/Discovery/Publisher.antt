-- ===== src/Discovery/Publisher.antt =====
-- packages/bridge/src/core/nostr/live-event.publisher.ts: the events of a discovered instance, each with
-- the relays that it is sent to. A signer is its public key; the signature is the client's.
use livelier.Base.{ℕ, String, Bool, Option, none, some, List, [], ◌∷◌, if◌then◌else◌, ◌==◌}
use livelier.Base.Text.{cat}
use livelier.Discovery.Tags.{Tag, StreamMeta, LiveEventStatus, ProxyProtocol, build_live_event_tags}

pub record BridgedProfileInput : Type 0 where
  pub name : String
  pub description : String
  pub picture : String
  pub website : String
  pub source_name : String

pub record LivePublishInput : Type 0 where
  pub signer : String
  pub host_pubkey : String
  pub d_tag : String
  pub metadata : StreamMeta
  pub streaming_url : String
  pub starts_timestamp : ℕ
  pub status : LiveEventStatus
  pub proxy_url : String
  pub proxy_protocol : ProxyProtocol
  pub relay_url : String
  pub chat_relay_url : Option String
  pub nsfw : Bool
  pub current_participants : Option ℕ

-- The object that the kind-0 content serialises.
pub record ProfileContent : Type 0 where
  pub name : String
  pub display_name : String
  pub about : String
  pub picture : String
  pub website : String

unfoldable pub bridged_profile_content : BridgedProfileInput → ProfileContent
bridged_profile_content input =
    let attribution = cat "Bridged from " (cat input.source_name " by https://livelier.live") in
    record {
      name = input.name;
      display_name = input.name;
      about =
          if input.description == ""
          then attribution
          else cat input.description (cat "\n\n" attribution);
      picture = input.picture;
      website = input.website;
    }

pub data Content : Type 0 where
  text : String → Content
  profile : ProfileContent → Content

-- A signed event on its way to `relays`.
pub record Publication : Type 0 where
  pub author : String
  pub kind : ℕ
  pub content : Content
  pub tags : List Tag
  pub relays : List String

unfoldable pub publish_profile : String → BridgedProfileInput → List String → Publication
unfolding bridged_profile_content
publish_profile signer input relay_urls = record {
  author = signer;
  kind = 0;
  content = profile (bridged_profile_content input);
  tags = [];
  relays = relay_urls;
}

unfoldable pub publish_relay_list : String → String → String → List String → Publication
publish_relay_list signer event_relay_url chat_relay_url relay_urls = record {
  author = signer;
  kind = 10002;
  content = text "";
  tags = ("r" ∷ event_relay_url ∷ "write" ∷ []) ∷ ("r" ∷ chat_relay_url ∷ "read" ∷ []) ∷ [];
  relays = relay_urls;
}

-- `input.chatRelayUrl ?? input.relayUrl`
abbrev pub room_relay : LivePublishInput → Option String → String
room_relay input none = input.relay_url
room_relay input (some url) = url

unfoldable pub publish_live_event : LivePublishInput → Publication
unfolding build_live_event_tags
publish_live_event input = record {
  author = input.signer;
  kind = 30311;
  content = text "";
  tags = build_live_event_tags (record {
    d_tag = input.d_tag;
    metadata = input.metadata;
    streaming_url = input.streaming_url;
    host_pubkey = input.host_pubkey;
    status = input.status;
    starts_timestamp = input.starts_timestamp;
    relays = room_relay input input.chat_relay_url ∷ [];
    proxy = some (record { url = input.proxy_url; protocol = some input.proxy_protocol });
    content_warning = if input.nsfw then "nsfw" else "";
    current_participants = input.current_participants;
  });
  relays = input.relay_url ∷ [];
}

unfoldable pub retract_live_event : String → String → String → Publication
retract_live_event signer d_tag relay_url = record {
  author = signer;
  kind = 5;
  content = text "instance opted out of bridging";
  tags = ("a" ∷ cat "30311:" (cat signer (cat ":" d_tag)) ∷ []) ∷ ("k" ∷ "30311" ∷ []) ∷ [];
  relays = relay_url ∷ [];
}

unfoldable pub blank_profile : String → List String → Publication
blank_profile signer relay_urls = record {
  author = signer;
  kind = 0;
  content = text "{}";
  tags = [];
  relays = relay_urls;
}
