-- ===== src/Site/Tests.antt =====
-- The site on concrete events.
use livelier.Base.{ℕ, String, true, ◌≡◌, Option, none, some, List, [], ◌∷◌}
use livelier.Base.Dict.{Dict, lookup}
use livelier.Client.Replaceable.{Event}
use livelier.Discovery.Tags.{
  LiveEventTagParams, LiveEventStatus, ProxyProtocol, build_live_event_tags,
}
use livelier.Site.Queries.{to_channel, ReadResult, SiteConfig, SiteFilter, fetch_channel_profiles}
use livelier.Site.Queries.Laws.{channel_of, to_channel-build_live_event_tags}
use livelier.Site.Queries.Newest.{newest_profile, profile_filter, fetch_channel_profiles-newest}

abbrev shown : LiveEventTagParams
shown = record {
  d_tag = "oc-1";
  metadata = record { title = "Live now"; summary = ""; image = "i"; tags = "music" ∷ "d" ∷ [] };
  streaming_url = "https://a/hls/stream.m3u8";
  host_pubkey = "host";
  status = LiveEventStatus.live;
  starts_timestamp = 1700000000;
  relays = "wss://chat" ∷ [];
  proxy = some record { url = "https://a"; protocol = some ProxyProtocol.web };
  content_warning = "nsfw";
  current_participants = none;
}

abbrev profile_event : ℕ → String → Event
profile_event at content = record {
  id = content;
  pubkey = "host";
  created_at = at;
  kind = 0;
  tags = [];
  content = content;
}

to_channel-build_live_event_tags_example :
    to_channel (record (profile_event 5 "") { tags = build_live_event_tags shown })
    ≡ channel_of shown (record (profile_event 5 "") { tags = build_live_event_tags shown })
to_channel-build_live_event_tags_example =
    to_channel-build_live_event_tags shown (profile_event 5 "")

abbrev reader : String → Option (Dict String)
reader content = some (("name", content) ∷ [])

abbrev site : SiteConfig
site = record { event_relay = "wss://events"; chat_relay = "wss://chat"; bridge_name = "Livelier" }

abbrev answer : List String → SiteFilter → ReadResult
answer relays filter = record {
  events = profile_event 5 "old" ∷ profile_event 9 "new" ∷ profile_event 7 "middle" ∷ [];
  reached = true;
}

fetch_channel_profiles-newest_example :
    lookup "host" (fetch_channel_profiles site answer reader ("host" ∷ []))
    ≡ newest_profile reader "host"
        (answer ("wss://chat" ∷ []) (profile_filter ("host" ∷ []))).events
fetch_channel_profiles-newest_example =
    fetch_channel_profiles-newest reader site answer "host" [] "host"
