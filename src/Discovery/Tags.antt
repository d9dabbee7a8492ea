-- ===== src/Discovery/Tags.antt =====
-- packages/shared/src/nostr/live-event-tags.ts: the tags of a kind-30311 live event.
pub mod Laws
use livelier.Base.{
  ℕ, String, Bool, Option, none, some, List, [], ◌∷◌, ◌++◌, map, ◌==◌, if◌then◌else◌, or_else,
}
use livelier.Base.Text.{decimal}

abbrev pub Tag : Type 0
Tag = List String

-- packages/shared/src/streaming/stream-meta.ts
pub record StreamMeta : Type 0 where
  pub title : String
  pub summary : String
  pub image : String
  pub tags : List String

pub data LiveEventStatus : Type 0 where
  planned live ended : LiveEventStatus

abbrev pub status_text : LiveEventStatus → String
status_text planned = "planned"
status_text live = "live"
status_text ended = "ended"

pub data ProxyProtocol : Type 0 where
  activitypub atproto rss web : ProxyProtocol

abbrev pub protocol_text : ProxyProtocol → String
protocol_text activitypub = "activitypub"
protocol_text atproto = "atproto"
protocol_text rss = "rss"
protocol_text web = "web"

pub record LiveEventProxy : Type 0 where
  pub url : String
  pub protocol : Option ProxyProtocol

-- A missing `relays` is the empty list, and a missing `contentWarning` the empty text: the code treats
-- them alike.
pub record LiveEventTagParams : Type 0 where
  pub d_tag : String
  pub metadata : StreamMeta
  pub streaming_url : String
  pub host_pubkey : String
  pub status : LiveEventStatus
  pub starts_timestamp : ℕ
  pub relays : List String
  pub proxy : Option LiveEventProxy
  pub content_warning : String
  pub current_participants : Option ℕ

abbrev pub relays_tag : List String → List Tag
relays_tag [] = []
relays_tag (r ∷ rs) = ("relays" ∷ r ∷ rs) ∷ []

abbrev pub proxy_tag : Option LiveEventProxy → List Tag
proxy_tag none = []
proxy_tag (some p) = ("proxy" ∷ p.url ∷ protocol_text (or_else p.protocol web) ∷ []) ∷ []

abbrev pub warning_tag : String → List Tag
warning_tag reason = if reason == "" then [] else ("content-warning" ∷ reason ∷ []) ∷ []

abbrev pub participants_tag : Option ℕ → List Tag
participants_tag none = []
participants_tag (some n) = ("current_participants" ∷ decimal n ∷ []) ∷ []

unfoldable pub build_live_event_tags : LiveEventTagParams → List Tag
build_live_event_tags p =
    ("d" ∷ p.d_tag ∷ [])
    ∷ ("title" ∷ p.metadata.title ∷ [])
    ∷ ("summary" ∷ p.metadata.summary ∷ [])
    ∷ ("image" ∷ p.metadata.image ∷ [])
    ∷ ("streaming" ∷ p.streaming_url ∷ [])
    ∷ ("status" ∷ status_text p.status ∷ [])
    ∷ ("starts" ∷ decimal p.starts_timestamp ∷ [])
    ∷ ("p" ∷ p.host_pubkey ∷ "" ∷ "host" ∷ [])
    ∷ (map (λ t. "t" ∷ t ∷ []) p.metadata.tags
        ++ (relays_tag p.relays
            ++ (proxy_tag p.proxy
                ++ (warning_tag p.content_warning ++ participants_tag p.current_participants))))
