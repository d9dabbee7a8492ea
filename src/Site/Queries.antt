-- ===== src/Site/Queries.antt =====
-- packages/site/src/nostr/queries.ts: live events, profiles and chat as the site reads them. The reads of
-- the relays are the parameter `fetch_events`; `json` gives the texts among the members of a content, and
-- `none` where JSON.parse or the look into its result throws. The NIP-11 document is left out.
pub mod Laws
pub mod Newest
use livelier.Base.{
  ℕ, String, Bool, true, false, ◌&&◌, not, Option, none, some, or_else, List, [], ◌∷◌, map, any,
  keep, length, leb, ltb, ◌==◌, if◌then◌else◌,
}
use livelier.Base.Dict.{Dict, lookup, insert}
use livelier.Base.Keys.{mem, dedupe}
use livelier.Base.Text.{cat}
use livelier.Client.Replaceable.{Event, item}
use livelier.Client.Replaceable.Keys.{read_digits}
use livelier.Discovery.Tags.{Tag}

unfoldable pub is_named : String → Tag → Bool
is_named name [] = false
is_named name (key ∷ _) = key == name

-- `event.tags.find((t) => t[0] === name)?.[1]`
unfoldable pub tag : String → List Tag → Option String
unfolding is_named item
tag name [] = none
tag name (t ∷ ts) = if is_named name t then item 1 t else tag name ts

unfoldable pub prepend : Option String → List String → List String
prepend none xs = xs
prepend (some v) xs = v ∷ xs

unfoldable pub tags : String → List Tag → List String
unfolding is_named item prepend
tags name [] = []
tags name (t ∷ ts) =
    let rest = tags name ts in if is_named name t then prepend (item 1 t) rest else rest

-- `Number(s)` of decimal digits, and of any other text, which the model leaves as it is.
pub data Number : Type 0 where
  digits : ℕ → Number
  other : String → Number

unfoldable pub number : String → Number
unfolding read_digits
number s = elim (read_digits s (some 0)) [ none ↦ other s | some n ↦ digits n ]

-- `starts ? Number(starts) : undefined`
unfoldable pub given_number : Option String → Option Number
unfolding number
given_number none = none
given_number (some s) = if s == "" then none else some (number s)

pub record Channel : Type 0 where
  pub event : Event
  pub d_tag : String
  pub title : String
  pub summary : Option String
  pub image : Option String
  pub streaming : Option String
  pub status : String
  pub starts : Option Number
  pub host_pubkey : Option String
  pub proxy_url : Option String
  pub topics : List String
  pub nsfw : Bool

unfoldable pub to_channel : Event → Channel
unfolding tag tags given_number is_named
to_channel event = record {
  event = event;
  d_tag = or_else (tag "d" event.tags) "";
  title = or_else (tag "title" event.tags) "Untitled stream";
  summary = tag "summary" event.tags;
  image = tag "image" event.tags;
  streaming = tag "streaming" event.tags;
  status = or_else (tag "status" event.tags) "unknown";
  starts = given_number (tag "starts" event.tags);
  host_pubkey = tag "p" event.tags;
  proxy_url = tag "proxy" event.tags;
  topics = tags "t" event.tags;
  nsfw = any (is_named "content-warning") event.tags;
}

pub record ChannelProfile : Type 0 where
  pub name : Option String
  pub about : Option String
  pub picture : Option String
  pub website : Option String
  pub created_at : ℕ

-- `str`: a text that is not empty.
unfoldable pub str : Option String → Option String
str none = none
str (some v) = if v == "" then none else some v

-- `a ?? b`
unfoldable pub either : Option String → Option String → Option String
either none b = b
either (some a) b = some a

pub record ReadResult : Type 0 where
  pub events : List Event
  pub reached : Bool

-- What the queries put into a filter.
pub record SiteFilter : Type 0 where
  pub kinds : List ℕ
  pub authors : Option (List String)
  pub d : Option (List String)
  pub limit : ℕ

pub record SiteConfig : Type 0 where
  pub event_relay : String
  pub chat_relay : String
  pub bridge_name : String

-- `channels.map((c) => c.hostPubkey).filter(Boolean)`
unfoldable pub hosts : List Channel → List String
unfolding str prepend
hosts [] = []
hosts (c ∷ cs) = prepend (str c.host_pubkey) (hosts cs)

unfoldable pub count_bridged_channels : List Channel → ℕ
unfolding hosts dedupe
count_bridged_channels channels = length (dedupe (hosts channels))

unfoldable pub has_tag : String → String → List Tag → Bool
unfolding tag
has_tag name value ts = elim (tag name ts) [ none ↦ false | some v ↦ v == value ]

unfoldable pub bridge_authored : String → List Event → List Event
unfolding has_tag
bridge_authored bridge_name events = keep (λ e. has_tag "client" bridge_name e.tags) events

unfoldable pub room_coordinate : Channel → String
room_coordinate c = cat "30311:" (cat c.event.pubkey (cat ":" c.d_tag))

-- `events.sort((a, b) => b.created_at - a.created_at)`, which keeps the order of equals.
unfoldable pub place_newest : Event → List Event → List Event
place_newest e [] = e ∷ []
place_newest e (f ∷ fs) =
    if leb f.created_at e.created_at then e ∷ f ∷ fs else f ∷ place_newest e fs

unfoldable pub sort_newest : List Event → List Event
unfolding place_newest
sort_newest [] = []
sort_newest (e ∷ es) = place_newest e (sort_newest es)

unfoldable pub first : List Event → Option Event
first [] = none
first (e ∷ _) = some e

unfoldable pub profile_from : Event → Option (Dict String) → Option ChannelProfile
unfolding str either lookup
profile_from event none = none
profile_from event (some parsed) = some record {
  name = either (str (lookup "display_name" parsed)) (str (lookup "name" parsed));
  about = str (lookup "about" parsed);
  picture = str (lookup "picture" parsed);
  website = str (lookup "website" parsed);
  created_at = event.created_at;
}

-- `!existing || existing.createdAt < event.created_at`
unfoldable pub is_later : ℕ → Option ChannelProfile → Bool
is_later at none = true
is_later at (some existing) = ltb existing.created_at at

unfoldable pub keep_profile :
    Event → Option ChannelProfile → Dict ChannelProfile → Dict ChannelProfile
unfolding is_later
keep_profile event none m = m
keep_profile event (some profile) m =
    if is_later event.created_at (lookup event.pubkey m) then insert event.pubkey profile m else m

module _ (json : String → Option (Dict String)) where
  unfoldable pub parse_profile : Event → Option ChannelProfile
  unfolding profile_from
  parse_profile event = profile_from event (json event.content)

  unfoldable pub collect_profiles : List Event → Dict ChannelProfile → Dict ChannelProfile
  unfolding keep_profile parse_profile
  collect_profiles [] m = m
  collect_profiles (e ∷ es) m = collect_profiles es (keep_profile e (parse_profile e) m)

module _ (config : SiteConfig) (fetch_events : List String → SiteFilter → ReadResult) where
  unfoldable pub fetch_channels : ℕ → List Channel × Bool
  unfolding to_channel
  fetch_channels limit =
      let r =
        fetch_events (config.event_relay ∷ [])
          record { kinds = 30311 ∷ []; authors = none; d = none; limit = limit } in
      (map to_channel r.events, r.reached)

  unfoldable pub fetch_channel_profiles :
      (String → Option (Dict String)) → List String → Dict ChannelProfile
  unfolding collect_profiles
  fetch_channel_profiles json [] = []
  fetch_channel_profiles json (p ∷ ps) =
      collect_profiles json
        (fetch_events (config.chat_relay ∷ []) record {
          kinds = 0 ∷ [];
          authors = some (p ∷ ps);
          d = none;
          limit = length (p ∷ ps);
        }).events
        []

  -- `none` where no relay answered.
  unfoldable pub fetch_room_chat_count : String → Option ℕ
  unfolding bridge_authored tags mem
  fetch_room_chat_count coordinate =
      let r =
        fetch_events (config.chat_relay ∷ [])
          record { kinds = 1311 ∷ []; authors = none; d = none; limit = 500 } in
      if r.reached
      then some (
          length (
            keep (λ e. mem coordinate (tags "a" e.tags))
              (bridge_authored config.bridge_name r.events)))
      else none

  unfoldable pub fetch_channel_by_d_tag : String → Option Channel × Bool
  unfolding to_channel sort_newest first
  fetch_channel_by_d_tag d_tag =
      let r =
        fetch_events (config.event_relay ∷ [])
          record { kinds = 30311 ∷ []; authors = none; d = some (d_tag ∷ []); limit = 1 } in
      (
        elim (first (sort_newest r.events)) [ none ↦ none | some e ↦ some (to_channel e) ],
        r.reached,
      )
