-- ===== src/Owncast/Adapter.antt =====
-- packages/bridge/src/sources/owncast/adapter.ts: the discovery half of the adapter, and the emoji of an
-- instance. `date_parse` is Date.parse, `none` for NaN, of dates since 1970; `resolve` is `new URL`, and
-- `ask` the request for the emoji, `none` where it throws or is not ok, with a text or nothing per entry.
pub mod Laws
use livelier.Base.{
  ℕ, ◌+◌, ◌-◌, ◌*◌, ◌/◌, String, Bool, true, false, not, ◌&&◌, ◌||◌, Option, none, some, List, [],
  ◌∷◌, ◌++◌, map, ltb, ◌==◌, if◌then◌else◌,
}
use livelier.Base.Dict.{Dict, lookup, insert}
use livelier.Base.Text.{cat, codes, begins}
use livelier.Discovery.Engine.State.{DiscoveredLive, DiscoveryResult}
use livelier.Owncast.Directory.{
  DirectoryInstance, DirectoryTag, DirectorySection, ParsedDirectory, parse_directory,
}

abbrev pub emoji_cache_ttl_ms : ℕ
emoji_cache_ttl_ms = 600000

unfoldable pub seconds : Option ℕ → Option ℕ
seconds none = none
seconds (some ms) = some (ms / 1000)

unfoldable pub parse_streaming_since : (String → Option ℕ) → String → Option ℕ
unfolding seconds
parse_streaming_since date_parse iso = if iso == "" then none else seconds (date_parse iso)

unfoldable pub picture_url : String → String → String
unfolding begins codes
picture_url instance_url logo =
    if logo == ""
    then cat instance_url "/logo"
    else if begins (codes "http://") (codes logo) || begins (codes "https://") (codes logo)
    then logo
    else cat instance_url (cat (if begins (codes "/") (codes logo) then "" else "/") logo)

unfoldable pub hls_url_for : String → String
hls_url_for instance_url = cat instance_url "/hls/stream.m3u8"

-- `tags.map((t) => t.slug).filter(Boolean)`
unfoldable pub slugs : List DirectoryTag → List String
slugs [] = []
slugs (t ∷ ts) = let rest = slugs ts in if t.slug == "" then rest else t.slug ∷ rest

unfoldable pub to_discovered_live : (String → Option ℕ) → DirectoryInstance → DiscoveredLive
unfolding picture_url hls_url_for parse_streaming_since slugs
to_discovered_live date_parse i = record {
  url = i.url;
  name = i.name;
  stream_title = i.stream_title;
  description = i.description;
  picture = picture_url i.url i.logo;
  image = cat i.url "/thumbnail.jpg";
  nsfw = i.nsfw;
  starts_at = parse_streaming_since date_parse i.streaming_since;
  stream_url = hls_url_for i.url;
  tags = slugs i.tags;
}

-- `fetchLive`, on the sections that the directory answered with.
unfoldable pub fetch_live :
    (String → Bool)
    → (String → String)
    → (String → Option ℕ)
    → List DirectorySection
    → ℕ
    → DiscoveryResult
unfolding parse_directory to_discovered_live
fetch_live is_web_url normalize_instance_url date_parse sections now =
    let parsed = parse_directory is_web_url normalize_instance_url sections now in
    record {
      live = map (to_discovered_live date_parse) parsed.live;
      schema_version = parsed.schema_version;
    }

pub record CachedEmoji : Type 0 where
  pub emoji : Dict String
  pub at : ℕ

module _ (resolve : String → String → Option String) where
  unfoldable pub add_emoji : String → Option String → Option String → Dict String → Dict String
  add_emoji url none href m = m
  add_emoji url (some path) none m = m
  add_emoji url (some path) (some href) m = insert href path m

  unfoldable pub resolved_at : String → Option String → Option String
  resolved_at url none = none
  resolved_at url (some path) = resolve path url

  -- The map from the absolute address of each emoji to its path.
  unfoldable pub emoji_map : String → List (Option String) → Dict String → Dict String
  unfolding add_emoji resolved_at
  emoji_map url [] m = m
  emoji_map url (e ∷ es) m = emoji_map url es (add_emoji url e (resolved_at url e) m)

  unfoldable pub kept_map : Option CachedEmoji → Option (Dict String)
  kept_map none = none
  kept_map (some c) = some c.emoji

  unfoldable pub is_fresh : ℕ → Option CachedEmoji → Bool
  is_fresh now none = false
  is_fresh now (some c) = ltb (now - c.at) emoji_cache_ttl_ms

  unfoldable pub store_emoji :
      ℕ
      → String
      → Option (List (Option String))
      → Dict CachedEmoji
      → Option (Dict String) × Dict CachedEmoji
  unfolding emoji_map kept_map
  store_emoji now url none cache = (kept_map (lookup url cache), cache)
  store_emoji now url (some es) cache =
      let m = emoji_map url es [] in (some m, insert url record { emoji = m; at = now } cache)

  -- `getInstanceEmoji`: the request is made only where the entry is not fresh.
  unfoldable pub get_instance_emoji :
      ℕ
      → ℕ
      → String
      → Option (List (Option String))
      → Dict CachedEmoji
      → Option (Dict String) × Dict CachedEmoji
  unfolding is_fresh kept_map store_emoji
  get_instance_emoji now answered url ask cache =
      if is_fresh now (lookup url cache)
      then (kept_map (lookup url cache), cache)
      else store_emoji answered url ask cache
