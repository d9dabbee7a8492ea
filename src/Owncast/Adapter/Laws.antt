-- ===== src/Owncast/Adapter/Laws.antt =====
-- adapter.ts: the live set that the engine gets, and the emoji that a message is rendered with.
use livelier.Base.{
  ℕ, ◌+◌, ◌<◌, String, Bool, false, ◌≡◌, refl, Option, none, some, List, [], ◌∷◌, map, arith,
  eq_refl, ap,
}
use livelier.Base.Dict.{Dict, lookup, lookup-insert}
use livelier.Base.Keys.{mem, Distinct}
use livelier.Discovery.Engine.State.{DiscoveredLive}
use livelier.Owncast.Directory.{DirectoryInstance, DirectorySection, parse_directory}
use livelier.Owncast.Directory.Laws.{key_of, first_listing, parse_directory-first}
use livelier.Owncast.Directory.Shape.{parse_directory-Distinct}
use livelier.Owncast.Adapter.{
  to_discovered_live, fetch_live, CachedEmoji, emoji_cache_ttl_ms, emoji_map, is_fresh, kept_map,
  store_emoji, get_instance_emoji,
}

-- An emoji list that was fetched is what each message of the next ten minutes is rendered with, whatever
-- the instance would answer.
pub get_instance_emoji-kept :
    (resolve : String → String → Option String) (now answered later after : ℕ) (url : String)
    (es : List (Option String)) (ask : Option (List (Option String))) (cache : Dict CachedEmoji)
    → is_fresh resolve now (lookup url cache) ≡ false
    → later < answered + emoji_cache_ttl_ms
    → (get_instance_emoji resolve later after url ask
        (get_instance_emoji resolve now answered url (some es) cache).1).0
      ≡ some (emoji_map resolve url es [])
unfolding get_instance_emoji is_fresh kept_map store_emoji
get_instance_emoji-kept resolve now answered later after url es ask cache stale soon = rw (stale) (
    rw (lookup-insert url url record { emoji = emoji_map resolve url es []; at = answered } cache)
      (ground (arith, eq_refl url, soon)))

module _ (is_web_url : String → Bool) (normalize_instance_url : String → String)
    (date_parse : String → Option ℕ) where
  abbrev pub live_keys : List DiscoveredLive → List String
  live_keys live = map (λ (i : DiscoveredLive). normalize_instance_url i.url) live

  live_keys-map :
      (is : List DirectoryInstance)
      → live_keys (map (to_discovered_live date_parse) is)
        ≡ map (key_of is_web_url normalize_instance_url) is
  unfolding to_discovered_live
  live_keys-map [] = refl
  live_keys-map (i ∷ is) = ap (◌∷◌ (normalize_instance_url i.url)) (live_keys-map is)

  -- The live set that the engine gets names no instance twice, and it names exactly those whose first
  -- valid entry in the directory stands in an online section.
  pub fetch_live-first :
      (sections : List DirectorySection) (now : ℕ) (k : String)
      → Distinct
          (live_keys (fetch_live is_web_url normalize_instance_url date_parse sections now).live)
        × (mem k (
              live_keys (fetch_live is_web_url normalize_instance_url date_parse sections now).live)
            ≡ elim (first_listing is_web_url normalize_instance_url k sections) [
              | none ↦ false
              | some e ↦ e.0
            ])
  unfolding fetch_live
  fetch_live-first sections now k =
      let live = (parse_directory is_web_url normalize_instance_url sections now).live in
      rw (live_keys-map live) (
        (parse_directory-Distinct is_web_url normalize_instance_url sections now).0,
        (parse_directory-first is_web_url normalize_instance_url sections now k).1,
      )
