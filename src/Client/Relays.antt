-- ===== src/Client/Relays.antt =====
-- packages/shared/src/nostr/relay-utils.ts and services/relay.service.ts: the relay lists. `takes_url` says
-- whether the URL parser takes an address; the lists of AppConfig are the record `RelayDefaults`, and
-- `merge_defaults` the switch NOSTR_RELAYS_DISABLE_DEFAULTS. What is logged is left out.
use livelier.Base.{
  String, Bool, false, not, ◌&&◌, ◌||◌, ◌≡◌, Option, none, some, List, [], ◌∷◌, ◌++◌, keep, eqb,
  length, ltb, if◌then◌else◌, ◌==◌,
}
use Prim.Native.Char.{code}
use livelier.Base.Keys.{mem, dedupe, mem-keep}
use livelier.Base.Text.{cat, codes, begins}
use livelier.Client.Replaceable.{Event, item}

pub record RelayList : Type 0 where
  pub read : List String
  pub write : List String

unfoldable pub is_websocket_url : String → Bool
unfolding begins codes
is_websocket_url url = begins (codes "wss://") (codes url) || begins (codes "ws://") (codes url)

-- `url.replace(/\/+$/, '')`
unfoldable pub strip_slashes : String → String
strip_slashes String.[] = ""
strip_slashes (String.◌∷◌ c s) =
    let rest = strip_slashes s in if eqb (code c) 47 && rest == "" then "" else String.◌∷◌ c rest

-- The url of a tag `["r", url, type]`, and its type.
unfoldable pub is_r_tag : List String → Bool
is_r_tag [] = false
is_r_tag (name ∷ _) = name == "r"

unfoldable pub add_relay : Option String → String → RelayList → RelayList
add_relay none url list = record { read = list.read ++ url ∷ []; write = list.write ++ url ∷ [] }
add_relay (some type) url list =
    if type == "write"
    then record list { write = list.write ++ url ∷ [] }
    else if type == "read"
    then record list { read = list.read ++ url ∷ [] }
    else record { read = list.read ++ url ∷ []; write = list.write ++ url ∷ [] }

module _ (takes_url : String → Bool) where
  unfoldable pub normalize_url : String → Option String
  unfolding is_websocket_url strip_slashes
  normalize_url url =
      let full = strip_slashes (if is_websocket_url url then url else cat "wss://" url) in
      if takes_url full then some full else none

  unfoldable pub add_normalized : Option String → Option String → RelayList → RelayList
  unfolding add_relay
  add_normalized type none list = list
  add_normalized type (some url) list = if url == "" then list else add_relay type url list

  -- The round of the loop for one tag.
  unfoldable pub add_tag : Option String → Option String → RelayList → RelayList
  unfolding add_normalized normalize_url is_websocket_url
  add_tag type none list = list
  add_tag type (some url) list =
      if not (url == "") && is_websocket_url url
      then add_normalized type (normalize_url url) list
      else list

  unfoldable pub add_tags : List (List String) → RelayList → RelayList
  unfolding add_tag is_r_tag item
  add_tags [] list = list
  add_tags (tag ∷ tags) list =
      add_tags tags (if is_r_tag tag then add_tag (item 2 tag) (item 1 tag) list else list)

  unfoldable pub get_relay_list_from_relay_list_event : Option Event → Option RelayList
  unfolding add_tags
  get_relay_list_from_relay_list_event none = none
  get_relay_list_from_relay_list_event (some event) =
      some (add_tags event.tags record { read = []; write = [] })

pub record RelayDefaults : Type 0 where
  pub default_read_relays : List String
  pub default_write_relays : List String
  pub profile_relays : List String

-- `userRelays?.read`, empty where there are none.
unfoldable pub given_read : Option RelayList → List String
given_read none = []
given_read (some list) = list.read

unfoldable pub given_write : Option RelayList → List String
given_write none = []
given_write (some list) = list.write

module _ (defaults : RelayDefaults) where
  unfoldable pub get_read_relays : Bool → Option RelayList → List String
  unfolding given_read dedupe
  get_read_relays merge_defaults user_relays =
      if ltb 0 (length (given_read user_relays))
      then (if merge_defaults
          then dedupe (given_read user_relays ++ defaults.default_read_relays)
          else given_read user_relays)
      else defaults.default_read_relays

  unfoldable pub get_write_relays : Option RelayList → List String
  unfolding given_write
  get_write_relays user_relays =
      if ltb 0 (length (given_write user_relays))
      then given_write user_relays
      else defaults.default_write_relays

  unfoldable pub get_profile_fallback_relays : Bool → Option RelayList → List String
  unfolding get_read_relays mem
  get_profile_fallback_relays merge_defaults user_relays =
      keep (λ url. not (mem url defaults.profile_relays))
        (get_read_relays merge_defaults user_relays)

  -- The second tier of a profile lookup asks each read relay that the first one does not.
  pub get_profile_fallback_relays-mem :
      (merge_defaults : Bool) (user_relays : Option RelayList) (url : String)
      → mem url (get_profile_fallback_relays merge_defaults user_relays) ≡ (
          not (mem url defaults.profile_relays)
          && mem url (get_read_relays merge_defaults user_relays))
  unfolding get_profile_fallback_relays
  get_profile_fallback_relays-mem merge_defaults user_relays url =
      mem-keep (λ u. not (mem u defaults.profile_relays)) url
        (get_read_relays merge_defaults user_relays)
