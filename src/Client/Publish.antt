-- ===== src/Client/Publish.antt =====
-- client.service.ts: `getRelayUrls` and `publishEvent`. Which relay accepts the event is a parameter;
-- the caches that a publication writes to are the state.
pub mod Laws
use livelier.Base.{
  ℕ, String, Bool, true, false, ◌&&◌, ◌||◌, Option, none, some, List, [], ◌∷◌, ◌++◌, any, eqb,
  if◌then◌else◌,
}
use livelier.Base.Dict.{Dict, erase}
use livelier.Base.Keys.{dedupe}
use livelier.Profiles.Backoff.{FailedProfileFetch}
use livelier.Client.Lru.{LruCache, set}
use livelier.Client.Replaceable.{Event, coordinate}
use livelier.Client.Loader.{prime_ledger}
use livelier.Client.Verifier.{remember_verified}

-- `RelayList | string[] | null | undefined`
pub data RelayTarget : Type 0 where
  missing : RelayTarget
  urls : List String → RelayTarget
  relay_list : List String → List String → RelayTarget

-- `none` where the source throws.
unfoldable pub get_relay_urls : RelayTarget → Option (List String)
get_relay_urls missing = none
get_relay_urls (urls []) = none
get_relay_urls (urls (x ∷ xs)) = some (x ∷ xs)
get_relay_urls (relay_list read write) = some (read ++ write)

pub record Caches : Type 0 where
  pub event_cache : LruCache Event
  pub replaceable_cache : LruCache Event
  pub miss_ledger : Dict FailedProfileFetch
  pub verified_ids : List String

abbrev pub cacheable_replaceable_kinds : List ℕ
cacheable_replaceable_kinds = 0 ∷ 3 ∷ 10000 ∷ 10002 ∷ 10030 ∷ 30030 ∷ 39089 ∷ []

unfoldable pub is_cacheable : ℕ → Bool
is_cacheable kind = any (λ k. eqb k kind) cacheable_replaceable_kinds

unfoldable pub publish_all : (String → Bool) → List String → Dict Bool
publish_all accepts [] = []
publish_all accepts (url ∷ rest) = (url, accepts url) ∷ publish_all accepts rest

-- `Object.values(results).some(Boolean)`
unfoldable pub some_accepted : Dict Bool → Bool
some_accepted results = any (λ e. e.1) results

-- `replaceableEventLoader.prime(event)`
unfoldable pub prime : ℕ → Event → Caches → Caches
unfolding set coordinate prime_ledger
prime now event c = record c {
  replaceable_cache = set now (coordinate event) event c.replaceable_cache;
  miss_ledger = prime_ledger event c.miss_ledger;
}

-- `publishEvent`: the results for the relays, in the order in which they were named.
unfoldable pub publish_to : ℕ → Event → (String → Bool) → List String → Caches → Dict Bool × Caches
unfolding publish_all some_accepted is_cacheable prime set remember_verified dedupe
publish_to now event accepts relay_urls c =
    let results = publish_all accepts (dedupe relay_urls) in
    let c1 = record c {
      verified_ids = remember_verified event.id c.verified_ids;
      event_cache = set now event.id event c.event_cache;
    } in
    (results, if is_cacheable event.kind && some_accepted results then prime now event c1 else c1)

unfoldable pub publish_event :
    ℕ → Event → (String → Bool) → RelayTarget → Caches → Option (Dict Bool × Caches)
unfolding publish_to get_relay_urls
publish_event now event accepts target c = elim (get_relay_urls target) [
  | none ↦ none
  | some relay_urls ↦ some (publish_to now event accepts relay_urls c)
]
