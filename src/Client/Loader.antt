-- ===== src/Client/Loader.antt =====
-- client.service.ts: ReplaceableEventLoader, the loads of one batch and the ledger of its misses. The
-- queries of the two tiers are parameters: from the filters and the test for completeness to the
-- events with the number of relays that reached EOSE, or `none` where they threw.
pub mod Laws
use livelier.Base.{
  ℕ, ◌+◌, String, Bool, true, false, not, ◌&&◌, Option, none, some, or_else, is_some, List, [], ◌∷◌,
  ◌++◌, map, length, eqb, ltb, keep, if◌then◌else◌,
}
use livelier.Base.Dict.{Dict, lookup, erase}
use livelier.Profiles.Backoff.{FailedProfileFetch, record_failed_profile_fetch}
use livelier.Client.Replaceable.{
  Event, ReplaceableEventRequest, Filter, NewestMaps, coordinate, to_key, resolve_request,
  build_newest_maps, completion_predicate, build_batch_filters,
}
use livelier.Client.Replaceable.Keys.{parse_key}

pub record QueryResult : Type 0 where
  pub events : List Event
  pub eose_count : ℕ

abbrev pub QueryFn : Type 0
QueryFn = List Filter → (List Event → Bool) → Option QueryResult

-- The keys of a batch with what `parseKey` makes of each; a key of `toKey` always parses.
unfoldable pub parse_keys : List String → List (String × ReplaceableEventRequest)
unfolding parse_key
parse_keys [] = []
parse_keys (key ∷ keys) = elim (parse_key key) [
  | none ↦ parse_keys keys
  | some r ↦ (key, r) ∷ parse_keys keys
]

abbrev pub Requests : Type 0
Requests = List (String × ReplaceableEventRequest)

-- `resolveRequest(keys[i], requests[i], maps) === undefined`
unfoldable pub is_unresolved : NewestMaps → String × ReplaceableEventRequest → Bool
unfolding resolve_request
is_unresolved maps (key, r) = not (is_some (resolve_request key r maps))

unfoldable pub ask : QueryFn → Requests → Option QueryResult
unfolding build_batch_filters completion_predicate
ask query requests =
    query (build_batch_filters (map (λ e. e.1) requests)) (completion_predicate requests)

unfoldable pub join_results : QueryResult → Option QueryResult → Option QueryResult
join_results primary none = none
join_results primary (some fallback) = some record {
  events = primary.events ++ fallback.events;
  eose_count = primary.eose_count + fallback.eose_count;
}

-- The second tier, for what the first one missed.
unfoldable pub ask_fallback : Option QueryFn → Requests → QueryResult → Option QueryResult
unfolding ask is_unresolved join_results build_newest_maps
ask_fallback none requests primary = some primary
ask_fallback (some fallback) requests primary =
    let unresolved = keep (is_unresolved (build_newest_maps primary.events)) requests in
    if ltb 0 (length unresolved)
    then join_results primary (ask fallback unresolved)
    else some primary

unfoldable pub ask_tiers : QueryFn → Option QueryFn → Requests → Option QueryResult
unfolding ask_fallback ask
ask_tiers query fallback requests = elim (ask query requests) [
  | none ↦ none
  | some primary ↦ ask_fallback fallback requests primary
]

-- `recordOutcome`
unfoldable pub record_outcome :
    ℕ → String → ℕ → Option Event → ℕ → Dict FailedProfileFetch → Dict FailedProfileFetch
unfolding record_failed_profile_fetch
record_outcome now key kind resolved eose_count ledger =
    if eqb kind 0
    then ledger
    else if is_some resolved
    then erase key ledger
    else if ltb 0 eose_count
    then record_failed_profile_fetch ledger key now
    else ledger

unfoldable pub record_outcomes :
    ℕ → Requests → NewestMaps → ℕ → Dict FailedProfileFetch → Dict FailedProfileFetch
unfolding record_outcome resolve_request
record_outcomes now [] maps eose_count ledger = ledger
record_outcomes now ((key, r) ∷ rest) maps eose_count ledger =
    record_outcomes now rest maps eose_count
      (record_outcome now key r.kind (resolve_request key r maps) eose_count ledger)

unfoldable pub resolve_all : Requests → NewestMaps → List (Option Event)
unfolding resolve_request
resolve_all [] maps = []
resolve_all ((key, r) ∷ rest) maps = resolve_request key r maps ∷ resolve_all rest maps

-- `new Array(keys.length).fill(undefined)`
unfoldable pub no_results : Requests → List (Option Event)
no_results [] = []
no_results (_ ∷ rest) = none ∷ no_results rest

-- The end of `loadViaBigRelays`, on all that the tiers gave, and its `catch`.
unfoldable pub settle_batch :
    ℕ
    → Requests
    → Dict FailedProfileFetch
    → Option QueryResult
    → List (Option Event) × Dict FailedProfileFetch
unfolding resolve_all record_outcomes build_newest_maps no_results
settle_batch now requests ledger none = (no_results requests, ledger)
settle_batch now requests ledger (some all) =
    let maps = build_newest_maps all.events in
    (resolve_all requests maps, record_outcomes now requests maps all.eose_count ledger)

-- `loadViaBigRelays`, on the requests of a batch: the results, and the ledger afterwards.
unfoldable pub load_via_big_relays :
    ℕ
    → QueryFn
    → Option QueryFn
    → Requests
    → Dict FailedProfileFetch
    → List (Option Event) × Dict FailedProfileFetch
unfolding ask_tiers settle_batch
load_via_big_relays now query fallback requests ledger =
    settle_batch now requests ledger (ask_tiers query fallback requests)

-- `batchLoad`
unfoldable pub batch_load :
    ℕ
    → QueryFn
    → Option QueryFn
    → List String
    → Dict FailedProfileFetch
    → List (Option Event) × Dict FailedProfileFetch
unfolding parse_keys load_via_big_relays
batch_load now query fallback keys = load_via_big_relays now query fallback (parse_keys keys)

-- The guard of `load`: the key is asked for, unless it is in the cooldown of a miss.
unfoldable pub is_asked : ℕ → ReplaceableEventRequest → Dict FailedProfileFetch → Bool
unfolding to_key
is_asked now r ledger = elim (lookup (to_key r) ledger) [
  | none ↦ true
  | some miss ↦ not (ltb now miss.next_retry_at)
]

-- `clear` and `prime` on the ledger; what they do to the cache is `delete` and `set` of its LRUCache.
unfoldable pub clear_ledger :
    ReplaceableEventRequest → Dict FailedProfileFetch → Dict FailedProfileFetch
unfolding to_key
clear_ledger r = erase (to_key r)

unfoldable pub prime_ledger : Event → Dict FailedProfileFetch → Dict FailedProfileFetch
unfolding coordinate
prime_ledger e = erase (coordinate e)
