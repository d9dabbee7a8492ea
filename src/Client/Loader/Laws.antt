-- ===== src/Client/Loader/Laws.antt =====
-- client.service.ts: what a batch of replaceable events gives back and what it records.
use mathlib.Core.List.{append-nil}
use livelier.Base.{
  ℕ, ◌≤◌, String, true, false, ◌&&◌, ◌≡◌, refl, Option, none, some, or_else, is_some, List, [], ◌∷◌,
  ◌++◌, length, eqb, ltb, keep, if◌then◌else◌, arith, sym, if-cases, ap, ◌∙◌,
}
use livelier.Base.Dict.{Dict, lookup}
use livelier.Profiles.Backoff.{FailedProfileFetch, next_failure}
use livelier.Client.Replaceable.{
  Event, ReplaceableEventRequest, NewestMaps, coordinate, resolve_request, build_newest_maps,
  lacks_d, all_resolve, completion_predicate, is_addressable_kind,
}
use livelier.Client.Replaceable.Newest.{
  newest, newest-append, later-newer, build_newest_maps-newest,
}
use livelier.Client.Loader.{
  QueryResult, QueryFn, Requests, ask, ask_tiers, ask_fallback, join_results, is_unresolved,
}

-- The miss ledger's entry of a key after a batch that asked for it.
abbrev pub settled :
    ℕ → ℕ → Option Event → ℕ → Option FailedProfileFetch → Option FailedProfileFetch
settled now kind resolved eose_count before =
    if eqb kind 0
    then before
    else if is_some resolved
    then none
    else if ltb 0 eose_count
    then some (next_failure before now)
    else before

abbrev pub settled_at :
    ℕ → String → Requests → NewestMaps → ℕ → Option FailedProfileFetch → Option FailedProfileFetch
settled_at now j requests maps eose_count before = elim (lookup j requests) [
  | none ↦ before
  | some r ↦ settled now r.kind (resolve_request j r maps) eose_count before
]

all_resolve-keep :
    (requests : Requests) (maps : NewestMaps)
    → all_resolve requests maps ≡ true
    → length (keep (is_unresolved maps) requests) ≡ 0
unfolding all_resolve is_unresolved
all_resolve-keep [] maps h = refl
all_resolve-keep ((key, r) ∷ rest) maps h = ground (arith, h, all_resolve-keep rest maps)

-- A request that one coordinate answers: it names its `d`, or its kind has none.
abbrev pub IsExact : ReplaceableEventRequest → Type 0
IsExact r = (is_addressable_kind r.kind && lacks_d r.d) ≡ false

resolve_request-newest :
    (key : String) (r : ReplaceableEventRequest) (events : List Event)
    → IsExact r
    → resolve_request key r (build_newest_maps events) ≡ newest coordinate key events
unfolding resolve_request
resolve_request-newest key r events exact =
    ground (arith, exact, (build_newest_maps-newest events key).0)

-- The results of both tiers begin with those of the first.
abbrev Extends : QueryResult → QueryResult → Type 0
Extends primary all =
    (more : List Event) × (all.events ≡ primary.events ++ more)
    × (primary.eose_count ≤ all.eose_count)

Extends-self : (primary all : QueryResult) → some primary ≡ some all → Extends primary all
Extends-self primary all h = (
  [],
  ap (λ o. (or_else o all).events) (sym h) ∙ sym (append-nil primary.events),
  ground (arith, h),
)

Extends-join :
    (primary all : QueryResult) (o : Option QueryResult)
    → join_results primary o ≡ some all
    → Extends primary all
unfolding join_results
Extends-join primary all none h = absurd (ground (arith, h))
Extends-join primary all (some fallback) h =
    (fallback.events, ap (λ o. (or_else o all).events) (sym h), ground (arith, h))

Extends-ask_fallback :
    (fallback : Option QueryFn) (requests : Requests) (primary all : QueryResult)
    → ask_fallback fallback requests primary ≡ some all
    → Extends primary all
unfolding ask_fallback
Extends-ask_fallback none requests primary all h = Extends-self primary all h
Extends-ask_fallback (some fallback) requests primary all h =
    let unresolved = keep (is_unresolved (build_newest_maps primary.events)) requests in
    if-cases (λ o. o ≡ some all → Extends primary all) (ltb 0 (length unresolved))
      (λ _ e. Extends-join primary all (ask fallback unresolved) e)
      (λ _ e. Extends-self primary all e) h

-- What the first tier found for a coordinate is found after the second one, too, or a newer event
-- is.
pub ask_tiers-keeps :
    (query : QueryFn) (fallback : Option QueryFn) (requests : Requests) (primary all : QueryResult)
    (key : String) (r : ReplaceableEventRequest) (e : Event)
    → IsExact r
    → ask query requests ≡ some primary
    → ask_tiers query fallback requests ≡ some all
    → resolve_request key r (build_newest_maps primary.events) ≡ some e
    → (f : Event) × (resolve_request key r (build_newest_maps all.events) ≡ some f)
      × (e.created_at ≤ f.created_at)
unfolding ask_tiers
ask_tiers-keeps query fallback requests primary all key r e exact asked tiers found =
    let (more, split, _) =
      Extends-ask_fallback fallback requests primary all (ground (arith, asked, tiers)) in
    let (f, last, le) =
      later-newer (newest coordinate key primary.events) (newest coordinate key more) e
        (sym (resolve_request-newest key r primary.events exact) ∙ found) in
    (
      f,
      resolve_request-newest key r all.events exact
          ∙ ap (newest coordinate key) split
          ∙ newest-append coordinate key primary.events more
          ∙ last,
      le,
    )

-- The second tier is not asked where the first one answers every request.
pub ask_fallback-resolved :
    (fallback : Option QueryFn) (requests : Requests) (primary : QueryResult)
    → completion_predicate requests primary.events ≡ true
    → ask_fallback fallback requests primary ≡ some primary
unfolding ask_fallback completion_predicate
ask_fallback-resolved none requests primary h = refl
ask_fallback-resolved (some fallback) requests primary h =
    ground (arith, all_resolve-keep requests (build_newest_maps primary.events) h)
