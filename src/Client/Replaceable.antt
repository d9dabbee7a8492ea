-- ===== src/Client/Replaceable.antt =====
-- client.service.ts: the static functions of ReplaceableEventLoader on events, keys and filters.
pub mod Newest
pub mod Filters
pub mod Keys
use livelier.Base.{
  ℕ, ◌*◌, max, String, Bool, true, false, ◌&&◌, not, Option, none, some, or_else, is_some, List, [],
  ◌∷◌, map, length, ltb, leb, eqb, zero, suc, ◌==◌, if◌then◌else◌,
}
use livelier.Base.Dict.{Dict, lookup, insert}
use livelier.Base.Keys.{add}
use livelier.Base.Text.{cat, decimal}

-- What the functions read of an event.
pub record Event : Type 0 where
  pub id : String
  pub pubkey : String
  pub created_at : ℕ
  pub kind : ℕ
  pub tags : List (List String)
  pub content : String

pub record ReplaceableEventRequest : Type 0 where
  pub pubkey : String
  pub kind : ℕ
  pub d : Option String

unfoldable pub is_addressable_kind : ℕ → Bool
is_addressable_kind kind = leb 30000 kind && ltb kind 40000

-- `tag[i]`
unfoldable pub item : ℕ → List String → Option String
item i [] = none
item zero (x ∷ xs) = some x
item (suc i) (x ∷ xs) = item i xs

-- `tag[0] === 'd'`
unfoldable pub is_d_tag : List String → Bool
is_d_tag [] = false
is_d_tag (x ∷ _) = x == "d"

-- `event.tags.find((tag) => tag[0] === 'd')?.[1]`
unfoldable pub d_tag : List (List String) → Option String
unfolding is_d_tag item
d_tag [] = none
d_tag (tag ∷ tags) = if is_d_tag tag then item 1 tag else d_tag tags

unfoldable pub key_of : ℕ → String → String → String
key_of kind pubkey d = cat (decimal kind) (cat ":" (cat pubkey (cat ":" d)))

unfoldable pub to_key : ReplaceableEventRequest → String
unfolding key_of
to_key r = key_of r.kind r.pubkey (or_else r.d "")

-- The key of `prime`, and the coordinate of `buildNewestMaps`.
unfoldable pub coordinate : Event → String
unfolding key_of d_tag is_addressable_kind
coordinate e =
    key_of e.kind e.pubkey (if is_addressable_kind e.kind then or_else (d_tag e.tags) "" else "")

unfoldable pub kind_pubkey : ℕ → String → String
kind_pubkey kind pubkey = cat (decimal kind) (cat ":" pubkey)

-- `!existing || existing.created_at < event.created_at`
unfoldable pub is_newer : Event → Option Event → Bool
is_newer event none = true
is_newer event (some existing) = ltb existing.created_at event.created_at

unfoldable pub keep_newest : String → Event → Dict Event → Dict Event
unfolding is_newer
keep_newest key event m = if is_newer event (lookup key m) then insert key event m else m

pub record NewestMaps : Type 0 where
  pub newest_by_coordinate : Dict Event
  pub newest_by_kind_pubkey : Dict Event

-- The round of `buildNewestMaps` for one event.
unfoldable pub add_event : Event → NewestMaps → NewestMaps
unfolding keep_newest coordinate kind_pubkey
add_event event m = record {
  newest_by_coordinate = keep_newest (coordinate event) event m.newest_by_coordinate;
  newest_by_kind_pubkey =
      keep_newest (kind_pubkey event.kind event.pubkey) event m.newest_by_kind_pubkey;
}

unfoldable pub add_events : List Event → NewestMaps → NewestMaps
unfolding add_event
add_events [] m = m
add_events (e ∷ es) m = add_events es (add_event e m)

unfoldable pub build_newest_maps : List Event → NewestMaps
unfolding add_events
build_newest_maps events =
    add_events events record { newest_by_coordinate = []; newest_by_kind_pubkey = [] }

-- `!d`
unfoldable pub lacks_d : Option String → Bool
lacks_d none = true
lacks_d (some d) = d == ""

-- `exact ?? …`
unfoldable pub resolve_request : String → ReplaceableEventRequest → NewestMaps → Option Event
unfolding lacks_d is_addressable_kind kind_pubkey
resolve_request key r maps = elim (lookup key maps.newest_by_coordinate) [
  | some exact ↦ some exact
  | none ↦
      if is_addressable_kind r.kind && lacks_d r.d
      then lookup (kind_pubkey r.kind r.pubkey) maps.newest_by_kind_pubkey
      else none
]

-- `makeCompletionPredicate`: every request resolves.
unfoldable pub all_resolve : List (String × ReplaceableEventRequest) → NewestMaps → Bool
unfolding resolve_request
all_resolve [] maps = true
all_resolve ((key, r) ∷ rest) maps = is_some (resolve_request key r maps) && all_resolve rest maps

unfoldable pub completion_predicate : List (String × ReplaceableEventRequest) → List Event → Bool
unfolding all_resolve build_newest_maps
completion_predicate requests events = all_resolve requests (build_newest_maps events)

-- The group of one kind in `buildBatchFilters`.
pub record Group : Type 0 where
  pub kind : ℕ
  pub authors : List String
  pub ds : List String

-- `if (isAddressableKind(kind) && d) group.ds.add(d)`
unfoldable pub add_d : ℕ → Option String → List String → List String
unfolding is_addressable_kind
add_d kind none ds = ds
add_d kind (some d) ds = if is_addressable_kind kind && not (d == "") then add d ds else ds

unfoldable pub join_group : ReplaceableEventRequest → Group → Group
unfolding add_d
join_group r g = record g { authors = add r.pubkey g.authors; ds = add_d r.kind r.d g.ds }

unfoldable pub add_request : ReplaceableEventRequest → List Group → List Group
unfolding join_group
add_request r [] = join_group r record { kind = r.kind; authors = []; ds = [] } ∷ []
add_request r (g ∷ gs) = if eqb g.kind r.kind then join_group r g ∷ gs else g ∷ add_request r gs

unfoldable pub group_requests : List ReplaceableEventRequest → List Group → List Group
unfolding add_request
group_requests [] gs = gs
group_requests (r ∷ rs) gs = group_requests rs (add_request r gs)

pub record Filter : Type 0 where
  pub kinds : List ℕ
  pub authors : List String
  pub limit : ℕ
  pub d : Option (List String)

unfoldable pub filter_of : Group → Filter
filter_of g = record {
  kinds = g.kind ∷ [];
  authors = g.authors;
  limit = length g.authors * max 1 (length g.ds) * 3;
  d = if ltb 0 (length g.ds) then some g.ds else none;
}

unfoldable pub build_batch_filters : List ReplaceableEventRequest → List Filter
unfolding group_requests filter_of
build_batch_filters requests = map filter_of (group_requests requests [])
