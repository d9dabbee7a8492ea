-- ===== src/Client/Tests.antt =====
-- The relay client on concrete runs.
use livelier.Base.{
  ℕ, ◌≤◌, String, true, false, not, ◌&&◌, ◌||◌, ◌≡◌, refl, Option, none, some, List, [], ◌∷◌, any,
  length, All, ◌⊎◌, arith,
}
use livelier.Base.Dict.{lookup, has, insert}
use livelier.Base.Text.{cat}
use livelier.Client.Replaceable.{
  Event, ReplaceableEventRequest, coordinate, kind_pubkey, build_newest_maps, build_batch_filters,
  d_tag,
}
use livelier.Client.Replaceable.Newest.{newest, build_newest_maps-newest}
use livelier.Client.Replaceable.Filters.{
  matches, asks_author, asks_d, asks_some_d, build_batch_filters-matches,
}
use livelier.Client.Replaceable.Keys.{Plain, break_colon}
use livelier.Client.Loader.{QueryFn, Requests}
use livelier.Client.Cooldown.{relay_cooldown_base_ms}
use livelier.Client.Cooldown.Laws.{
  Reply, limited, answers, severed_at, Ascending, Spaced, severed_at-Spaced,
}
use livelier.Client.Lru.{LruCache, set, get, new_cache, put, evict_lru}
use livelier.Client.Lru.Eviction.{set-evicts}
use livelier.Client.Lru.Laws.{run, run-IsSound, Call, set_call, get_call}
use livelier.Client.Signing.{SigningRequest, cached, create_signed_event, on_signed}
use livelier.Client.Signing.Laws.{create_signed_event-collides, idle}
use livelier.Client.Publish.{Caches, is_cacheable}

abbrev note : ℕ → String → ℕ → String → Event
note kind id created_at d = record {
  id = id;
  pubkey = "alice";
  created_at = created_at;
  kind = kind;
  tags = ("e" ∷ "x" ∷ []) ∷ ("d" ∷ d ∷ []) ∷ [];
  content = "hello";
}

abbrev notes : List Event
notes =
    note 30311 "n1" 5 "stream"
    ∷ note 30311 "n2" 9 "stream"
    ∷ note 30311 "n3" 9 "stream"
    ∷ note 30311 "n4" 12 "other"
    ∷ []

build_newest_maps-newest_example :
    (lookup "30311:alice:stream" (build_newest_maps notes).newest_by_coordinate
      ≡ newest coordinate "30311:alice:stream" notes)
    × (lookup "30311:alice:stream" (build_newest_maps notes).newest_by_kind_pubkey
        ≡ newest (λ e. kind_pubkey e.kind e.pubkey) "30311:alice:stream" notes)
build_newest_maps-newest_example = build_newest_maps-newest notes "30311:alice:stream"

abbrev wants : ℕ → String → Option String → ReplaceableEventRequest
wants kind pubkey d = record { pubkey = pubkey; kind = kind; d = d }

abbrev requests : List ReplaceableEventRequest
requests = wants 30311 "alice" (some "stream") ∷ wants 30311 "bob" none ∷ wants 0 "bob" none ∷ []

build_batch_filters-matches_example :
    any (matches (note 30311 "n4" 12 "other")) (build_batch_filters requests) ≡ (
      asks_author 30311 "alice" requests
      && (not (asks_some_d 30311 requests) || elim (d_tag (note 30311 "n4" 12 "other").tags) [
        | none ↦ false
        | some d ↦ asks_d 30311 d requests
      ]))
build_batch_filters-matches_example =
    build_batch_filters-matches requests (note 30311 "n4" 12 "other")

plain : Plain "alice"
unfolding break_colon
plain = refl

-- One tier that finds the stream of alice and nothing for bob, with one EOSE.
abbrev query : QueryFn
query filters is_complete = some record { events = notes; eose_count = 1 }

abbrev batch : Requests
batch =
    ("30311:alice:stream", wants 30311 "alice" (some "stream"))
    ∷ ("30311:bob:", wants 30311 "bob" none)
    ∷ []

abbrev replies : List Reply
replies = limited 1000 "r" ∷ limited 2000 "r" ∷ answers 62000 "r" ∷ limited 63000 "r" ∷ []

ordered : Ascending 0 replies
ordered = (omega arith, (omega arith, (omega arith, (omega arith, tt))))

severed_at-Spaced_example : Spaced relay_cooldown_base_ms 0 (severed_at "r" replies [])
severed_at-Spaced_example = severed_at-Spaced "r" replies [] ordered

-- A cache for two, with two entries in it, of which "a" was read last.
abbrev calls : List (Call ℕ)
calls = set_call 1 "a" 10 ∷ set_call 2 "b" 20 ∷ get_call 3 "a" ∷ []

abbrev two : LruCache ℕ
two = run calls (new_cache 2)

held : (lookup "b" two.cache ≡ some 20) × (lookup "b" two.key_usage ≡ some 2)
unfolding new_cache lookup insert set get put evict_lru
held = (refl, refl)

set-evicts_example :
    (lookup "c" (set 4 "c" 30 two).cache ≡ some 30)
    × ((lookup "b" (set 4 "c" 30 two).cache ≡ some 20)
        ⊎ ((2 ≤ length two.cache) × (has "c" two.cache ≡ false) × All (λ e. 2 ≤ e.1) two.key_usage))
set-evicts_example = set-evicts 2 two (run-IsSound 2 calls) 4 "c" "b" 30 20 2 held.0 held.1 refl

abbrev request : SigningRequest
request = record { kind = 1311; content = "x"; tags = []; pubkey = "alice" }

create_signed_event-collides_example :
    (create_signed_event
      (record request { content = cat "to " (cat "BB" "") })
      (on_signed
        (record request { content = cat "to " (cat "Aa" "") })
        (some (note 1311 "n5" 20 ""))
        idle.signing)).0
    ≡ cached (note 1311 "n5" 20 "")
create_signed_event-collides_example =
    create_signed_event-collides request "to " "" (note 1311 "n5" 20 "") idle.signing

abbrev caches : Caches
caches = record {
  event_cache = new_cache 1;
  replaceable_cache = new_cache 1;
  miss_ledger = [];
  verified_ids = [];
}

cacheable : is_cacheable 10002 ≡ true
unfolding is_cacheable
cacheable = refl
