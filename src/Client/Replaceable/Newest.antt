-- ===== src/Client/Replaceable/Newest.antt =====
-- client.service.ts: `buildNewestMaps` against its description, and what it gives to a request.
use livelier.Base.{
  ◌≤◌, String, ◌≡◌, refl, Option, none, some, List, [], ◌∷◌, leb, ◌==◌, if◌then◌else◌, arith,
  Bool-cases, inl, inr, eq_iff, ◌++◌, ◌∙◌,
}
use livelier.Base.Dict.{Dict, lookup, lookup-insert}
use livelier.Client.Replaceable.{
  Event, NewestMaps, coordinate, kind_pubkey, keep_newest, add_event, add_events, build_newest_maps,
}

-- The newest event of a list whose key is `k`, the first one of those that are equally new.
abbrev pub newest : (Event → String) → String → List Event → Option Event
newest key k [] = none
newest key k (e ∷ es) = elim (newest key k es) [
  | none ↦ if key e == k then some e else none
  | some f ↦
      if key e == k then (if leb f.created_at e.created_at then some e else some f) else some f
]

-- What a map holds, and the newest of what is yet to come.
unfoldable pub later : Option Event → Option Event → Option Event
later none b = b
later (some a) none = some a
later (some a) (some b) = if leb b.created_at a.created_at then some a else some b

later_step :
    (key : Event → String) (k : String) (e : Event) (es : List Event) (m : Dict Event)
    → later (lookup k (keep_newest (key e) e m)) (newest key k es)
      ≡ later (lookup k m) (newest key k (e ∷ es))
unfolding keep_newest later
later_step key k e es m = ground (arith, lookup-insert (key e) k e m, eq_iff (key e) k)

add_events-newest :
    (k : String) (es : List Event) (m : NewestMaps)
    → (lookup k (add_events es m).newest_by_coordinate
        ≡ later (lookup k m.newest_by_coordinate) (newest coordinate k es))
      × (lookup k (add_events es m).newest_by_kind_pubkey
          ≡ later
              (lookup k m.newest_by_kind_pubkey)
              (newest (λ e. kind_pubkey e.kind e.pubkey) k es))
unfolding add_events
add_events-newest k [] m = unfold later in (ground (arith), ground arith)
add_events-newest k (e ∷ es) m =
    let (a, b) = add_events-newest k es (add_event e m) in
    (
      a ∙ unfold add_event in later_step coordinate k e es m.newest_by_coordinate,
      b
          ∙ unfold add_event in
            later_step (λ x. kind_pubkey x.kind x.pubkey) k e es m.newest_by_kind_pubkey,
    )

-- Under every key the two maps hold the newest of the events that have it, the first to arrive of
-- those that are equally new, and nothing if no event has it.
pub build_newest_maps-newest :
    (events : List Event) (k : String)
    → (lookup k (build_newest_maps events).newest_by_coordinate ≡ newest coordinate k events)
      × (lookup k (build_newest_maps events).newest_by_kind_pubkey
          ≡ newest (λ e. kind_pubkey e.kind e.pubkey) k events)
unfolding build_newest_maps lookup later
build_newest_maps-newest events k =
    add_events-newest k events record { newest_by_coordinate = []; newest_by_kind_pubkey = [] }

-- The newest of two lists, one after the other.
pub newest-append :
    (key : Event → String) (k : String) (xs ys : List Event)
    → newest key k (xs ++ ys) ≡ later (newest key k xs) (newest key k ys)
unfolding later
newest-append key k [] ys = ground arith
newest-append key k (x ∷ xs) ys = ground (arith, newest-append key k xs ys)

-- Of two events the later one is at least as new as either.
pub later-newer :
    (a b : Option Event) (e : Event)
    → a ≡ some e
    → (f : Event) × (later a b ≡ some f) × (e.created_at ≤ f.created_at)
unfolding later
later-newer a none e h = (e, rw h refl, omega arith)
later-newer a (some b) e h = elim (Bool-cases (leb b.created_at e.created_at)) [
  | inl y ↦ (e, rw h (ground (arith, y)), omega arith)
  | inr n ↦ (b, rw h (ground (arith, n)), ground (arith, n))
]
