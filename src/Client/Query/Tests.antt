-- ===== src/Client/Query/Tests.antt =====
-- Queries, subscriptions and batches of the relay client on concrete runs.
use livelier.Base.{◌+◌, ◌≡◌, none, some, [], ◌∷◌, length, leb}
use livelier.Base.Keys.{Distinct}
use livelier.Client.Replaceable.{Event}
use livelier.Client.Query.{
  Query, IsComplete, begin_query, on_connected, on_event, on_connect_failed,
}
use livelier.Client.Query.Counts.{count_phase, is_open, is_answered}
use livelier.Client.Query.Finish.{ids}
use livelier.Client.Query.Laws.{Reach, here, next, connected, event, Reach-accounted}

abbrev first_query : Query
first_query = begin_query 0 ("a" ∷ "b" ∷ []) []

abbrev e1 : Event
e1 = record { id = "e1"; pubkey = "p"; created_at = 1; kind = 0; tags = []; content = "" }

-- One event is enough.
abbrev one : IsComplete
one = some (λ es. leb 1 (length es))

abbrev full : Query
full = on_event one e1 (on_connected one "a" first_query)

full-Reach : Reach one first_query full
full-Reach =
    next (next here (connected "a" first_query)) (event e1 (on_connected one "a" first_query))

Reach-accounted_example :
    (full.opened ≡ full.closed + count_phase is_open full.relays)
    × (full.eose_count ≡ count_phase is_answered full.relays)
    × Distinct (ids full.events)
Reach-accounted_example = Reach-accounted one 0 ("a" ∷ "b" ∷ []) [] full-Reach

-- One relay is open, the other one was not reached.
abbrev half : Query
half = on_connect_failed "b" (on_connected none "a" first_query)
