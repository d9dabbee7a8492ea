-- ===== src/Client/Query.antt =====
-- client.service.ts: `queryWithStats` as a state machine. Each relay of the query has a phase; the
-- callbacks of its connection, of its subscription and of its deadline are functions on the state.
-- `opened` and `closed` count the calls of recordReqOpened and recordReqClosed. The caches that an
-- event goes to besides are no part of the state.
pub mod Counts
pub mod Deadlines
pub mod Finish
mod Tests
pub mod Laws
use livelier.Base.{
  ℕ, suc, ◌+◌, String, Bool, true, false, not, ◌&&◌, ◌||◌, Option, none, some, List, [], ◌∷◌, ◌++◌,
  map, if◌then◌else◌, ◌==◌,
}
use livelier.Base.Dict.{Dict, lookup, insert}
use livelier.Base.Keys.{mem, dedupe}
use livelier.Client.Replaceable.{Event}
use livelier.Client.Cooldown.{
  Cooldown, is_rate_limit_reason, mark_relay_rate_limited, note_relay_answered,
  filter_cooling_relays,
}

-- How a relay's part of the query ended.
pub data Outcome : Type 0 where
  -- EOSE
  answered : Outcome
  -- CLOSED, or a dropped socket
  refused : Outcome
  -- the deadline
  silent : Outcome
  -- the predicate held before
  released : Outcome
  -- no connection
  failed : Outcome

pub data Phase : Type 0 where
  connecting : Phase
  open_req : Phase
  settled : Outcome → Phase

pub record Query : Type 0 where
  pub relays : Dict Phase
  pub events : List Event
  pub eose_count : ℕ
  pub completed_early : Bool
  pub cooldowns : Dict Cooldown
  pub opened : ℕ
  pub closed : ℕ

unfoldable pub connect_all : List String → Dict Phase
connect_all [] = []
connect_all (url ∷ urls) = (url, connecting) ∷ connect_all urls

unfoldable pub begin_query : ℕ → List String → Dict Cooldown → Query
unfolding connect_all filter_cooling_relays dedupe
begin_query now urls cooldowns = record {
  relays = connect_all (filter_cooling_relays now (dedupe urls) cooldowns);
  events = [];
  eose_count = 0;
  completed_early = false;
  cooldowns = cooldowns;
  opened = 0;
  closed = 0;
}

-- `finish`, which does nothing once the relay is settled.
unfoldable pub finish_at : String → Outcome → Option Phase → Query → Query
finish_at url outcome (some open_req) q = record q {
  relays = insert url (settled outcome) q.relays;
  closed = suc q.closed;
}
finish_at url outcome _ q = q

unfoldable pub finish : String → Outcome → Query → Query
unfolding finish_at
finish url outcome q = finish_at url outcome (lookup url q.relays) q

-- `earlyClosers.forEach((close) => close())`
unfoldable pub release_all : List String → Query → Query
unfolding finish
release_all [] q = q
release_all (url ∷ urls) q = release_all urls (finish url released q)

-- The caller's `isComplete`, `none` where it gave none.
abbrev pub IsComplete : Type 0
IsComplete = Option (List Event → Bool)

unfoldable pub holds : IsComplete → List Event → Bool
holds none events = false
holds (some test) events = test events

unfoldable pub maybe_complete_early : IsComplete → Query → Query
unfolding release_all holds
maybe_complete_early is_complete q =
    if q.completed_early || not (holds is_complete q.events)
    then q
    else release_all (map (λ e. e.0) q.relays) (record q { completed_early = true })

-- `ensureRelay` resolves: the subscription is opened, unless the query is complete.
unfoldable pub connected_at : IsComplete → String → Option Phase → Query → Query
unfolding maybe_complete_early
connected_at is_complete url (some connecting) q =
    if q.completed_early
    then record q { relays = insert url (settled released) q.relays }
    else maybe_complete_early is_complete
        (record q { relays = insert url open_req q.relays; opened = suc q.opened })
connected_at is_complete url _ q = q

unfoldable pub on_connected : IsComplete → String → Query → Query
unfolding connected_at
on_connected is_complete url q = connected_at is_complete url (lookup url q.relays) q

-- `ensureRelay` rejects.
unfoldable pub failed_at : String → Option Phase → Query → Query
failed_at url (some connecting) q = record q { relays = insert url (settled failed) q.relays }
failed_at url _ q = q

unfoldable pub on_connect_failed : String → Query → Query
unfolding failed_at
on_connect_failed url q = failed_at url (lookup url q.relays) q

unfoldable pub on_event : IsComplete → Event → Query → Query
unfolding maybe_complete_early
on_event is_complete event q =
    if mem event.id (map (λ (e : Event). e.id) q.events)
    then q
    else maybe_complete_early is_complete (record q { events = q.events ++ event ∷ [] })

unfoldable pub eose_at : ℕ → String → Option Phase → Query → Query
unfolding finish
eose_at now url (some open_req) q = finish url answered (record q {
  eose_count = suc q.eose_count;
  cooldowns = note_relay_answered now url q.cooldowns;
})
eose_at now url _ q = q

unfoldable pub on_eose : ℕ → String → Query → Query
unfolding eose_at
on_eose now url q = eose_at now url (lookup url q.relays) q

unfoldable pub on_close : ℕ → String → String → Query → Query
unfolding finish
on_close now url reason q = finish url refused (
    if not (reason == "closed by caller") && is_rate_limit_reason reason
    then record q { cooldowns = (mark_relay_rate_limited now url q.cooldowns).0 }
    else q)

unfoldable pub on_deadline : String → Query → Query
unfolding finish
on_deadline url q = finish url silent q

-- The promise resolves when each relay is settled.
unfoldable pub is_settled : Phase → Bool
is_settled (settled _) = true
is_settled connecting = false
is_settled open_req = false

unfoldable pub is_resolved_from : Dict Phase → Bool
unfolding is_settled
is_resolved_from [] = true
is_resolved_from ((url, phase) ∷ rest) = is_settled phase && is_resolved_from rest

unfoldable pub is_resolved : Query → Bool
unfolding is_resolved_from
is_resolved q = is_resolved_from q.relays
