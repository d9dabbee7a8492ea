-- ===== src/Nostr/Tests.antt =====
-- A publication that is asked to authenticate, and a report of demand.
use livelier.Base.{◌+◌, ◌≤◌, true, false, ◌≡◌, refl, none, some, List, [], ◌∷◌}
use livelier.Base.Keys.{add}
use livelier.Nostr.AuthedPublish.{on_open, on_challenge, on_event_ok, on_auth_ok}
use livelier.Nostr.AuthedPublish.Callbacks.{events, auths, is_resolved}
use livelier.Nostr.AuthedPublish.Laws.{
  Exchange, Reach, begun, here, next, opens, challenges, rejects, auth_ok, accepts, Reach-accepted,
}
use livelier.Nostr.Demand.{
  DemandItem, fetch_demanded_a_tags, collect, is_active, add_array, add_values,
}

abbrev x1 : Exchange
x1 = record (begun 1311) { publishing = on_open (begun 1311).publishing; opened = true }

abbrev x2 : Exchange
x2 = record x1 { publishing = on_challenge "c" x1.publishing }

abbrev x3 : Exchange
x3 = record x2 { publishing = on_event_ok false "auth-required: who?" x2.publishing }

abbrev x4 : Exchange
x4 = record x3 { publishing = on_auth_ok true "" x3.publishing }

abbrev x5 : Exchange
x5 = record x4 { publishing = on_event_ok true "" x4.publishing; accepted = true }

x5-Reach : Reach x5
x5-Reach =
    next
      (next
        (next (next (next (here 1311) (opens (begun 1311) refl)) (challenges "c" x1))
          (rejects "auth-required: who?" x2))
        (auth_ok true "" x3))
      (accepts x4)

Reach-accepted_example :
    (events x5.publishing.sent ≤ 1 + auths x5.publishing.sent)
    × (auths x5.publishing.sent ≤ 1)
    × (is_resolved x5.publishing.outcome ≡ true → x5.accepted ≡ true)
Reach-accepted_example = Reach-accepted x5-Reach

abbrev demand : List DemandItem
demand =
    record { active = some 2; a_values = some (some "30311:p:oc-1" ∷ none ∷ []) }
    ∷ record { active = some 0; a_values = some (some "30311:p:oc-2" ∷ []) }
    ∷ record { active = some 1; a_values = none }
    ∷ []

answered :
    fetch_demanded_a_tags (some record { ok = true; demand = demand }) ≡ some ("30311:p:oc-1" ∷ [])
unfolding fetch_demanded_a_tags collect is_active add_array add_values add
answered = refl
