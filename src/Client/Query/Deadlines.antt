-- ===== src/Client/Query/Deadlines.antt =====
-- client.service.ts: `queryWithStats` resolves by its deadlines, and which relays it asks.
use livelier.Base.{
  ℕ, suc, String, Bool, true, false, not, ◌&&◌, ◌||◌, ◌≡◌, refl, Option, none, some, List, [], ◌∷◌,
  ◌++◌, map, ◌==◌, arith, sym, ap, eq_iff, if-cases, inl, inr, ◌∙◌,
}
use livelier.Base.Dict.{Dict, lookup, insert, keys, has, lookup-insert, mem-keys}
use livelier.Base.Keys.{mem, mem-keep, mem-dedupe, dedupe}
use livelier.Client.Replaceable.{Event}
use livelier.Client.Query.{
  Query, Phase, Outcome, IsComplete, connecting, open_req, settled, silent, answered, refused,
  failed, released, begin_query, connect_all, finish, release_all, maybe_complete_early, holds,
  on_connected, connected_at, on_connect_failed, failed_at, on_event, on_eose, eose_at, on_close,
  on_deadline,
}
use livelier.Client.Query.Counts.{is_connecting}
use livelier.Client.Query.Finish.{finish-cases}
use livelier.Client.Query.Laws.{
  Step, connected, connect_failed, event, eose, close, deadline, Reach, here, next,
  connect_all-keys,
}
use livelier.Client.Cooldown.{
  Cooldown, is_rate_limit_reason, mark_relay_rate_limited, note_relay_answered,
  is_relay_cooling_down, filter_cooling_relays,
}

-- The deadlines of some relays, one after the other.
abbrev pub fire_deadlines : List String → Query → Query
fire_deadlines [] q = q
fire_deadlines (url ∷ urls) q = fire_deadlines urls (on_deadline url q)

abbrev pub is_connecting_at : Option Phase → Bool
is_connecting_at none = false
is_connecting_at (some phase) = is_connecting phase

has-finish :
    (url j : String) (outcome : Outcome) (q : Query)
    → has j (finish url outcome q).relays ≡ has j q.relays
has-finish url j outcome q = elim (finish-cases url outcome q) [
  | inl (h, e) ↦
      rw e (ground (arith, h, eq_iff url j, lookup-insert url j (settled outcome) q.relays))
  | inr (e, _) ↦ rw e refl
]

-- Which relays a query has.
has-release_all :
    (urls : List String) (j : String) (q : Query)
    → has j (release_all urls q).relays ≡ has j q.relays
unfolding release_all
has-release_all [] j q = refl
has-release_all (url ∷ urls) j q =
    has-release_all urls j (finish url released q) ∙ has-finish url j released q

has-maybe_complete_early :
    (is_complete : IsComplete) (j : String) (q : Query)
    → has j (maybe_complete_early is_complete q).relays ≡ has j q.relays
unfolding maybe_complete_early
has-maybe_complete_early is_complete j q =
    if-cases (λ (x : Query). has j x.relays ≡ has j q.relays)
      (q.completed_early || not (holds is_complete q.events)) (λ _. refl)
      (λ _. has-release_all (keys q.relays) j (record q { completed_early = true }))

has-insert :
    (url j : String) (phase old : Phase) (m : Dict Phase)
    → lookup url m ≡ some old
    → has j (insert url phase m) ≡ has j m
has-insert url j phase old m h = ground (arith, h, eq_iff url j, lookup-insert url j phase m)

Step-has :
    {is_complete : IsComplete} {q r : Query}
    → Step is_complete q r
    → (j : String) → has j r.relays ≡ has j q.relays
unfolding on_connected on_connect_failed on_event on_eose on_close on_deadline
Step-has {is_complete} (connected url q) j = found (lookup url q.relays) refl
  where
    found :
        (o : Option Phase)
        → lookup url q.relays ≡ o
        → has j (connected_at is_complete url o q).relays ≡ has j q.relays
    found none h = refl
    found (some open_req) h = refl
    found (some (settled x)) h = refl
    found (some connecting) h =
        if-cases (λ (x : Query). has j x.relays ≡ has j q.relays) q.completed_early
          (λ _. has-insert url j (settled released) connecting q.relays h)
          (λ _.
            has-maybe_complete_early is_complete j
              (record q { relays = insert url open_req q.relays; opened = suc q.opened })
            ∙ has-insert url j open_req connecting q.relays h)
Step-has (connect_failed url q) j = found (lookup url q.relays) refl
  where
    found :
        (o : Option Phase)
        → lookup url q.relays ≡ o
        → has j (failed_at url o q).relays ≡ has j q.relays
    found none h = refl
    found (some open_req) h = refl
    found (some (settled x)) h = refl
    found (some connecting) h = has-insert url j (settled failed) connecting q.relays h
Step-has {is_complete} (event e q) j =
    if-cases (λ (x : Query). has j x.relays ≡ has j q.relays)
      (mem e.id (map (λ (x : Event). x.id) q.events)) (λ _. refl)
      (λ _. has-maybe_complete_early is_complete j (record q { events = q.events ++ e ∷ [] }))
Step-has (eose now url q) j = found (lookup url q.relays) refl
  where
    found :
        (o : Option Phase)
        → lookup url q.relays ≡ o
        → has j (eose_at now url o q).relays ≡ has j q.relays
    found none h = refl
    found (some connecting) h = refl
    found (some (settled x)) h = refl
    found (some open_req) h = has-finish url j answered (record q {
      eose_count = suc q.eose_count;
      cooldowns = note_relay_answered now url q.cooldowns;
    })
Step-has (close now url reason q) j =
    if-cases (λ x. has j (finish url refused x).relays ≡ has j q.relays)
      (not (reason == "closed by caller") && is_rate_limit_reason reason)
      (λ _.
        has-finish url j refused
          (record q { cooldowns = (mark_relay_rate_limited now url q.cooldowns).0 }))
      (λ _. has-finish url j refused q)
Step-has (deadline url q) j = has-finish url j silent q

Reach-has :
    {is_complete : IsComplete} {start q : Query}
    → Reach is_complete start q
    → (j : String) → has j q.relays ≡ has j start.relays
Reach-has here j = refl
Reach-has (next r st) j = Step-has st j ∙ Reach-has r j

module _ (is_complete : IsComplete) (now : ℕ) (urls : List String) (cooldowns : Dict Cooldown)
    {q : Query} (reach : Reach is_complete (begin_query now urls cooldowns) q) where
  -- A query has exactly the relays it was given, less those that were cooling down at its start.
  pub Reach-asked :
      (url : String)
      → has url q.relays ≡ (mem url urls && not (is_relay_cooling_down now url cooldowns))
  unfolding begin_query filter_cooling_relays
  Reach-asked url =
      let asked = filter_cooling_relays now (dedupe urls) cooldowns in
      Reach-has reach url
      ∙ sym (mem-keys url (connect_all asked))
      ∙ ap (mem url) (connect_all-keys asked)
      ∙ mem-keep (λ u. not (is_relay_cooling_down now u cooldowns)) url (dedupe urls)
      ∙ ground (arith, mem-dedupe url urls)
