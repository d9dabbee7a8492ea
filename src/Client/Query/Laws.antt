-- ===== src/Client/Query/Laws.antt =====
-- client.service.ts: the accounts of `queryWithStats`, in every state that a query can reach.
use mathlib.Core.List.{map-append}
use livelier.Base.{
  ℕ, suc, ◌+◌, String, Bool, true, false, not, ◌&&◌, ◌≡◌, refl, Option, none, some, List, [], ◌∷◌,
  ◌++◌, ◌==◌, arith, ap, if-cases,
}
use livelier.Base.Dict.{Dict, lookup, insert, keys, insert-Distinct}
use livelier.Base.Keys.{mem, dedupe, dedupe-Distinct, keep-Distinct, append-Distinct, Distinct}
use livelier.Client.Replaceable.{Event}
use livelier.Client.Cooldown.{
  Cooldown, is_relay_cooling_down, filter_cooling_relays, is_rate_limit_reason,
  mark_relay_rate_limited,
}
use livelier.Client.Query.{
  Query, Phase, Outcome, IsComplete, connecting, open_req, settled, answered, refused, silent,
  released, failed, begin_query, connected_at, failed_at, eose_at, connect_all, finish,
  on_connected, on_connect_failed, on_event, on_eose, on_close, on_deadline,
}
use livelier.Client.Query.Counts.{is_open, is_answered, count_phase}
use livelier.Client.Query.Finish.{
  ids, IsAccounted, IsReleased, answered-insert, shut-insert, unanswered-insert, open-pos,
  open-settle, finish-IsAccounted, finish-IsReleased, maybe_complete_early_sound,
}

-- The callbacks of a query, in any order, for any relay, at any time.
pub data Step (is_complete : IsComplete) : Query → Query → Type 0 where
  connected : (url : String) (q : Query) → Step is_complete q (on_connected is_complete url q)
  connect_failed : (url : String) (q : Query) → Step is_complete q (on_connect_failed url q)
  event : (e : Event) (q : Query) → Step is_complete q (on_event is_complete e q)
  eose : (now : ℕ) (url : String) (q : Query) → Step is_complete q (on_eose now url q)
  close :
      (now : ℕ) (url reason : String) (q : Query) → Step is_complete q (on_close now url reason q)
  deadline : (url : String) (q : Query) → Step is_complete q (on_deadline url q)

pub data Reach (is_complete : IsComplete) (start : Query) : Query → Type 0 where
  here : Reach is_complete start start
  next :
      {q r : Query} → Reach is_complete start q → Step is_complete q r → Reach is_complete start r

abbrev pub Sound : Query → Type 0
Sound q = IsAccounted q × IsReleased q

-- A relay leaves `connecting` for a phase that is neither open nor answered.
settle_connecting-Sound :
    (url : String) (outcome : Outcome) (q : Query)
    → is_answered (settled outcome) ≡ false
    → lookup url q.relays ≡ some connecting
    → Sound q
    → Sound (record q { relays = insert url (settled outcome) q.relays })
settle_connecting-Sound url outcome q quiet h (s, r) =
    let same = shut-insert url (settled outcome) q.relays h in
    (
      record {
        accounted = unfold is_open in omega (arith, s.accounted, same);
        counted =
            ground (arith, quiet, s.counted, unanswered-insert url (settled outcome) q.relays h);
        once = s.once;
        apart = insert-Distinct url (settled outcome) q.relays s.apart;
      },
      λ c. unfold is_open in omega (arith, r c, same),
    )

on_connected-Sound :
    (is_complete : IsComplete) (url : String) (q : Query)
    → Sound q
    → Sound (on_connected is_complete url q)
unfolding on_connected
on_connected-Sound is_complete url q (s, r) = found (lookup url q.relays) refl
  where
    found : (o : Option Phase) → lookup url q.relays ≡ o → Sound (connected_at is_complete url o q)
    found none h = (s, r)
    found (some open_req) h = (s, r)
    found (some (settled x)) h = (s, r)
    found (some connecting) h =
        if-cases Sound q.completed_early
          (λ c. settle_connecting-Sound url released q (unfold is_answered in refl) h (s, r))
          (λ n.
            maybe_complete_early_sound is_complete
              (record q { relays = insert url open_req q.relays; opened = suc q.opened })
              record {
                accounted =
                    unfold is_open in
                    omega (arith, s.accounted, shut-insert url open_req q.relays h);
                counted =
                    unfold is_answered in
                    omega (arith, s.counted, unanswered-insert url open_req q.relays h);
                once = s.once;
                apart = insert-Distinct url open_req q.relays s.apart;
              }
              (λ c. absurd (ground (arith, n, c))))

on_connect_failed-Sound : (url : String) (q : Query) → Sound q → Sound (on_connect_failed url q)
unfolding on_connect_failed is_answered
on_connect_failed-Sound url q s = found (lookup url q.relays) refl
  where
    found : (o : Option Phase) → lookup url q.relays ≡ o → Sound (failed_at url o q)
    found none h = s
    found (some open_req) h = s
    found (some (settled x)) h = s
    found (some connecting) h = settle_connecting-Sound url failed q refl h s

on_event-Sound :
    (is_complete : IsComplete) (e : Event) (q : Query) → Sound q → Sound (on_event is_complete e q)
unfolding on_event
on_event-Sound is_complete e q (s, r) =
    if-cases Sound (mem e.id (ids q.events)) (λ _. (s, r))
      (λ new.
        maybe_complete_early_sound is_complete (record q { events = q.events ++ e ∷ [] })
          record {
            accounted = s.accounted;
            counted = s.counted;
            once =
                rw (map-append (λ (x : Event). x.id) q.events (e ∷ []))
                  (append-Distinct e.id (ids q.events) new s.once);
            apart = s.apart;
          }
          r)

on_eose-Sound : (now : ℕ) (url : String) (q : Query) → Sound q → Sound (on_eose now url q)
unfolding on_eose
on_eose-Sound now url q (s, r) = found (lookup url q.relays) refl
  where
    found : (o : Option Phase) → lookup url q.relays ≡ o → Sound (eose_at now url o q)
    found none h = (s, r)
    found (some connecting) h = (s, r)
    found (some (settled x)) h = (s, r)
    found (some open_req) h =
        unfold finish in
        rw (h) (
          record {
            accounted = omega (arith, s.accounted, open-settle url answered q.relays h);
            counted =
                unfold is_answered in
                omega (arith, s.counted, answered-insert url (settled answered) q.relays h);
            once = s.once;
            apart = insert-Distinct url (settled answered) q.relays s.apart;
          },
          λ c. absurd (omega (arith, r c, open-pos url q.relays h)),
        )

finish-Sound :
    (url : String) (outcome : Outcome) (q : Query)
    → is_answered (settled outcome) ≡ false
    → Sound q
    → Sound (finish url outcome q)
finish-Sound url outcome q quiet (s, r) =
    (finish-IsAccounted url outcome q quiet s, finish-IsReleased url outcome q r)

on_close-Sound :
    (now : ℕ) (url reason : String) (q : Query) → Sound q → Sound (on_close now url reason q)
unfolding on_close is_answered
on_close-Sound now url reason q (s, r) =
    if-cases (λ x. Sound (finish url refused x))
      (not (reason == "closed by caller") && is_rate_limit_reason reason)
      (λ _.
        finish-Sound url refused
          (record q { cooldowns = (mark_relay_rate_limited now url q.cooldowns).0 }) refl
          (
            record { accounted = s.accounted; counted = s.counted; once = s.once; apart = s.apart },
            r,
          ))
      (λ _. finish-Sound url refused q refl (s, r))

Step-Sound : {is_complete : IsComplete} {q r : Query} → Step is_complete q r → Sound q → Sound r
Step-Sound {is_complete} (connected url q) s = on_connected-Sound is_complete url q s
Step-Sound (connect_failed url q) s = on_connect_failed-Sound url q s
Step-Sound {is_complete} (event e q) s = on_event-Sound is_complete e q s
Step-Sound (eose now url q) s = on_eose-Sound now url q s
Step-Sound (close now url reason q) s = on_close-Sound now url reason q s
Step-Sound (deadline url q) s = unfold on_deadline is_answered in finish-Sound url silent q refl s

pub connect_all-keys : (urls : List String) → keys (connect_all urls) ≡ urls
unfolding connect_all
connect_all-keys [] = refl
connect_all-keys (url ∷ urls) = ap (◌∷◌ url) (connect_all-keys urls)

connect_all-count :
    (p : Phase → Bool) (urls : List String)
    → p connecting ≡ false
    → count_phase p (connect_all urls) ≡ 0
unfolding connect_all count_phase
connect_all-count p [] h = refl
connect_all-count p (url ∷ urls) h = ground (arith, h, connect_all-count p urls h)

pub begin_query-Sound :
    (now : ℕ) (urls : List String) (cooldowns : Dict Cooldown)
    → Sound (begin_query now urls cooldowns)
unfolding begin_query is_open is_answered
begin_query-Sound now urls cooldowns =
    let asked = filter_cooling_relays now (dedupe urls) cooldowns in
    (
      record {
        accounted = omega (arith, connect_all-count is_open asked refl);
        counted = omega (arith, connect_all-count is_answered asked refl);
        once = tt;
        apart = rw (connect_all-keys asked) (
            unfold filter_cooling_relays in
            keep-Distinct (λ url. not (is_relay_cooling_down now url cooldowns)) (dedupe urls)
              (dedupe-Distinct urls));
      },
      λ c. absurd (ground (arith, c)),
    )

pub Reach-Sound :
    {is_complete : IsComplete} {start q : Query} → Sound start → Reach is_complete start q → Sound q
Reach-Sound s here = s
Reach-Sound s (next r st) = Step-Sound st (Reach-Sound s r)

module _ (is_complete : IsComplete) (now : ℕ) (urls : List String) (cooldowns : Dict Cooldown)
    {q : Query} (reach : Reach is_complete (begin_query now urls cooldowns) q) where
  -- In every state that a query can reach, the requests that were opened are those that were closed
  -- and those that are open still, the count of EOSEs is the number of relays that ended by an EOSE,
  -- and no event was taken twice.
  pub Reach-accounted :
      (q.opened ≡ q.closed + count_phase is_open q.relays)
      × (q.eose_count ≡ count_phase is_answered q.relays)
      × Distinct (ids q.events)
  Reach-accounted =
      let s = (Reach-Sound (begin_query-Sound now urls cooldowns) reach).0 in
      (s.accounted, s.counted, s.once)

  -- Once the events suffice, no request is left open, and every request that was opened was closed.
  pub Reach-released :
      q.completed_early ≡ true → (count_phase is_open q.relays ≡ 0) × (q.opened ≡ q.closed)
  Reach-released c =
      let (s, r) = Reach-Sound (begin_query-Sound now urls cooldowns) reach in
      (r c, omega (arith, s.accounted, r c))
