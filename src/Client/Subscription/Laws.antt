-- ===== src/Client/Subscription/Laws.antt =====
-- client.service.ts: what holds of a standing subscription in every state that it can reach.
use livelier.Base.{
  ℕ, ◌+◌, ◌≤◌, String, Bool, true, false, not, ◌&&◌, ◌≡◌, refl, some, List, [], ◌∷◌, ◌++◌, map,
  length, if◌then◌else◌, ◌==◌, if-cases, arith, ap, sym, ◌∙◌,
}
use livelier.Base.Dict.{Dict, lookup, erase}
use livelier.Base.Keys.{dedupe}
use livelier.Client.Cooldown.{Cooldown, is_rate_limit_reason}
use livelier.Client.Subscription.{
  Subscription, subscribe, rate_limited, note_close, on_close, on_retry_timer, close_subs, close,
}
use livelier.Client.Subscription.Tally.{
  Step, connected, connect_failed, eose, sub_closed, retry_timer, caller_close, Reach, here, next,
  firsts, Tallied, IsShut, Sound, firsts-append, firsts-erase, note_close-Tallied,
  on_connected-Sound, on_connect_failed-Sound, on_eose-Sound, rate_limited_sound, timers-note_close,
  erase_nil, settle_close,
}

on_close-Sound :
    (now : ℕ) (url reason : String) (r : Bool) (s : Subscription)
    → lookup url s.active ≡ some r
    → Sound s
    → Sound (on_close now url reason r s)
unfolding on_close
on_close-Sound now url reason r s found (t, h) =
    let s1 = record s { active = erase url s.active } in
    let k = firsts (erase url s.active) in
    let t1 : Tallied ((if r then 0 else 1) + k) s1 = record {
      room = omega (arith, t.room, firsts-erase url r s.active found);
      onclose = t.onclose;
      oneose = t.oneose;
    } in
    let h1 : IsShut s1 = λ c. (ap (erase url) (h c).0 ∙ erase_nil url, (h c).1) in
    if-cases (λ x. Sound (note_close r x))
      (not (reason == "closed by caller") && is_rate_limit_reason reason)
      (λ _.
        let (t2, h2, same) = rate_limited_sound now url ((if r then 0 else 1) + k) s1 t1 h1 in
        settle_close r k (rate_limited now url s1) t2 h2 (omega (arith, ap firsts same)))
      (λ _. settle_close r k s1 t1 h1 (omega arith))

on_retry_timer-Sound : (url : String) (s : Subscription) → Sound s → Sound (on_retry_timer url s)
unfolding on_retry_timer
on_retry_timer-Sound url s (t, h) =
    if-cases Sound s.caller_closed (λ _. (t, h))
      (λ n. (
        record { room = omega (arith, t.room); onclose = t.onclose; oneose = t.oneose },
        λ c. absurd (ground (arith, n, c)),
      ))

-- Closing the subscriptions of a list, one after the other.
close_subs-Tallied :
    (now : ℕ) (subs : List (String × Bool)) (s : Subscription)
    → Tallied (firsts subs) s
    → s.retry_timers ≡ []
    → Tallied 0 (close_subs now subs s) × ((close_subs now subs s).retry_timers ≡ [])
unfolding close_subs on_close
close_subs-Tallied now [] s t h = (t, h)
close_subs-Tallied now ((url, r) ∷ rest) s t h =
    let s1 = record s { active = erase url s.active } in
    let t1 : Tallied ((if r then 0 else 1) + firsts rest) s1 = record {
      room = t.room;
      onclose = t.onclose;
      oneose = t.oneose;
    } in
    close_subs-Tallied now rest (note_close r s1) (note_close-Tallied r (firsts rest) s1 t1)
      (timers-note_close r s1 ∙ h)

close-Sound : (now : ℕ) (s : Subscription) → Sound s → Sound (close now s)
unfolding close
close-Sound now s (t, h) =
    let s1 = record s { caller_closed = true; retry_timers = [] } in
    let (t', timers) =
      close_subs-Tallied now s.active s1
        (record { room = t.room; onclose = t.onclose; oneose = t.oneose }) refl in
    (record { room = t'.room; onclose = t'.onclose; oneose = t'.oneose }, λ _. (refl, timers))

-- A pending connection that ends is no longer pending.
pending-Tallied :
    (url : String) (r : Bool) (before after : List (String × Bool)) (s : Subscription)
    → s.connecting ≡ before ++ (url, r) ∷ after
    → Tallied (firsts s.active) s
    → Tallied (firsts s.active + (if r then 0 else 1)) (record s { connecting = before ++ after })
pending-Tallied url r before after s e t = record {
  room = omega (
    arith,
    t.room,
    ap firsts e,
    firsts-append before ((url, r) ∷ after),
    firsts-append before after,
  );
  onclose = t.onclose;
  oneose = t.oneose;
}

empty-append : (before after : List (String × ℕ)) (x : String × ℕ) → before ++ x ∷ after ≡ [] → ⊥
empty-append [] after x h = absurd (ground (arith, h))
empty-append (_ ∷ before) after x h = absurd (ground (arith, h))

Step-Sound : {s t : Subscription} → Step s t → Sound s → Sound t
Step-Sound (connected url r before after s e) (t, h) =
    on_connected-Sound url r (record s { connecting = before ++ after })
      (pending-Tallied url r before after s e t) h
Step-Sound (connect_failed url r before after s e) (t, h) =
    on_connect_failed-Sound r (record s { connecting = before ++ after })
      (pending-Tallied url r before after s e t) h
Step-Sound (eose now url r s) p = on_eose-Sound now url r s p
Step-Sound (sub_closed now url reason r s found) p = on_close-Sound now url reason r s found p
Step-Sound (retry_timer url due before after s e) (t, h) =
    on_retry_timer-Sound url (record s { retry_timers = before ++ after })
      (
        record { room = t.room; onclose = t.onclose; oneose = t.oneose },
        λ c. absurd (empty-append before after (url, due) (sym e ∙ (h c).1)),
      )
Step-Sound (caller_close now s) p = close-Sound now s p

firsts-map : (urls : List String) → firsts (map (λ url. (url, false)) urls) ≡ length urls
firsts-map [] = refl
firsts-map (url ∷ urls) = omega (arith, firsts-map urls)

subscribe-Sound :
    (urls : List String) (cooldowns : Dict Cooldown) → Sound (subscribe urls cooldowns)
unfolding subscribe
subscribe-Sound urls cooldowns = (
  record { room = omega (arith, firsts-map (dedupe urls)); onclose = ground arith; oneose = refl },
  λ c. (refl, refl),
)

Reach-Sound : {start s : Subscription} → Sound start → Reach start s → Sound s
Reach-Sound p here = p
Reach-Sound p (next r st) = Step-Sound st (Reach-Sound p r)

module _ (urls : List String) (cooldowns : Dict Cooldown) {s : Subscription}
    (reach : Reach (subscribe urls cooldowns) s) where
  -- Once the caller has closed a subscription, no request of it is open and no retry is armed, at any
  -- later time, whatever was pending.
  pub Reach-shut : s.caller_closed ≡ true → (s.active ≡ []) × (s.retry_timers ≡ [])
  Reach-shut c = (Reach-Sound (subscribe-Sound urls cooldowns) reach).1 c

  -- The caller hears of the end of the stored events at most once, and of the end of all first
  -- subscriptions at most once.
  pub Reach-once : (s.oneose_calls ≤ 1) × (s.onclose_calls ≤ 1)
  Reach-once =
      let t = (Reach-Sound (subscribe-Sound urls cooldowns) reach).0 in
      (ground (arith, t.oneose), ground (arith, t.onclose))

  -- If a first connection failed, the caller never hears that the subscription has ended.
  pub Reach-unheard : 1 ≤ s.failed_count → s.onclose_calls ≡ 0
  Reach-unheard failed =
      let t = (Reach-Sound (subscribe-Sound urls cooldowns) reach).0 in
      ground (arith, t.onclose, t.room, failed)
