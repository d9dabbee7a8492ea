-- ===== src/Nostr/AuthedPublish/Callbacks.antt =====
-- authed-publish.ts: what each callback keeps of the counts of frames and of the flags.
use livelier.Base.{
  ℕ, suc, ◌+◌, ◌-◌, ◌≤◌, String, Bool, true, false, not, ◌&&◌, ◌≡◌, refl, Option, none, some, List,
  [], ◌∷◌, ◌++◌, if◌then◌else◌, if-cases, arith,
}
use livelier.Nostr.AuthedPublish.{
  Frame, event, auth, Outcome, resolved, rejected, Publishing, is_settled, settle, resend_event,
  given, answer_challenge, send_auth, on_open, on_auth_ok, is_auth_required, rejection,
  auth_or_wait, on_event_ok, tick_at, on_resend_timer,
}

abbrev pub events : List Frame → ℕ
events [] = 0
events (event ∷ fs) = 1 + events fs
events (auth c ∷ fs) = events fs

abbrev pub auths : List Frame → ℕ
auths [] = 0
auths (event ∷ fs) = auths fs
auths (auth c ∷ fs) = 1 + auths fs

abbrev pub is_resolved : Option Outcome → Bool
is_resolved none = false
is_resolved (some resolved) = true
is_resolved (some (rejected _)) = false

abbrev pub one_if : Bool → ℕ
one_if b = if b then 1 else 0

-- Each EVENT is the first one or the one that was sent again, the AUTH is the one that the flag notes,
-- the event is only sent again once there was an AUTH, and a success is an acceptance.
pub record IsSound (opened accepted : Bool) (p : Publishing) : Type 0 where
  pub counted : events p.sent ≡ one_if opened + one_if p.event_resent
  pub authed : auths p.sent ≡ one_if p.auth_sent
  pub again : p.event_resent ≡ true → p.auth_sent ≡ true
  pub timed : p.auth_sent ≡ false → p.resend_timers ≡ 0
  pub truthful : is_resolved p.outcome ≡ true → accepted ≡ true

events-append : (xs ys : List Frame) → events (xs ++ ys) ≡ events xs + events ys
events-append [] ys = omega arith
events-append (event ∷ xs) ys = omega (arith, events-append xs ys)
events-append (auth c ∷ xs) ys = events-append xs ys

auths-append : (xs ys : List Frame) → auths (xs ++ ys) ≡ auths xs + auths ys
auths-append [] ys = omega arith
auths-append (event ∷ xs) ys = auths-append xs ys
auths-append (auth c ∷ xs) ys = omega (arith, auths-append xs ys)

module _ {opened accepted : Bool} where
  settle-IsSound :
      (o : Outcome) (p : Publishing)
      → (is_resolved (some o) ≡ true → accepted ≡ true)
      → IsSound opened accepted p
      → IsSound opened accepted (settle o p)
  unfolding settle
  settle-IsSound o p honest s =
      if-cases (IsSound opened accepted) (is_settled p.outcome) (λ _. s)
        (λ _. record {
          counted = s.counted;
          authed = s.authed;
          again = s.again;
          timed = s.timed;
          truthful = honest;
        })

  resend_event-IsSound :
      (p : Publishing)
      → p.auth_sent ≡ true
      → IsSound opened accepted p
      → IsSound opened accepted (resend_event p)
  unfolding resend_event
  resend_event-IsSound p authed s =
      if-cases (IsSound opened accepted) p.event_resent (λ _. s)
        (λ first.
          if-cases (IsSound opened accepted) (is_settled p.outcome) (λ _. s)
            (λ _. record {
              counted = ground (arith, s.counted, first, events-append p.sent (event ∷ []));
              authed = ground (arith, s.authed, auths-append p.sent (event ∷ []));
              again = λ _. authed;
              timed = s.timed;
              truthful = s.truthful;
            }))

  answer_challenge-IsSound :
      (o : Option String) (p : Publishing)
      → IsSound opened accepted p
      → IsSound opened accepted (answer_challenge o p)
  unfolding answer_challenge
  answer_challenge-IsSound none p s = s
  answer_challenge-IsSound (some c) p s =
      if-cases (IsSound opened accepted) p.auth_sent (λ _. s)
        (λ first. record {
          counted = ground (arith, s.counted, events-append p.sent (auth c ∷ []));
          authed = ground (arith, s.authed, first, auths-append p.sent (auth c ∷ []));
          again = λ _. refl;
          timed = λ h. absurd (ground (arith, h));
          truthful = s.truthful;
        })

  send_auth-IsSound :
      (p : Publishing) → IsSound opened accepted p → IsSound opened accepted (send_auth p)
  unfolding send_auth
  send_auth-IsSound p s = answer_challenge-IsSound (given p.challenge) p s

  -- A change of the intervals that wait.
  pub waits-IsSound :
      (n : ℕ) (p : Publishing)
      → IsSound opened accepted p
      → IsSound opened accepted (record p { waits = n })
  waits-IsSound n p s = record {
    counted = s.counted;
    authed = s.authed;
    again = s.again;
    timed = s.timed;
    truthful = s.truthful;
  }

  auth_or_wait-IsSound :
      (o : Option String) (p : Publishing)
      → IsSound opened accepted p
      → IsSound opened accepted (auth_or_wait o p)
  unfolding auth_or_wait
  auth_or_wait-IsSound none p s = waits-IsSound (suc p.waits) p s
  auth_or_wait-IsSound (some c) p s = send_auth-IsSound p s

  pub tick_at-IsSound :
      (o : Option String) (p : Publishing)
      → IsSound opened accepted p
      → IsSound opened accepted (tick_at o p)
  unfolding tick_at
  tick_at-IsSound none p s = s
  tick_at-IsSound (some c) p s =
      send_auth-IsSound (record p { waits = p.waits - 1 }) (waits-IsSound (p.waits - 1) p s)

  pub refused-IsSound :
      (reason : String) (p : Publishing)
      → IsSound opened accepted p
      → IsSound opened accepted (settle (rejected reason) p)
  refused-IsSound reason p s =
      settle-IsSound (rejected reason) p (λ h. absurd (ground (arith, h))) s

  pub on_auth_ok-IsSound :
      (taken : Bool) (reason : String) (p : Publishing)
      → IsSound opened accepted p
      → IsSound opened accepted (on_auth_ok taken reason p)
  unfolding on_auth_ok
  on_auth_ok-IsSound taken reason p s =
      if-cases (IsSound opened accepted) p.auth_sent
        (λ authed.
          if-cases (IsSound opened accepted) taken (λ _. resend_event-IsSound p authed s)
            (λ _. refused-IsSound _ p s))
        (λ _. s)

  pub rejects-IsSound :
      (reason : String) (p : Publishing)
      → IsSound opened accepted p
      → IsSound opened accepted (on_event_ok false reason p)
  unfolding on_event_ok rejection
  rejects-IsSound reason p s =
      if-cases (IsSound opened accepted) (is_auth_required reason && not p.auth_sent)
        (λ _. auth_or_wait-IsSound (given p.challenge) p s) (λ _. refused-IsSound _ p s)

  pub on_resend_timer-IsSound :
      (p : Publishing)
      → 1 ≤ p.resend_timers
      → IsSound opened accepted p
      → IsSound opened accepted (on_resend_timer p)
  unfolding on_resend_timer
  on_resend_timer-IsSound p armed s =
      let authed : p.auth_sent ≡ true = ground (arith, s.timed, armed) in
      resend_event-IsSound (record p { resend_timers = p.resend_timers - 1 }) authed
        record {
          counted = s.counted;
          authed = s.authed;
          again = s.again;
          timed = λ h. absurd (ground (arith, h, authed));
          truthful = s.truthful;
        }

pub accepts-IsSound :
    (opened accepted : Bool) (p : Publishing)
    → IsSound opened accepted p
    → IsSound opened true (on_event_ok true "" p)
unfolding on_event_ok
accepts-IsSound opened accepted p s =
    settle-IsSound resolved p (λ _. refl)
      record {
        counted = s.counted;
        authed = s.authed;
        again = s.again;
        timed = s.timed;
        truthful = λ _. refl;
      }

pub opens-IsSound :
    (accepted : Bool) (p : Publishing)
    → IsSound false accepted p
    → IsSound true accepted (on_open p)
unfolding on_open
opens-IsSound accepted p s = record {
  counted = omega (arith, s.counted, events-append p.sent (event ∷ []));
  authed = omega (arith, s.authed, auths-append p.sent (event ∷ []));
  again = s.again;
  timed = s.timed;
  truthful = s.truthful;
}
