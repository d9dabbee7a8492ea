-- ===== src/Nostr/AuthedPublish/Laws.antt =====
-- authed-publish.ts: what a publication sends, and what it reports.
use livelier.Base.{ℕ, ◌+◌, ◌≤◌, String, Bool, true, false, ◌≡◌, refl, arith, subst}
use livelier.Nostr.AuthedPublish.{
  Publishing, publish_authed, given, on_open, on_challenge, on_auth_ok, on_event_ok, on_wait_tick,
  on_wait_over, on_resend_timer, on_timeout, on_error,
}
use livelier.Nostr.AuthedPublish.Callbacks.{
  events, auths, is_resolved, IsSound, waits-IsSound, tick_at-IsSound, refused-IsSound,
  on_auth_ok-IsSound, rejects-IsSound, on_resend_timer-IsSound, accepts-IsSound, opens-IsSound,
}

-- A publication with what the relay did: whether the socket opened, and whether it accepted the event.
pub record Exchange : Type 0 where
  pub publishing : Publishing
  pub opened : Bool
  pub accepted : Bool

pub data Step : Exchange → Exchange → Type 0 where
  opens :
      (x : Exchange)
      → x.opened ≡ false
      → Step x (record x { publishing = on_open x.publishing; opened = true })
  challenges :
      (c : String) (x : Exchange) → Step x (record x { publishing = on_challenge c x.publishing })
  auth_ok :
      (taken : Bool) (reason : String) (x : Exchange)
      → Step x (record x { publishing = on_auth_ok taken reason x.publishing })
  accepts :
      (x : Exchange)
      → Step x (record x { publishing = on_event_ok true "" x.publishing; accepted = true })
  rejects :
      (reason : String) (x : Exchange)
      → Step x (record x { publishing = on_event_ok false reason x.publishing })
  wait_tick :
      (x : Exchange)
      → 1 ≤ x.publishing.waits
      → Step x (record x { publishing = on_wait_tick x.publishing })
  wait_over :
      (x : Exchange)
      → 1 ≤ x.publishing.waits
      → Step x (record x { publishing = on_wait_over x.publishing })
  resend_timer :
      (x : Exchange)
      → 1 ≤ x.publishing.resend_timers
      → Step x (record x { publishing = on_resend_timer x.publishing })
  timeout : (x : Exchange) → Step x (record x { publishing = on_timeout x.publishing })
  fails :
      (reason : String) (x : Exchange)
      → Step x (record x { publishing = on_error reason x.publishing })

abbrev pub begun : ℕ → Exchange
begun kind = record { publishing = publish_authed kind; opened = false; accepted = false }

pub data Reach : Exchange → Type 0 where
  here : (kind : ℕ) → Reach (begun kind)
  next : {x y : Exchange} → Reach x → Step x y → Reach y

Sound : Exchange → Type 0
Sound x = IsSound x.opened x.accepted x.publishing

Step-Sound : {x y : Exchange} → Step x y → Sound x → Sound y
unfolding Sound
Step-Sound (opens x closed) s =
    opens-IsSound x.accepted x.publishing (subst (λ o. IsSound o x.accepted x.publishing) closed s)
Step-Sound (challenges c x) s =
    unfold on_challenge in
    record {
      counted = s.counted;
      authed = s.authed;
      again = s.again;
      timed = s.timed;
      truthful = s.truthful;
    }
Step-Sound (auth_ok taken reason x) s = on_auth_ok-IsSound taken reason x.publishing s
Step-Sound (accepts x) s = accepts-IsSound x.opened x.accepted x.publishing s
Step-Sound (rejects reason x) s = rejects-IsSound reason x.publishing s
Step-Sound (wait_tick x _) s =
    unfold on_wait_tick in tick_at-IsSound (given x.publishing.challenge) x.publishing s
Step-Sound (wait_over x _) s = unfold on_wait_over in waits-IsSound _ x.publishing s
Step-Sound (resend_timer x armed) s = on_resend_timer-IsSound x.publishing armed s
Step-Sound (timeout x) s = unfold on_timeout in refused-IsSound _ x.publishing s
Step-Sound (fails reason x) s = unfold on_error in refused-IsSound _ x.publishing s

Reach-Sound : {x : Exchange} → Reach x → Sound x
unfolding Sound publish_authed
Reach-Sound (here kind) = record {
  counted = refl;
  authed = refl;
  again = λ h. absurd (ground (arith, h));
  timed = λ _. refl;
  truthful = λ h. absurd (ground (arith, h));
}
Reach-Sound (next r st) = Step-Sound st (Reach-Sound r)

-- However the relay answers, and however the timers fire, a publication sends its event at most twice,
-- and a second time only after it answered a challenge, which it does at most once; and it resolves
-- only if the relay accepted the event.
pub Reach-accepted :
    {x : Exchange}
    → Reach x
    → (events x.publishing.sent ≤ 1 + auths x.publishing.sent)
      × (auths x.publishing.sent ≤ 1)
      × (is_resolved x.publishing.outcome ≡ true → x.accepted ≡ true)
unfolding Sound
Reach-accepted {x} r =
    let s = Reach-Sound r in
    (ground (arith, s.counted, s.authed, s.again), ground (arith, s.authed), s.truthful)
