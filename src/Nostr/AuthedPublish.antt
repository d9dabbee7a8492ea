-- ===== src/Nostr/AuthedPublish.antt =====
-- packages/bridge/src/core/nostr/authed-publish.ts: `publishAuthed` as a state machine. `sent` has the
-- frames that went to the relay, in their order; `waits` counts the intervals that wait for a challenge,
-- and `resend_timers` the timers of `resendEvent`. A call of `ws.send` counts as sent.
pub mod Callbacks
pub mod Laws
use livelier.Base.{
  ℕ, suc, ◌-◌, String, Bool, true, false, not, ◌&&◌, Option, none, some, List, [], ◌∷◌, ◌++◌, ◌==◌,
  if◌then◌else◌,
}
use livelier.Base.Text.{cat, codes, begins, decimal}

pub data Frame : Type 0 where
  event : Frame
  auth : String → Frame

pub data Outcome : Type 0 where
  resolved : Outcome
  rejected : String → Outcome

pub record Publishing : Type 0 where
  pub kind : ℕ
  pub challenge : Option String
  pub auth_sent : Bool
  pub event_resent : Bool
  pub outcome : Option Outcome
  pub waits : ℕ
  pub resend_timers : ℕ
  pub sent : List Frame

unfoldable pub publish_authed : ℕ → Publishing
publish_authed kind = record {
  kind = kind;
  challenge = none;
  auth_sent = false;
  event_resent = false;
  outcome = none;
  waits = 0;
  resend_timers = 0;
  sent = [];
}

-- `settled`
unfoldable pub is_settled : Option Outcome → Bool
is_settled none = false
is_settled (some _) = true

unfoldable pub settle : Outcome → Publishing → Publishing
unfolding is_settled
settle o p = if is_settled p.outcome then p else record p { outcome = some o }

unfoldable pub resend_event : Publishing → Publishing
unfolding is_settled
resend_event p =
    if p.event_resent
    then p
    else if is_settled p.outcome
    then p
    else record p { event_resent = true; sent = p.sent ++ event ∷ [] }

-- `challenge && …`: a challenge that is not empty.
unfoldable pub given : Option String → Option String
given none = none
given (some c) = if c == "" then none else some c

unfoldable pub answer_challenge : Option String → Publishing → Publishing
answer_challenge none p = p
answer_challenge (some c) p = if p.auth_sent then p else record p {
  auth_sent = true;
  sent = p.sent ++ auth c ∷ [];
  resend_timers = suc p.resend_timers;
}

unfoldable pub send_auth : Publishing → Publishing
unfolding answer_challenge given
send_auth p = answer_challenge (given p.challenge) p

unfoldable pub on_open : Publishing → Publishing
on_open p = record p { sent = p.sent ++ event ∷ [] }

-- `['AUTH', challenge]`
unfoldable pub on_challenge : String → Publishing → Publishing
on_challenge c p = record p { challenge = some c }

-- The OK of the AUTH event, whose id is only known once it was sent.
unfoldable pub on_auth_ok : Bool → String → Publishing → Publishing
unfolding resend_event settle
on_auth_ok accepted reason p =
    if p.auth_sent
    then (if accepted
        then resend_event p
        else settle (rejected (cat "relay rejected AUTH: " reason)) p)
    else p

unfoldable pub is_auth_required : String → Bool
unfolding begins codes
is_auth_required reason = begins (codes "auth-required:") (codes reason)

-- `if (challenge) sendAuth() else { … }`
unfoldable pub auth_or_wait : Option String → Publishing → Publishing
unfolding send_auth
auth_or_wait none p = record p { waits = suc p.waits }
auth_or_wait (some _) p = send_auth p

unfoldable pub rejection : ℕ → String → Outcome
unfolding decimal
rejection kind reason = rejected (
    cat "relay rejected kind "
      (cat (decimal kind) (cat " event: " (if reason == "" then "no reason" else reason))))

-- The OK of the event itself.
unfoldable pub on_event_ok : Bool → String → Publishing → Publishing
unfolding settle auth_or_wait given is_auth_required rejection
on_event_ok accepted reason p =
    if accepted
    then settle resolved p
    else if is_auth_required reason && not p.auth_sent
    then auth_or_wait (given p.challenge) p
    else settle (rejection p.kind reason) p

-- A round of an interval that waits for the challenge.
unfoldable pub tick_at : Option String → Publishing → Publishing
unfolding send_auth
tick_at none p = p
tick_at (some _) p = send_auth (record p { waits = p.waits - 1 })

unfoldable pub on_wait_tick : Publishing → Publishing
unfolding tick_at given
on_wait_tick p = tick_at (given p.challenge) p

-- The interval is cleared after the timeout.
unfoldable pub on_wait_over : Publishing → Publishing
on_wait_over p = record p { waits = p.waits - 1 }

unfoldable pub on_resend_timer : Publishing → Publishing
unfolding resend_event
on_resend_timer p = resend_event (record p { resend_timers = p.resend_timers - 1 })

unfoldable pub on_timeout : Publishing → Publishing
unfolding settle
on_timeout p = settle (rejected "authed publish timeout") p

unfoldable pub on_error : String → Publishing → Publishing
unfolding settle
on_error reason p = settle (rejected (cat "authed publish socket error: " reason)) p
