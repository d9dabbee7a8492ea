-- ===== src/Client/Subscription.antt =====
-- client.service.ts: `subscribe` as a state machine. `connecting` holds the calls of `openOnRelay`
-- whose `ensureRelay` is pending, and `active` the open subscriptions, each with the flag `isRetry`;
-- `retry_timers` has the relay and the due time of each timer. The calls of the caller's `oneose` and
-- `onclose` are counted, and so are the first connections that failed. An event is handed on to the
-- caches and to the caller, which this state does not hold.
pub mod Tally
pub mod Laws
mod Tests
use livelier.Base.{
  ℕ, suc, ◌+◌, ◌-◌, max, String, Bool, true, false, not, ◌&&◌, Option, none, some, List, [], ◌∷◌,
  ◌++◌, map, length, leb, if◌then◌else◌, ◌==◌,
}
use livelier.Base.Dict.{Dict, lookup, insert, erase}
use livelier.Base.Keys.{dedupe}
use livelier.Client.Cooldown.{
  Cooldown, relay_cooldown_base_ms, is_rate_limit_reason, mark_relay_rate_limited,
  note_relay_answered,
}

pub record Subscription : Type 0 where
  pub started_count : ℕ
  pub eosed_count : ℕ
  pub eosed : Bool
  pub closed_count : ℕ
  pub caller_closed : Bool
  pub connecting : List (String × Bool)
  pub active : Dict Bool
  pub retry_timers : List (String × ℕ)
  pub cooldowns : Dict Cooldown
  pub oneose_calls : ℕ
  pub onclose_calls : ℕ
  pub failed_count : ℕ

-- `relays.forEach((url) => openOnRelay(url, false))`
unfoldable pub subscribe : List String → Dict Cooldown → Subscription
unfolding dedupe
subscribe urls cooldowns = record {
  started_count = length (dedupe urls);
  eosed_count = 0;
  eosed = false;
  closed_count = 0;
  caller_closed = false;
  connecting = map (λ url. (url, false)) (dedupe urls);
  active = [];
  retry_timers = [];
  cooldowns = cooldowns;
  oneose_calls = 0;
  onclose_calls = 0;
  failed_count = 0;
}

unfoldable pub note_eose : Subscription → Subscription
note_eose s =
    if s.eosed
    then s
    else if leb s.started_count (suc s.eosed_count)
    then record s {
      eosed_count = suc s.eosed_count;
      eosed = true;
      oneose_calls = suc s.oneose_calls;
    }
    else record s { eosed_count = suc s.eosed_count }

-- `ensureRelay` resolves for a pending call, which is no longer pending.
unfoldable pub on_connected : String → Bool → Subscription → Subscription
on_connected url is_retry s =
    if s.caller_closed then s else record s { active = insert url is_retry s.active }

-- `ensureRelay` rejects, or the subscription throws.
unfoldable pub on_connect_failed : Bool → Subscription → Subscription
unfolding note_eose
on_connect_failed true s = s
on_connect_failed false s = note_eose (record s { failed_count = suc s.failed_count })

unfoldable pub on_eose : ℕ → String → Bool → Subscription → Subscription
unfolding note_eose
on_eose now url true s = record s { cooldowns = note_relay_answered now url s.cooldowns }
on_eose now url false s = note_eose s

-- `(cooldown?.until ?? 0) - Date.now()`, at least the base.
unfoldable pub retry_delay : ℕ → Option Cooldown → ℕ
retry_delay now none = relay_cooldown_base_ms
retry_delay now (some c) = max (c.until - now) relay_cooldown_base_ms

-- The part of `onclose` for a rate limit.
unfoldable pub rate_limited : ℕ → String → Subscription → Subscription
unfolding retry_delay
rate_limited now url s =
    let cooldowns = (mark_relay_rate_limited now url s.cooldowns).0 in
    if s.caller_closed then record s { cooldowns = cooldowns } else record s {
      cooldowns = cooldowns;
      retry_timers = (url, now + retry_delay now (lookup url cooldowns)) ∷ s.retry_timers;
    }

-- The tally of `onclose`, for a first subscription.
unfoldable pub note_close : Bool → Subscription → Subscription
note_close true s = s
note_close false s =
    if leb s.started_count (suc s.closed_count)
    then record s { closed_count = suc s.closed_count; onclose_calls = suc s.onclose_calls }
    else record s { closed_count = suc s.closed_count }

unfoldable pub on_close : ℕ → String → String → Bool → Subscription → Subscription
unfolding rate_limited note_close
on_close now url reason is_retry s =
    let s1 = record s { active = erase url s.active } in
    note_close is_retry (
      if not (reason == "closed by caller") && is_rate_limit_reason reason
      then rate_limited now url s1
      else s1)

-- A retry timer fires, which is no longer armed.
unfoldable pub on_retry_timer : String → Subscription → Subscription
on_retry_timer url s =
    if s.caller_closed then s else record s { connecting = (url, true) ∷ s.connecting }

-- `activeSubs.forEach((sub) => sub.close())`: each closes 'by caller'.
unfoldable pub close_subs : ℕ → Dict Bool → Subscription → Subscription
unfolding on_close
close_subs now [] s = s
close_subs now ((url, is_retry) ∷ rest) s =
    close_subs now rest (on_close now url "closed by caller" is_retry s)

unfoldable pub close : ℕ → Subscription → Subscription
unfolding close_subs
close now s =
    let s1 = record s { caller_closed = true; retry_timers = [] } in
    record (close_subs now s1.active s1) { active = [] }
