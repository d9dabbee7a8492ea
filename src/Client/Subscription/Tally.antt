-- ===== src/Client/Subscription/Tally.antt =====
-- client.service.ts: the callbacks of a standing subscription as a step relation, and the tallies that
-- each of them keeps.
use livelier.Base.{
  ℕ, suc, ◌+◌, ◌≤◌, String, Bool, true, false, ◌&&◌, ◌≡◌, refl, some, List, [], ◌∷◌, ◌++◌, leb,
  if◌then◌else◌, if-cases, arith, ap,
}
use livelier.Base.Dict.{Dict, lookup, insert, erase}
use livelier.Client.Subscription.{
  Subscription, note_eose, on_connected, on_connect_failed, on_eose, rate_limited, note_close,
  on_close, on_retry_timer, close,
}

-- The callbacks, in any order: a pending connection ends, an open subscription reaches EOSE or ends,
-- an armed timer fires, and the caller closes.
pub data Step : Subscription → Subscription → Type 0 where
  connected :
      (url : String) (is_retry : Bool) (before after : List (String × Bool)) (s : Subscription)
      → s.connecting ≡ before ++ (url, is_retry) ∷ after
      → Step s (on_connected url is_retry (record s { connecting = before ++ after }))
  connect_failed :
      (url : String) (is_retry : Bool) (before after : List (String × Bool)) (s : Subscription)
      → s.connecting ≡ before ++ (url, is_retry) ∷ after
      → Step s (on_connect_failed is_retry (record s { connecting = before ++ after }))
  eose :
      (now : ℕ) (url : String) (is_retry : Bool) (s : Subscription)
      → Step s (on_eose now url is_retry s)
  sub_closed :
      (now : ℕ) (url reason : String) (is_retry : Bool) (s : Subscription)
      → lookup url s.active ≡ some is_retry
      → Step s (on_close now url reason is_retry s)
  retry_timer :
      (url : String) (due : ℕ) (before after : List (String × ℕ)) (s : Subscription)
      → s.retry_timers ≡ before ++ (url, due) ∷ after
      → Step s (on_retry_timer url (record s { retry_timers = before ++ after }))
  caller_close : (now : ℕ) (s : Subscription) → Step s (close now s)

pub data Reach (start : Subscription) : Subscription → Type 0 where
  here : Reach start start
  next : {s t : Subscription} → Reach start s → Step s t → Reach start t

-- How many first connections are pending, and how many first subscriptions are open.
abbrev pub firsts : List (String × Bool) → ℕ
firsts [] = 0
firsts ((_, is_retry) ∷ rest) = (if is_retry then 0 else 1) + firsts rest

-- Each first connection is pending, among `k` open ones, closed, failed or dropped; `onclose` was
-- called once all were closed, `oneose` with the flag.
pub record Tallied (k : ℕ) (s : Subscription) : Type 0 where
  pub room : firsts s.connecting + k + s.closed_count + s.failed_count ≤ s.started_count
  pub onclose :
      s.onclose_calls
      ≡ (if leb s.started_count s.closed_count && leb 1 s.closed_count then 1 else 0)
  pub oneose : s.oneose_calls ≡ (if s.eosed then 1 else 0)

-- After the caller's `close` nothing is open and no timer is armed.
abbrev pub IsShut : Subscription → Type 0
IsShut s = s.caller_closed ≡ true → (s.active ≡ []) × (s.retry_timers ≡ [])

abbrev pub Sound : Subscription → Type 0
Sound s = Tallied (firsts s.active) s × IsShut s

pub firsts-append : (xs ys : List (String × Bool)) → firsts (xs ++ ys) ≡ firsts xs + firsts ys
firsts-append [] ys = omega arith
firsts-append (x ∷ xs) ys = omega (arith, firsts-append xs ys)

firsts-insert-le :
    (url : String) (r : Bool) (m : Dict Bool)
    → firsts (insert url r m) ≤ firsts m + (if r then 0 else 1)
unfolding insert
firsts-insert-le url r [] = ground arith
firsts-insert-le url r ((i, q) ∷ m) = ground (arith, firsts-insert-le url r m)

firsts-erase-le : (url : String) (m : Dict Bool) → firsts (erase url m) ≤ firsts m
unfolding erase
firsts-erase-le url [] = omega arith
firsts-erase-le url ((i, q) ∷ m) = ground (arith, firsts-erase-le url m)

pub firsts-erase :
    (url : String) (r : Bool) (m : Dict Bool)
    → lookup url m ≡ some r
    → firsts (erase url m) + (if r then 0 else 1) ≤ firsts m
unfolding erase lookup
firsts-erase url r [] h = absurd (ground (arith, h))
firsts-erase url r ((i, q) ∷ m) h = ground (arith, h, firsts-erase-le url m, firsts-erase url r m)

pub note_close-Tallied :
    (r : Bool) (k : ℕ) (s : Subscription)
    → Tallied ((if r then 0 else 1) + k) s
    → Tallied k (note_close r s)
unfolding note_close
note_close-Tallied true k s t = record {
  room = omega (arith, t.room);
  onclose = t.onclose;
  oneose = t.oneose;
}
note_close-Tallied false k s t =
    if-cases (Tallied k) (leb s.started_count (suc s.closed_count))
      (λ y. record {
        room = omega (arith, t.room);
        onclose = ground (arith, y, t.onclose, t.room);
        oneose = t.oneose;
      })
      (λ n. record {
        room = omega (arith, t.room);
        onclose = ground (arith, n, t.onclose, t.room);
        oneose = t.oneose;
      })

note_close-IsShut : (r : Bool) (s : Subscription) → IsShut s → IsShut (note_close r s)
unfolding note_close
note_close-IsShut true s h = h
note_close-IsShut false s h =
    if-cases IsShut (leb s.started_count (suc s.closed_count)) (λ _. h) (λ _. h)

note_eose-Sound : (s : Subscription) → Tallied (firsts s.active) s → IsShut s → Sound (note_eose s)
unfolding note_eose
note_eose-Sound s t h =
    if-cases Sound s.eosed (λ _. (t, h))
      (λ n.
        if-cases Sound (leb s.started_count (suc s.eosed_count))
          (λ _. (
            record { room = t.room; onclose = t.onclose; oneose = ground (arith, n, t.oneose) },
            h,
          ))
          (λ _. (record { room = t.room; onclose = t.onclose; oneose = t.oneose }, h)))

pub on_connected-Sound :
    (url : String) (r : Bool) (s : Subscription)
    → Tallied (firsts s.active + (if r then 0 else 1)) s
    → IsShut s
    → Sound (on_connected url r s)
unfolding on_connected
on_connected-Sound url r s t h =
    if-cases Sound s.caller_closed
      (λ _. (record { room = omega (arith, t.room); onclose = t.onclose; oneose = t.oneose }, h))
      (λ n. (
        record {
          room = omega (arith, t.room, firsts-insert-le url r s.active);
          onclose = t.onclose;
          oneose = t.oneose;
        },
        λ c. absurd (ground (arith, n, c)),
      ))

pub on_connect_failed-Sound :
    (r : Bool) (s : Subscription)
    → Tallied (firsts s.active + (if r then 0 else 1)) s
    → IsShut s
    → Sound (on_connect_failed r s)
unfolding on_connect_failed
on_connect_failed-Sound true s t h =
    (record { room = omega (arith, t.room); onclose = t.onclose; oneose = t.oneose }, h)
on_connect_failed-Sound false s t h =
    let s' = record s { failed_count = suc s.failed_count } in
    (note_eose-Sound s'
      (record { room = omega (arith, t.room); onclose = t.onclose; oneose = t.oneose }) h)

pub on_eose-Sound :
    (now : ℕ) (url : String) (r : Bool) (s : Subscription) → Sound s → Sound (on_eose now url r s)
unfolding on_eose
on_eose-Sound now url true s (t, h) =
    (record { room = t.room; onclose = t.onclose; oneose = t.oneose }, h)
on_eose-Sound now url false s (t, h) = note_eose-Sound s t h

pub rate_limited_sound :
    (now : ℕ) (url : String) (k : ℕ) (s : Subscription)
    → Tallied k s
    → IsShut s
    → Tallied k (rate_limited now url s)
      × IsShut (rate_limited now url s)
      × ((rate_limited now url s).active ≡ s.active)
unfolding rate_limited
rate_limited_sound now url k s t h =
    if-cases (λ x. Tallied k x × IsShut x × (x.active ≡ s.active)) s.caller_closed
      (λ _. (record { room = t.room; onclose = t.onclose; oneose = t.oneose }, h, refl))
      (λ n. (
        record { room = t.room; onclose = t.onclose; oneose = t.oneose },
        λ c. absurd (ground (arith, n, c)),
        refl,
      ))

active-note_close : (r : Bool) (s : Subscription) → (note_close r s).active ≡ s.active
unfolding note_close
active-note_close true s = refl
active-note_close false s =
    if-cases (λ (x : Subscription). x.active ≡ s.active) (leb s.started_count (suc s.closed_count))
      (λ _. refl) (λ _. refl)

pub timers-note_close :
    (r : Bool) (s : Subscription) → (note_close r s).retry_timers ≡ s.retry_timers
unfolding note_close
timers-note_close true s = refl
timers-note_close false s =
    if-cases (λ (x : Subscription). x.retry_timers ≡ s.retry_timers)
      (leb s.started_count (suc s.closed_count)) (λ _. refl) (λ _. refl)

pub erase_nil : (url : String) → erase {V = Bool} url [] ≡ []
unfolding erase
erase_nil url = refl

pub settle_close :
    (r : Bool) (k : ℕ) (s : Subscription)
    → Tallied ((if r then 0 else 1) + k) s
    → IsShut s
    → firsts s.active ≤ k
    → Sound (note_close r s)
settle_close r k s t h le =
    let t' = note_close-Tallied r k s t in
    (
      record {
        room = omega (arith, t'.room, le, ap firsts (active-note_close r s));
        onclose = t'.onclose;
        oneose = t'.oneose;
      },
      note_close-IsShut r s h,
    )
