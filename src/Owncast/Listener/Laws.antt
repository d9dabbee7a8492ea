-- ===== src/Owncast/Listener/Laws.antt =====
-- owncast-listener.ts: the bounds of the retries, dormancy, and what a stop leaves.
use livelier.Base.{
  ℕ, zero, suc, ◌+◌, ◌*◌, ◌^◌, ◌≤◌, Bool, true, false, not, ◌||◌, ◌≡◌, refl, sym, subst, ◌∙◌,
  Option, none, some, if◌then◌else◌, if-cases, is_some, leb, ltb, arith,
}
use livelier.Owncast.Listener.{
  Listener, new_listener, start, stop, go_dormant, arm, back_off, schedule_reconnect,
  on_chat_disabled, on_registered, on_open, on_close, mark_healthy, on_reconnect_timer, Step, Reach,
  here, next, starts, stops, is_disabled, registers, opens, closes, proves, fires, initial_delay_ms,
  max_reconnect_delay_ms, max_consecutive_failures, dormant_interval_ms,
}

-- The delay of an armed timer is between 15 seconds and half an hour.
abbrev pub Delay : Option ℕ → Type 0
Delay none = Unit
Delay (some d) = (initial_delay_ms ≤ d) × (d ≤ dormant_interval_ms)

abbrev pub Inv : Listener → Type 0
Inv l =
    (initial_delay_ms ≤ l.reconnect_delay_ms)
    × (l.reconnect_delay_ms ≤ max_reconnect_delay_ms)
    × Delay l.reconnect_timer
    × (leb max_consecutive_failures l.failures ≡ true → l.dormant ≡ true)
    × (l.stopped ≡ true
        → (l.socket ≡ false) × (l.healthy_timer ≡ false) × (l.reconnect_timer ≡ none))

arm-Inv :
    (d : ℕ) (l : Listener) → initial_delay_ms ≤ d → d ≤ dormant_interval_ms → Inv l → Inv (arm d l)
unfolding arm
arm-Inv d l lo hi (a, b, c, e, s) =
    if-cases Inv (l.stopped || is_some l.reconnect_timer) (λ _. (a, b, c, e, s))
      (λ n. (a, b, (lo, hi), e, λ h. ground (arith, n, h)))

back_off-Inv :
    (l : Listener)
    → initial_delay_ms ≤ l.reconnect_delay_ms
    → l.reconnect_delay_ms ≤ max_reconnect_delay_ms
    → l.stopped ≡ false
    → l.reconnect_timer ≡ none
    → Inv (back_off l)
unfolding back_off go_dormant arm
back_off-Inv l a b s n = ground arith

schedule_reconnect-Inv : (c : Bool) (l : Listener) → Inv l → Inv (schedule_reconnect c l)
unfolding schedule_reconnect
schedule_reconnect-Inv c l (a, b, d, e, s) =
    if-cases Inv (l.stopped || is_some l.reconnect_timer) (λ _. (a, b, d, e, s))
      (λ n.
        if-cases (λ (t : Listener). Inv (back_off t)) c
          (λ _.
            back_off-Inv (record l { failures = suc l.failures }) a b (ground (arith, n))
              (ground (arith, n)))
          (λ _. back_off-Inv l a b (ground (arith, n)) (ground (arith, n))))

Step-Inv : {l m : Listener} → Step l m → Inv l → Inv m
unfolding start stop go_dormant on_chat_disabled on_registered on_open on_close mark_healthy
    on_reconnect_timer
Step-Inv starts (a, b, d, e, s) =
    (omega arith, omega arith, d, λ x. ground (arith, x), λ x. ground (arith, x))
Step-Inv stops (a, b, d, e, s) = (a, b, tt, e, λ _. (refl, refl, refl))
Step-Inv {l} is_disabled (a, b, d, e, s) =
    arm-Inv dormant_interval_ms (go_dormant l) (omega arith) (omega arith) (a, b, d, (λ _. refl), s)
Step-Inv {l} (registers none) h = schedule_reconnect-Inv true l h
Step-Inv {l} (registers (some id)) (a, b, d, e, s) =
    if-cases Inv l.stopped (λ _. (a, b, d, e, s)) (λ n. (a, b, d, e, λ x. ground (arith, n, x)))
Step-Inv (opens o) (a, b, d, e, s) = (a, b, d, e, λ x. ground (arith, o, (s x).0))
Step-Inv {l} closes (a, b, d, e, s) =
    schedule_reconnect-Inv (not l.proven_healthy) (record l { healthy_timer = false })
      (a, b, d, e, λ x. ((s x).0, refl, (s x).2))
Step-Inv (proves p) (a, b, d, e, s) =
    (omega arith, omega arith, d, λ x. ground (arith, x), λ x. ground (arith, p, (s x).1))
Step-Inv (fires p) (a, b, d, e, s) = (a, b, tt, e, λ x. ground (arith, p, (s x).2))

later-Inv : {l m : Listener} → Reach l m → Inv l → Inv m
later-Inv here h = h
later-Inv (next r st) h = Step-Inv st (later-Inv r h)

-- In every state that a new listener can reach: the delay of an armed retry is between 15 seconds and half an
-- hour; five failures in a row mean dormancy; and a stopped listener has no socket and neither timer.
pub Reach-Bounded :
    (l : Listener)
    → Reach new_listener l
    → Delay l.reconnect_timer
      × (leb max_consecutive_failures l.failures ≡ true → l.dormant ≡ true)
      × (l.stopped ≡ true
          → (l.socket ≡ false) × (l.healthy_timer ≡ false) × (l.reconnect_timer ≡ none))
unfolding new_listener
Reach-Bounded l r =
    let (_, _, d, e, s) =
      later-Inv r
        (omega arith, omega arith, tt, (λ x. ground (arith, x)), λ x. ground (arith, x)) in
    (d, e, s)

-- A dial that fails, by the timer that the last one armed.
unfoldable pub failed_dial : Listener → Listener
unfolding on_registered on_reconnect_timer
failed_dial l = on_registered none (on_reconnect_timer l)

-- `n` of them in a row.
unfoldable pub failed_dials : ℕ → Listener → Listener
unfolding failed_dial
failed_dials zero l = l
failed_dials (suc n) l = failed_dial (failed_dials n l)

-- A dormant listener that runs stays dormant, and tries again after half an hour.
abbrev pub Slow : Listener → Type 0
Slow l = (l.stopped ≡ false) × (l.dormant ≡ true) × (l.reconnect_timer ≡ some dormant_interval_ms)

failed_dial-Slow : (l : Listener) → l.stopped ≡ false → l.dormant ≡ true → Slow (failed_dial l)
unfolding failed_dial on_registered on_reconnect_timer schedule_reconnect back_off go_dormant arm
failed_dial-Slow l s d = ground arith

five_dials-Slow : Slow (failed_dials 5 (start new_listener))
unfolding failed_dials failed_dial on_registered on_reconnect_timer schedule_reconnect back_off
    go_dormant arm start new_listener
five_dials-Slow = (refl, refl, refl)

failed_dials-suc : (n : ℕ) (l : Listener) → failed_dials (suc n) l ≡ failed_dial (failed_dials n l)
unfolding failed_dials
failed_dials-suc n l = refl

failed_dials-Slow : (n : ℕ) → Slow (failed_dials (n + 5) (start new_listener))
failed_dials-Slow zero = five_dials-Slow
failed_dials-Slow (suc n) =
    let (s, d, _) = failed_dials-Slow n in
    subst (λ k. Slow (failed_dials k (start new_listener))) (omega arith)
      (subst Slow (sym (failed_dials-suc (n + 5) (start new_listener)))
        (failed_dial-Slow (failed_dials (n + 5) (start new_listener)) s d))

early_dials :
    ((failed_dials 1 (start new_listener)).reconnect_timer ≡ some 15000)
    × ((failed_dials 2 (start new_listener)).reconnect_timer ≡ some 30000)
    × ((failed_dials 3 (start new_listener)).reconnect_timer ≡ some 60000)
    × ((failed_dials 4 (start new_listener)).reconnect_timer ≡ some 120000)
unfolding failed_dials failed_dial on_registered on_reconnect_timer schedule_reconnect back_off
    go_dormant arm start new_listener
early_dials = (refl, refl, refl, refl)

-- After the start, the dial that fails for the `n + 1`-st time in a row is retried after 15, 30, 60 and 120
-- seconds for `n` from 0 to 3, and from then on every half hour.
pub failed_dials-delay :
    (n : ℕ)
    → (failed_dials (suc n) (start new_listener)).reconnect_timer
      ≡ some (if ltb n 4 then initial_delay_ms * 2 ^ n else dormant_interval_ms)
failed_dials-delay zero = early_dials.0
failed_dials-delay (suc zero) = early_dials.1
failed_dials-delay (suc (suc zero)) = early_dials.2
failed_dials-delay (suc (suc (suc zero))) = early_dials.3
failed_dials-delay (suc (suc (suc (suc n)))) =
    subst (λ k. (failed_dials k (start new_listener)).reconnect_timer ≡ some dormant_interval_ms)
      (omega arith) (failed_dials-Slow n).2
    ∙ ground arith
