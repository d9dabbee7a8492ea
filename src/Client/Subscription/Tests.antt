-- ===== src/Client/Subscription/Tests.antt =====
-- Standing subscriptions on concrete runs.
use livelier.Base.{true, false, ◌≡◌, refl, some, [], ◌∷◌, arith}
use livelier.Base.Keys.{add, add_all}
use livelier.Base.Dict.{insert, lookup, erase}
use livelier.Base.Text.{includes}
use livelier.Client.Cooldown.{is_rate_limit_reason, lower_codes}
use livelier.Client.Subscription.{
  Subscription, subscribe, on_connected, on_connect_failed, on_close, close, close_subs, note_eose,
  note_close, rate_limited,
}
use livelier.Client.Subscription.Tally.{
  Reach, here, next, connected, connect_failed, caller_close, sub_closed,
}
use livelier.Client.Subscription.Laws.{Reach-shut, Reach-unheard}

abbrev subscribed : Subscription
subscribed = subscribe ("a" ∷ "b" ∷ []) []

-- The first relay is open, the second one was not reached.
abbrev opened : Subscription
opened = on_connected "a" false (record subscribed { connecting = ("b", false) ∷ [] })

abbrev half : Subscription
half = on_connect_failed false (record opened { connecting = [] })

half-Reach : Reach subscribed half
unfolding subscribe on_connected add add_all
half-Reach =
    next (next here (connected "a" false [] (("b", false) ∷ []) subscribed refl))
      (connect_failed "b" false [] [] opened refl)

abbrev shut : Subscription
shut = close 50 half

is_shut : shut.caller_closed ≡ true
unfolding subscribe on_connected on_connect_failed note_eose close close_subs on_close rate_limited
    note_close add add_all insert erase
is_shut = refl

Reach-shut_example : (shut.active ≡ []) × (shut.retry_timers ≡ [])
Reach-shut_example = Reach-shut ("a" ∷ "b" ∷ []) [] (next half-Reach (caller_close 50 half)) is_shut

-- The open one ends as well.
abbrev over : Subscription
over = on_close 60 "a" "closed" false half

a_open : lookup "a" half.active ≡ some false
unfolding lookup on_connected on_connect_failed note_eose subscribe add_all add insert
a_open = refl

one_failed : over.failed_count ≡ 1
unfolding subscribe on_connected on_connect_failed note_eose on_close rate_limited note_close add
    add_all insert erase is_rate_limit_reason lower_codes includes
one_failed = refl

Reach-unheard_example : over.onclose_calls ≡ 0
Reach-unheard_example =
    Reach-unheard ("a" ∷ "b" ∷ []) []
      (next half-Reach (sub_closed 60 "a" "closed" false half a_open)) (omega (arith, one_failed))
