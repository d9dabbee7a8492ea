-- ===== src/Client/Cooldown/Laws.antt =====
-- client.service.ts: how often a relay can be severed for its rate limit, and for how long.
use livelier.Base.{
  ℕ, ◌+◌, ◌-◌, ◌≤◌, String, Bool, true, false, ◌&&◌, ◌≡◌, refl, Option, none, some, List, [], ◌∷◌,
  leb, ◌==◌, if◌then◌else◌, if-cases, arith, eq_iff, Bool-cases, inl, inr, ◌⊎◌, sym, subst,
}
use livelier.Base.Numbers.{pow2-pos}
use livelier.Base.Dict.{Dict, lookup, insert, lookup-insert, lookup-erase}
use livelier.Client.Cooldown.{
  Cooldown, relay_cooldown_base_ms, relay_cooldown_max_ms, is_active, next_cooldown, strikes_of,
  mark_relay_rate_limited, note_relay_answered,
}

-- What relays do: they refuse with a rate limit, or answer, at a time.
pub data Reply : Type 0 where
  limited : ℕ → String → Reply
  answers : ℕ → String → Reply

abbrev pub time_of : Reply → ℕ
time_of (limited now url) = now
time_of (answers now url) = now

abbrev pub take_reply : Reply → Dict Cooldown → Dict Cooldown
take_reply (limited now url) cooldowns = (mark_relay_rate_limited now url cooldowns).0
take_reply (answers now url) cooldowns = note_relay_answered now url cooldowns

-- That a reply severs the socket of a relay.
abbrev pub severs : String → Reply → Dict Cooldown → Bool
severs j (limited now url) cooldowns = url == j && (mark_relay_rate_limited now url cooldowns).1
severs j (answers now url) cooldowns = false

-- The times at which the socket of a relay is severed.
abbrev pub severed_at : String → List Reply → Dict Cooldown → List ℕ
severed_at j [] cooldowns = []
severed_at j (r ∷ rs) cooldowns =
    let rest = severed_at j rs (take_reply r cooldowns) in
    if severs j r cooldowns then time_of r ∷ rest else rest

abbrev pub Ascending : ℕ → List Reply → Type 0
Ascending now [] = Unit
Ascending now (r ∷ rs) = (now ≤ time_of r) × Ascending (time_of r) rs

-- Each time is `gap` after the one before, at least.
abbrev pub Spaced : ℕ → ℕ → List ℕ → Type 0
Spaced gap from [] = Unit
Spaced gap from (t ∷ ts) = (from ≤ t) × Spaced gap (t + gap) ts

-- Until `b` the relay is not severed again: it is past, or the cooldown lasts as long.
Guard : ℕ → ℕ → Option Cooldown → Type 0
Guard b now none = b ≤ now
Guard b now (some c) = (b ≤ now) ⊎ (b ≤ c.until)

next_cooldown-until :
    (now : ℕ) (prev : Option Cooldown)
    → (now + relay_cooldown_base_ms ≤ (next_cooldown now prev).until)
      × ((next_cooldown now prev).until ≤ now + relay_cooldown_max_ms)
unfolding next_cooldown
next_cooldown-until now prev = (omega (arith, pow2-pos (strikes_of prev + 1 - 1)), omega arith)

Guard-later :
    (b now later : ℕ) (o : Option Cooldown) → now ≤ later → Guard b now o → Guard b later o
unfolding Guard
Guard-later b now later none le g = omega arith
Guard-later b now later (some c) le (inl g) = inl (omega arith)
Guard-later b now later (some c) le (inr g) = inr g

Guard-inactive :
    (b now : ℕ) (o : Option Cooldown) → is_active now o ≡ false → Guard b now o → b ≤ now
unfolding Guard is_active
Guard-inactive b now none h g = g
Guard-inactive b now (some c) h (inl g) = g
Guard-inactive b now (some c) h (inr g) = ground (arith, h, g)

-- What an answer leaves of the relay's entry.
answered : ℕ → Option Cooldown → Option Cooldown
answered now none = none
answered now (some c) = if leb c.until now then none else some c

lookup-note_relay_answered :
    (now : ℕ) (url j : String) (m : Dict Cooldown)
    → lookup j (note_relay_answered now url m)
      ≡ (if url == j then answered now (lookup j m) else lookup j m)
unfolding note_relay_answered answered
lookup-note_relay_answered now url j m = ground (arith, eq_iff url j, lookup-erase url j m)

Guard-answered : (b now : ℕ) (o : Option Cooldown) → Guard b now o → Guard b now (answered now o)
unfolding Guard answered
Guard-answered b now none g = g
Guard-answered b now (some c) g = elim (Bool-cases (leb c.until now)) [
  | inl y ↦ rw y (elim g [ inl h ↦ h | inr h ↦ ground (arith, y, h) ])
  | inr n ↦ rw n g
]

-- A relay that is cooling down is left alone; any other gets its next cooldown and is severed.
mark_active :
    (now : ℕ) (url : String) (m : Dict Cooldown)
    → is_active now (lookup url m) ≡ true
    → mark_relay_rate_limited now url m ≡ (m, false)
unfolding mark_relay_rate_limited
mark_active now url m h = rw h refl

mark_inactive :
    (now : ℕ) (url : String) (m : Dict Cooldown)
    → is_active now (lookup url m) ≡ false
    → mark_relay_rate_limited now url m ≡ (insert url (next_cooldown now (lookup url m)) m, true)
unfolding mark_relay_rate_limited
mark_inactive now url m h = rw h refl

Guard-new :
    (now : ℕ) (prev : Option Cooldown)
    → Guard (now + relay_cooldown_base_ms) now (some (next_cooldown now prev))
unfolding Guard
Guard-new now prev = inr (next_cooldown-until now prev).0

-- What holds after a refusal, on what `mark_relay_rate_limited` gave.
abbrev Rest : String → ℕ → ℕ → String → List Reply → Dict Cooldown × Bool → Type 0
Rest j b t url rs (m, cut) =
    let rest = severed_at j rs m in
    Spaced relay_cooldown_base_ms b (if url == j && cut then t ∷ rest else rest)

severed_at-Spaced_from :
    (j : String) (b now : ℕ) (rs : List Reply) (m : Dict Cooldown)
    → Guard b now (lookup j m)
    → Ascending now rs
    → Spaced relay_cooldown_base_ms b (severed_at j rs m)
severed_at-Spaced_from j b now [] m g a = tt
severed_at-Spaced_from j b now (answers t url ∷ rs) m g (le, a) =
    severed_at-Spaced_from j b t rs (note_relay_answered t url m)
      (rw (lookup-note_relay_answered t url j m) (
        let g' = Guard-later b now t (lookup j m) le g in
        if-cases (Guard b t) (url == j) (λ _. Guard-answered b t (lookup j m) g') (λ _. g')))
      a
severed_at-Spaced_from j b now (limited t url ∷ rs) m g (le, a) =
    let g' = Guard-later b now t (lookup j m) le g in
    elim (Bool-cases (is_active t (lookup url m))) [
      | inl y ↦ subst (Rest j b t url rs) (sym (mark_active t url m y)) (
          if-cases (Spaced relay_cooldown_base_ms b) (url == j && false)
            (λ e. absurd (ground (arith, e))) (λ _. severed_at-Spaced_from j b t rs m g' a))
      | inr n ↦ subst (Rest j b t url rs) (sym (mark_inactive t url m n)) (
          if-cases (Spaced relay_cooldown_base_ms b) (url == j && true)
            (λ e.
              let same : url ≡ j = (eq_iff url j).0 (ground (arith, e)) in
              (
                Guard-inactive b t (lookup j m) (rw (← same) n) g',
                severed_at-Spaced_from j (t + relay_cooldown_base_ms) t rs
                    (insert url (next_cooldown t (lookup url m)) m)
                    (rw (lookup-insert url j (next_cooldown t (lookup url m)) m) (
                      if-cases (Guard (t + relay_cooldown_base_ms) t) (url == j)
                        (λ _. Guard-new t (lookup url m))
                        (λ other. absurd (ground (arith, e, other)))))
                    a,
              ))
            (λ e.
              severed_at-Spaced_from j b t rs (insert url (next_cooldown t (lookup url m)) m)
                (rw (lookup-insert url j (next_cooldown t (lookup url m)) m) (
                  if-cases (Guard b t) (url == j) (λ here. absurd (ground (arith, e, here)))
                    (λ _. g')))
                a))
    ]

-- However often its relays refuse and answer, in the order of their times, the socket of a relay is
-- severed at most once a minute.
pub severed_at-Spaced :
    (j : String) (rs : List Reply) (m : Dict Cooldown)
    → Ascending 0 rs
    → Spaced relay_cooldown_base_ms 0 (severed_at j rs m)
severed_at-Spaced j rs m a = severed_at-Spaced_from j 0 0 rs m (unguarded (lookup j m)) a
  where
    unguarded : (o : Option Cooldown) → Guard 0 0 o
    unguarded none = unfold Guard in omega arith
    unguarded (some c) = unfold Guard in inl (omega arith)
