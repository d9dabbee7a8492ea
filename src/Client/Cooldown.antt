-- ===== src/Client/Cooldown.antt =====
-- client.service.ts: the rate-limit cooldowns of ClientService. That a socket is severed is the second
-- result of `mark_rate_limited`.
pub mod Laws
use Prim.Native.Char.{code}
use Prim.Native.String
use livelier.Base.{
  ℕ, ◌+◌, ◌-◌, ◌*◌, ◌^◌, min, String, Bool, true, false, not, ◌&&◌, ◌||◌, Option, none, some, List,
  [], ◌∷◌, ltb, leb, eqb, keep, if◌then◌else◌,
}
use livelier.Base.Text.{includes}
use livelier.Base.Dict.{Dict, lookup, insert, erase}

pub record Cooldown : Type 0 where
  pub strikes : ℕ
  pub until : ℕ

abbrev pub relay_cooldown_base_ms : ℕ
relay_cooldown_base_ms = 60000

abbrev pub relay_cooldown_max_ms : ℕ
relay_cooldown_max_ms = 600000

-- `toLowerCase` on the letters that 'rate-limit' can come from.
unfoldable pub lower_codes : String → List ℕ
lower_codes String.[] = []
lower_codes (String.◌∷◌ c s) =
    (if leb 65 (code c) && leb (code c) 90 then code c + 32 else code c) ∷ lower_codes s

unfoldable pub is_rate_limit_reason : String → Bool
unfolding lower_codes includes
is_rate_limit_reason reason = includes (lower_codes "rate-limit") (lower_codes reason)

unfoldable pub is_active : ℕ → Option Cooldown → Bool
is_active now none = false
is_active now (some c) = ltb now c.until

unfoldable pub is_relay_cooling_down : ℕ → String → Dict Cooldown → Bool
unfolding is_active
is_relay_cooling_down now url cooldowns = is_active now (lookup url cooldowns)

-- `prev?.strikes ?? 0`
unfoldable pub strikes_of : Option Cooldown → ℕ
strikes_of none = 0
strikes_of (some c) = c.strikes

unfoldable pub next_cooldown : ℕ → Option Cooldown → Cooldown
unfolding strikes_of
next_cooldown now prev =
    let strikes = strikes_of prev + 1 in
    record {
      strikes = strikes;
      until = now + min (relay_cooldown_base_ms * 2 ^ (strikes - 1)) relay_cooldown_max_ms;
    }

unfoldable pub mark_relay_rate_limited : ℕ → String → Dict Cooldown → Dict Cooldown × Bool
unfolding is_active next_cooldown
mark_relay_rate_limited now url cooldowns =
    if is_active now (lookup url cooldowns)
    then (cooldowns, false)
    else (insert url (next_cooldown now (lookup url cooldowns)) cooldowns, true)

unfoldable pub note_relay_answered : ℕ → String → Dict Cooldown → Dict Cooldown
unfolding is_active
note_relay_answered now url cooldowns = elim (lookup url cooldowns) [
  | none ↦ cooldowns
  | some c ↦ if leb c.until now then erase url cooldowns else cooldowns
]

unfoldable pub filter_cooling_relays : ℕ → List String → Dict Cooldown → List String
unfolding is_relay_cooling_down
filter_cooling_relays now urls cooldowns =
    keep (λ url. not (is_relay_cooling_down now url cooldowns)) urls
