-- ===== src/Client/Query/Counts.antt =====
-- client.service.ts: how many relays of a query are in a phase.
use livelier.Base.{
  ℕ, ◌+◌, ◌≤◌, String, Bool, true, false, ◌≡◌, refl, Option, none, some, [], ◌∷◌, length,
  if◌then◌else◌, arith, eq_iff, eq_refl,
}
use livelier.Base.Dict.{Dict, lookup, insert, keys, mem-keys}
use livelier.Base.Keys.{Distinct}
use livelier.Client.Query.{Phase, connecting, open_req, settled, answered}

unfoldable pub is_open : Phase → Bool
is_open open_req = true
is_open connecting = false
is_open (settled _) = false

unfoldable pub is_connecting : Phase → Bool
is_connecting connecting = true
is_connecting open_req = false
is_connecting (settled _) = false

unfoldable pub is_answered : Phase → Bool
is_answered (settled answered) = true
is_answered _ = false

unfoldable pub count_phase : (Phase → Bool) → Dict Phase → ℕ
count_phase p [] = 0
count_phase p ((url, phase) ∷ rest) = (if p phase then 1 else 0) + count_phase p rest

pub count_phase-insert :
    (p : Phase → Bool) (url : String) (new old : Phase) (m : Dict Phase)
    → lookup url m ≡ some old
    → count_phase p (insert url new m) + (if p old then 1 else 0)
      ≡ count_phase p m + (if p new then 1 else 0)
unfolding count_phase lookup insert
count_phase-insert p url new old [] h = absurd (ground (arith, h))
count_phase-insert p url new old ((i, phase) ∷ m) h =
    ground (arith, h, count_phase-insert p url new old m)

pub count_phase-le : (p : Phase → Bool) (m : Dict Phase) → count_phase p m ≤ length m
unfolding count_phase
count_phase-le p [] = omega arith
count_phase-le p ((i, phase) ∷ m) = ground (arith, count_phase-le p m)

-- Of a relay that is open there is one at least.
pub count_phase-pos :
    (p : Phase → Bool) (url : String) (phase : Phase) (m : Dict Phase)
    → lookup url m ≡ some phase
    → p phase ≡ true
    → 1 ≤ count_phase p m
unfolding count_phase lookup
count_phase-pos p url phase [] h y = absurd (ground (arith, h))
count_phase-pos p url phase ((i, q) ∷ m) h y = ground (arith, h, y, count_phase-pos p url phase m)

unfoldable pub is_open_at : Option Phase → Bool
unfolding is_open
is_open_at none = false
is_open_at (some phase) = is_open phase

pub count_phase-none :
    (m : Dict Phase)
    → Distinct (keys m)
    → ((url : String) → is_open_at (lookup url m) ≡ false)
    → count_phase is_open m ≡ 0
unfolding count_phase lookup is_open_at
count_phase-none [] d h = refl
count_phase-none ((i, phase) ∷ m) (new, d) h = ground (
  arith,
  h i,
  eq_refl i,
  count_phase-none m d (λ url. ground (arith, h url, eq_iff i url, new, mem-keys i m)),
)
