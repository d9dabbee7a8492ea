-- ===== src/Base/Text.antt =====
-- Texts: concatenation, and `String(n)` of a number.
use Prim.Native.Nat.{ℕ, zero, suc, ◌/◌, ◌%◌}
use Prim.Native.Char.{code}
use Prim.Native.String
use Prim.Native.String.{String}
use mathlib.Core.Bool.{Bool, true, false, ◌&&◌, ◌||◌}
use mathlib.Core.List.{List, [], ◌∷◌}
use livelier.Base.Tests.{if◌then◌else◌, ltb, eqb}

-- `` `${s}${t}` ``
abbrev pub cat : String → String → String
cat s t = String.◌++◌ s t

-- The glyph at a place of a list of them, the last one past its end.
unfoldable pub glyph_at : List String → ℕ → String
glyph_at [] place = ""
glyph_at (g ∷ []) place = g
glyph_at (g ∷ gs) zero = g
glyph_at (g ∷ gs) (suc place) = glyph_at gs place

unfoldable pub digit : ℕ → String
unfolding glyph_at
digit = glyph_at ("0" ∷ "1" ∷ "2" ∷ "3" ∷ "4" ∷ "5" ∷ "6" ∷ "7" ∷ "8" ∷ "9" ∷ [])

-- The decimal digits; a number has fewer than `suc n` of them.
unfoldable pub decimal_from : ℕ → ℕ → String
unfolding digit
decimal_from zero n = ""
decimal_from (suc fuel) n =
    let front = decimal_from fuel (n / 10) in
    if ltb n 10 then digit n else cat front (digit (n % 10))

unfoldable pub decimal : ℕ → String
unfolding decimal_from
decimal n = decimal_from (suc n) n

-- The code points of a text, and tests on lists of them.
unfoldable pub codes : String → List ℕ
codes String.[] = []
codes (String.◌∷◌ c s) = code c ∷ codes s

-- `s.startsWith(p)`
unfoldable pub begins : List ℕ → List ℕ → Bool
begins [] s = true
begins (p ∷ ps) [] = false
begins (p ∷ ps) (c ∷ s) = eqb p c && begins ps s

-- `s.includes(p)`
unfoldable pub includes : List ℕ → List ℕ → Bool
unfolding begins
includes p [] = begins p []
includes p (c ∷ s) = begins p (c ∷ s) || includes p s
