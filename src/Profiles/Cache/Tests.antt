-- ===== src/Profiles/Cache/Tests.antt =====
-- The limit of the profile cache on a cache that is over it.
use Prim.Native.String.{◌++◌ as ◌<>◌}
use livelier.Base.{
  ℕ, zero, suc, ◌-◌, ◌&&◌, not, String, Bool, true, ◌≡◌, refl, none, List, [], ◌∷◌, arith,
}
use livelier.Base.Dict.{Dict, keys}
use livelier.Base.Keys.{Distinct, mem}
use livelier.Profiles.Cache.Info.{ProfileInfo}

abbrev aged : ℕ → ProfileInfo
aged n = record {
  name = "Guest";
  picture = none;
  timestamp = 90000 - n;
  last_updated = 0;
  last_accessed = 0;
  access_count = 0;
  about = none;
  nip05 = none;
  banner = none;
  website = none;
  lud16 = none;
}

abbrev guest : ℕ → String
guest zero = "g"
guest (suc n) = "g" <> guest n

abbrev crowd : ℕ → Dict ProfileInfo
crowd zero = []
crowd (suc n) = (guest n, aged n) ∷ crowd n

abbrev all_distinct : List String → Bool
all_distinct [] = true
all_distinct (x ∷ xs) = not (mem x xs) && all_distinct xs

all_distinct-Distinct : (xs : List String) → all_distinct xs ≡ true → Distinct xs
all_distinct-Distinct [] h = tt
all_distinct-Distinct (x ∷ xs) h = (ground arith, all_distinct-Distinct xs (ground arith))

crowd-Distinct : Distinct (keys (crowd 501))
unfolding mem
crowd-Distinct = all_distinct-Distinct (keys (crowd 501)) refl
