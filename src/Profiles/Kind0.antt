-- ===== src/Profiles/Kind0.antt =====
-- packages/shared/src/nostr/utils/parse-kind0.ts. `JSON.parse` and the reading of its fields is the
-- argument `decode`: `none` where it throws.
use livelier.Base.{ℕ, String, Option, none, some, ◌==◌, if◌then◌else◌, or_else}
use livelier.Profiles.Cache.Info.{ProfileInfo}

pub record Kind0 : Type 0 where
  pub name : Option String
  pub display_name : Option String
  pub picture : Option String
  pub about : Option String
  pub nip05 : Option String
  pub banner : Option String
  pub website : Option String
  pub lud16 : Option String

-- `field || undefined`: the empty text is falsy.
unfoldable pub truthy : Option String → Option String
truthy none = none
truthy (some s) = if s == "" then none else some s

-- `a || b`
unfoldable pub first_of_two : Option String → String → String
unfolding truthy
first_of_two a b = or_else (truthy a) b

unfoldable pub profile_of : ℕ → Kind0 → ProfileInfo
unfolding first_of_two
profile_of now c = record {
  name = first_of_two c.name (first_of_two c.display_name "Guest");
  picture = truthy c.picture;
  timestamp = now;
  last_updated = now;
  last_accessed = now;
  access_count = 1;
  about = truthy c.about;
  nip05 = truthy c.nip05;
  banner = truthy c.banner;
  website = truthy c.website;
  lud16 = truthy c.lud16;
}

unfoldable pub parse_kind0_content : (String → Option Kind0) → ℕ → String → Option ProfileInfo
unfolding profile_of
parse_kind0_content decode now content = elim (decode content) [
  | none ↦ none
  | some c ↦ some (profile_of now c)
]
