-- ===== src/Profiles/Cache/Info.antt =====
-- packages/shared/src/nostr/services/profile.service.ts: the shape of a profile.
use livelier.Base.{ℕ, String, Option}

pub record ProfileInfo : Type 0 where
  pub name : String
  pub picture : Option String
  pub timestamp : ℕ
  pub last_updated : ℕ
  pub last_accessed : ℕ
  pub access_count : ℕ
  pub about : Option String
  pub nip05 : Option String
  pub banner : Option String
  pub website : Option String
  pub lud16 : Option String
