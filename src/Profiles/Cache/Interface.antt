-- ===== src/Profiles/Cache/Interface.antt =====
-- `ProfileCacheLike` of packages/shared/src/nostr/services/profile-request-coordinator.ts: what the
-- coordinator asks of a profile cache, with the laws that it relies on. A read may drop what has
-- expired or count an access, so that it returns the cache too; the first argument is the clock.
use livelier.Base.{ℕ, String, Bool, true, Option, ◌≡◌, is_some}
use livelier.Profiles.Cache.Info.{ProfileInfo}

pub record ProfileCacheLike : Type 1 where
  pub Cache : Type 0
  pub has_profile : ℕ → String → Cache → Bool × Cache
  pub get_profile : ℕ → String → Cache → Option ProfileInfo × Cache
  pub store_profile : ℕ → String → ProfileInfo → Cache → Cache
  pub remove_profile : String → Cache → Cache
  -- A profile that is there can be read.
  pub get_of_has :
      (now : ℕ) (pubkey : String) (c : Cache)
      → (has_profile now pubkey c).0 ≡ true
      → is_some (get_profile now pubkey (has_profile now pubkey c).1).0 ≡ true
  -- To look at one pubkey does not change which others are there.
  pub has_after_has :
      (now : ℕ) (pubkey j : String) (c : Cache)
      → (has_profile now j (has_profile now pubkey c).1).0 ≡ (has_profile now j c).0
  pub has_after_get :
      (now : ℕ) (pubkey j : String) (c : Cache)
      → (has_profile now j (get_profile now pubkey c).1).0 ≡ (has_profile now j c).0
