-- ===== src/Profiles/Cache/Laws.antt =====
-- ProfileCacheService.ts: the laws that the coordinator relies on.
use livelier.Base.{ℕ, String, true, ◌≡◌, is_some, arith, Option-cases, inl, inr, eq_iff}
use livelier.Base.Dict.{lookup-insert, lookup-erase, lookup}
use livelier.Profiles.Cache.{
  touched, ProfileCacheService, has_profile, get_profile, store_profile, remove_profile,
}
use livelier.Profiles.Cache.Interface.{ProfileCacheLike}

pub get_of_has :
    (now : ℕ) (pubkey : String) (s : ProfileCacheService)
    → (has_profile now pubkey s).0 ≡ true
    → is_some (get_profile now pubkey (has_profile now pubkey s).1).0 ≡ true
unfolding has_profile get_profile
get_of_has now pubkey s h = ground arith

pub has_after_has :
    (now : ℕ) (pubkey j : String) (s : ProfileCacheService)
    → (has_profile now j (has_profile now pubkey s).1).0 ≡ (has_profile now j s).0
unfolding has_profile
has_after_has now pubkey j s = ground (arith, eq_iff pubkey j, lookup-erase pubkey j s.cache)

pub has_after_get :
    (now : ℕ) (pubkey j : String) (s : ProfileCacheService)
    → (has_profile now j (get_profile now pubkey s).1).0 ≡ (has_profile now j s).0
has_after_get now pubkey j s = elim (Option-cases (lookup pubkey s.cache)) [
  | inl e ↦ unfold has_profile get_profile in ground arith
  | inr (p, e) ↦
      unfold has_profile get_profile in
      ground (
        arith,
        eq_iff pubkey j,
        lookup-erase pubkey j s.cache,
        lookup-insert pubkey j (touched now p) s.cache,
      )
]

-- The service is a cache as the coordinator wants one.
abbrev pub profile_cache_service : ProfileCacheLike
profile_cache_service = record {
  Cache = ProfileCacheService;
  has_profile = has_profile;
  get_profile = get_profile;
  store_profile = store_profile;
  remove_profile = remove_profile;
  get_of_has = get_of_has;
  has_after_has = has_after_has;
  has_after_get = has_after_get;
}
