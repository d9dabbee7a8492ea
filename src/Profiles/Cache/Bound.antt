-- ===== src/Profiles/Cache/Bound.antt =====
-- ProfileCacheService.ts: the limit on the entries of the cache.
use livelier.Base.{
  ℕ, min, zero, suc, ◌==◌, ◌+◌, ◌-◌, ◌≤◌, String, Bool-cases, inl, inr, ◌≡◌, refl, [], ◌∷◌, leb,
  length, take, if◌then◌else◌, arith, eq_iff, eq_refl,
}
use livelier.Base.Dict.{
  Dict, has, erase, erase-Distinct, insert, keys, length-erase, length-insert, insert-Distinct,
}
use livelier.Base.Keys.{count, Distinct, count-Distinct}
use livelier.Profiles.Cache.Info.{ProfileInfo}
use livelier.Profiles.Cache.{
  place, sort_by_access, erase_all, enforce_cache_limit, store_profile, ProfileCacheService,
  max_cache_size, stored,
}

count-erase :
    (j k : String) (c : Dict ProfileInfo)
    → count j (keys (erase k c)) ≡ (if k == j then 0 else count j (keys c))
unfolding erase count
count-erase j k [] = ground arith
count-erase j k ((i, p) ∷ c) = ground (arith, count-erase j k c, eq_iff i k, eq_iff i j, eq_iff k j)

count-place :
    (j : String) (e : String × ProfileInfo) (xs : Dict ProfileInfo)
    → count j (keys (place e xs)) ≡ count j (keys (e ∷ xs))
unfolding place count
count-place j e [] = refl
count-place j e (x ∷ xs) = ground (arith, count-place j e xs)

count-sort_by_access :
    (j : String) (c : Dict ProfileInfo) → count j (keys (sort_by_access c)) ≡ count j (keys c)
unfolding sort_by_access count
count-sort_by_access j [] = refl
count-sort_by_access j (e ∷ c) =
    ground (arith, count-place j e (sort_by_access c), count-sort_by_access j c)

length-place :
    (e : String × ProfileInfo) (xs : Dict ProfileInfo) → length (place e xs) ≡ length xs + 1
unfolding place
length-place e [] = omega arith
length-place e (x ∷ xs) = ground (arith, length-place e xs)

length-sort_by_access : (c : Dict ProfileInfo) → length (sort_by_access c) ≡ length c
unfolding sort_by_access
length-sort_by_access [] = refl
length-sort_by_access (e ∷ c) =
    ground (arith, length-place e (sort_by_access c), length-sort_by_access c)

count-take :
    (n : ℕ) (j : String) (xs : Dict ProfileInfo) → count j (keys (take n xs)) ≤ count j (keys xs)
unfolding count
count-take zero j [] = omega arith
count-take zero j (x ∷ xs) = omega arith
count-take (suc n) j [] = omega arith
count-take (suc n) j (x ∷ xs) = ground (arith, count-take n j xs)

count-rest :
    (k : String) (p : ProfileInfo) (es c : Dict ProfileInfo) (j : String)
    → count j (keys ((k, p) ∷ es)) ≤ count j (keys c)
    → count j (keys c) ≤ 1
    → count j (keys es) ≤ count j (keys (erase k c))
unfolding count
count-rest k p es c j sub once = ground (arith, count-erase j k c)

at_most-erase :
    (k j : String) (c : Dict ProfileInfo) → count j (keys c) ≤ 1 → count j (keys (erase k c)) ≤ 1
at_most-erase k j c once = ground (arith, count-erase j k c)

length-erase_all :
    (es c : Dict ProfileInfo)
    → ((j : String) → count j (keys es) ≤ count j (keys c))
    → ((j : String) → count j (keys c) ≤ 1)
    → length (erase_all es c) + length es ≡ length c
unfolding erase_all count
length-erase_all [] c sub once = omega arith
length-erase_all ((k, p) ∷ es) c sub once = ground (
  arith,
  eq_refl k,
  length-erase k c,
  length-erase_all es (erase k c) (λ j. count-rest k p es c j (sub j) (once j))
      (λ j. at_most-erase k j c (once j)),
  sub k,
  once k,
)

length-take-le : (n : ℕ) (xs : Dict ProfileInfo) → n ≤ length xs → length (take n xs) ≡ n
length-take-le zero xs h = refl
length-take-le (suc n) [] h = omega arith
length-take-le (suc n) (x ∷ xs) h = omega (arith, length-take-le n xs)

length-enforce_cache_limit :
    (c : Dict ProfileInfo)
    → Distinct (keys c)
    → length (enforce_cache_limit c)
      ≡ (if leb (length c) max_cache_size then length c else max_cache_size)
unfolding enforce_cache_limit
length-enforce_cache_limit c d = ground (
  arith,
  length-sort_by_access c,
  length-take-le (length c - max_cache_size) (sort_by_access c),
  length-erase_all (take (length c - max_cache_size) (sort_by_access c)) c
      (λ j. omega (
        arith,
        count-take (length c - max_cache_size) j (sort_by_access c),
        count-sort_by_access j c,
      ))
      (λ j. ground (arith, count-Distinct j (keys c) d)),
)

erase_all-Distinct :
    (es c : Dict ProfileInfo) → Distinct (keys c) → Distinct (keys (erase_all es c))
unfolding erase_all
erase_all-Distinct [] c d = d
erase_all-Distinct ((k, _) ∷ es) c d = erase_all-Distinct es (erase k c) (erase-Distinct k c d)

enforce_cache_limit-Distinct :
    (c : Dict ProfileInfo) → Distinct (keys c) → Distinct (keys (enforce_cache_limit c))
unfolding enforce_cache_limit
enforce_cache_limit-Distinct c d = elim (Bool-cases (leb (length c) max_cache_size)) [
  | inl e ↦ rw e d
  | inr e ↦ rw e (erase_all-Distinct (take (length c - max_cache_size) (sort_by_access c)) c d)
]

-- A store into a cache with distinct keys leaves distinct keys and at most 500 entries, and drops
-- entries only as far as that limit asks: one more than before for a new pubkey while there is room,
-- as many as before for a pubkey that is there.
pub length-store_profile :
    (now : ℕ) (pubkey : String) (profile : ProfileInfo) (s : ProfileCacheService)
    → Distinct (keys s.cache)
    → Distinct (keys (store_profile now pubkey profile s).cache)
      × (length (store_profile now pubkey profile s).cache
          ≡ min (if has pubkey s.cache then length s.cache else length s.cache + 1) max_cache_size)
unfolding store_profile
length-store_profile now pubkey profile s d =
    let c = insert pubkey (stored now profile) s.cache in
    let fresh = insert-Distinct pubkey (stored now profile) s.cache d in
    (
      enforce_cache_limit-Distinct c fresh,
      ground (
        arith,
        length-enforce_cache_limit c fresh,
        length-insert pubkey (stored now profile) s.cache,
      ),
    )
