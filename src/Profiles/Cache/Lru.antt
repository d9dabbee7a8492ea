-- ===== src/Profiles/Cache/Lru.antt =====
-- ProfileCacheService.ts: which entries the limit drops.
use livelier.Base.{
  ℕ, zero, suc, ◌==◌, ◌≤◌, ◌-◌, String, true, false, ◌≡◌, refl, none, some, is_some, leb, [], ◌∷◌,
  length, take, if◌then◌else◌, arith, eq_iff, All, if-cases, Bool-cases, inl, inr,
}
use livelier.Base.Dict.{Dict, erase, lookup, keys, lookup-erase, mem-keys}
use livelier.Base.Keys.{Distinct}
use livelier.Profiles.Cache.Info.{ProfileInfo}
use livelier.Profiles.Cache.{
  place, sort_by_access, erase_all, enforce_cache_limit, max_cache_size, access_time,
}

abbrev AtLeast : ℕ → Dict ProfileInfo → Type 0
AtLeast t = All (λ e. t ≤ access_time e.1)

abbrev Sorted : Dict ProfileInfo → Type 0
Sorted [] = Unit
Sorted (e ∷ es) = AtLeast (access_time e.1) es × Sorted es

AtLeast-mono : (t u : ℕ) (es : Dict ProfileInfo) → t ≤ u → AtLeast u es → AtLeast t es
AtLeast-mono t u [] le h = tt
AtLeast-mono t u (e ∷ es) le (h, hs) = (omega arith, AtLeast-mono t u es le hs)

AtLeast-place :
    (t : ℕ) (e : String × ProfileInfo) (xs : Dict ProfileInfo)
    → t ≤ access_time e.1
    → AtLeast t xs
    → AtLeast t (place e xs)
unfolding place
AtLeast-place t e [] le h = (le, tt)
AtLeast-place t e (x ∷ xs) le (h, hs) =
    if-cases (AtLeast t) (leb (access_time e.1) (access_time x.1)) (λ _. (le, (h, hs)))
      (λ _. (h, AtLeast-place t e xs le hs))

Sorted-place : (e : String × ProfileInfo) (xs : Dict ProfileInfo) → Sorted xs → Sorted (place e xs)
unfolding place
Sorted-place e [] h = (tt, tt)
Sorted-place e (x ∷ xs) (h, hs) =
    if-cases Sorted (leb (access_time e.1) (access_time x.1))
      (λ y.
        let le : access_time e.1 ≤ access_time x.1 = ground arith in
        ((le, AtLeast-mono (access_time e.1) (access_time x.1) xs le h), (h, hs)))
      (λ n. (AtLeast-place (access_time x.1) e xs (ground arith) h, Sorted-place e xs hs))

sort_by_access-Sorted : (c : Dict ProfileInfo) → Sorted (sort_by_access c)
unfolding sort_by_access
sort_by_access-Sorted [] = tt
sort_by_access-Sorted (e ∷ c) = Sorted-place e (sort_by_access c) (sort_by_access-Sorted c)

lookup-place :
    (j : String) (e : String × ProfileInfo) (xs : Dict ProfileInfo)
    → lookup e.0 xs ≡ none
    → lookup j (place e xs) ≡ (if e.0 == j then some e.1 else lookup j xs)
unfolding place lookup
lookup-place j e [] h = refl
lookup-place j e (x ∷ xs) h =
    ground (arith, eq_iff e.0 j, eq_iff x.0 j, eq_iff x.0 e.0, lookup-place j e xs)

lookup-sort_by_access :
    (j : String) (c : Dict ProfileInfo)
    → Distinct (keys c)
    → lookup j (sort_by_access c) ≡ lookup j c
unfolding sort_by_access lookup
lookup-sort_by_access j [] d = refl
lookup-sort_by_access j (e ∷ c) d = ground (
  arith,
  mem-keys e.0 c,
  lookup-sort_by_access e.0 c d.1,
  lookup-sort_by_access j c d.1,
  lookup-place j e (sort_by_access c),
)

lookup-erase_all :
    (k : String) (es c : Dict ProfileInfo)
    → lookup k (erase_all es c) ≡ (if is_some (lookup k es) then none else lookup k c)
unfolding erase_all lookup
lookup-erase_all k [] c = refl
lookup-erase_all k ((j, p) ∷ es) c =
    ground (arith, lookup-erase_all k es (erase j c), lookup-erase j k c)

access_time-AtLeast :
    (t : ℕ) (k : String) (q : ProfileInfo) (xs : Dict ProfileInfo)
    → AtLeast t xs
    → lookup k xs ≡ some q
    → t ≤ access_time q
unfolding lookup
access_time-AtLeast t k q [] h e = ground arith
access_time-AtLeast t k q ((j, p) ∷ xs) (h, hs) e = elim (Bool-cases (j == k)) [
  | inl y ↦ ground (arith, y)
  | inr n ↦ access_time-AtLeast t k q xs hs (ground (arith, n))
]

lookup-take :
    (n : ℕ) (j : String) (xs : Dict ProfileInfo)
    → is_some (lookup j (take n xs)) ≡ true
    → lookup j (take n xs) ≡ lookup j xs
unfolding lookup
lookup-take zero j xs h = ground arith
lookup-take (suc n) j [] h = ground arith
lookup-take (suc n) j (x ∷ xs) h = ground (arith, lookup-take n j xs)

first_le_rest :
    (n : ℕ) (j k : String) (p q : ProfileInfo) (xs : Dict ProfileInfo)
    → Sorted xs
    → lookup j (take n xs) ≡ some p
    → lookup k xs ≡ some q
    → lookup k (take n xs) ≡ none
    → access_time p ≤ access_time q
unfolding lookup
first_le_rest zero j k p q xs h a b c = ground arith
first_le_rest (suc n) j k p q [] h a b c = ground arith
first_le_rest (suc n) j k p q ((i, r) ∷ xs) (h, hs) a b c = elim (Bool-cases (i == k)) [
  | inl y ↦ ground (arith, y)
  | inr m ↦
      ground (arith, m, access_time-AtLeast (access_time r) k q xs h, first_le_rest n j k p q xs hs)
]

-- The cut of the sorted entries, read back in the cache.
dropped_le_kept :
    (n : ℕ) (j k : String) (p q : ProfileInfo) (c : Dict ProfileInfo)
    → Distinct (keys c)
    → lookup j c ≡ some p
    → is_some (lookup j (take n (sort_by_access c))) ≡ true
    → lookup k c ≡ some q
    → is_some (lookup k (take n (sort_by_access c))) ≡ false
    → access_time p ≤ access_time q
dropped_le_kept n j k p q c d a b e f =
    first_le_rest n j k p q (sort_by_access c) (sort_by_access-Sorted c)
      (ground (arith, b, a, lookup-sort_by_access j c d, lookup-take n j (sort_by_access c)))
      (ground (arith, e, lookup-sort_by_access k c d)) (ground (arith, f))

-- In a cache with distinct keys, an entry that the limit keeps is unchanged, and its access time is
-- no earlier than that of any entry that the limit drops.
pub enforce_cache_limit-oldest :
    (c : Dict ProfileInfo) (j k : String) (p kept : ProfileInfo)
    → Distinct (keys c)
    → lookup j c ≡ some p
    → lookup j (enforce_cache_limit c) ≡ none
    → lookup k (enforce_cache_limit c) ≡ some kept
    → (lookup k c ≡ some kept) × (access_time p ≤ access_time kept)
unfolding enforce_cache_limit
enforce_cache_limit-oldest c j k p kept d here gone stays =
    let n = length c - max_cache_size in
    ground (
      arith,
      lookup-sort_by_access j c d,
      lookup-sort_by_access k c d,
      lookup-erase_all j (take n (sort_by_access c)) c,
      lookup-erase_all k (take n (sort_by_access c)) c,
      dropped_le_kept n j k p kept c d,
    )
