-- ===== src/Client/Lru/Laws.antt =====
-- client.service.ts: the bound of LRUCache, over every sequence of calls.
use livelier.Base.{
  eq_refl, ap, ℕ, ◌+◌, ◌≤◌, ◌⊎◌, max, String, true, not, ◌&&◌, ◌≡◌, refl, Option, none, some,
  is_some, List, [], ◌∷◌, length, leb, ltb, if◌then◌else◌, if-cases, arith, eq_iff, Bool-cases,
  Option-cases, inl, inr,
}
use livelier.Base.Dict.{
  Dict, lookup, has, keys, lookup-insert, lookup-erase, length-insert, length-erase-has,
  length-erase-le, insert-Distinct, erase-Distinct, mem-keys,
}
use livelier.Base.Keys.{Distinct}
use livelier.Client.Lru.{
  LruCache, new_cache, is_older, find_lru, drop_key, evict_lru, get, put, set, delete, clear,
}

-- What a caller does with a cache.
pub data Call {ℓ} (V : Type ℓ) : Type ℓ where
  get_call : ℕ → String → Call V
  set_call : ℕ → String → V → Call V
  delete_call : String → Call V
  clear_call : Call V

module _ {ℓ} {V : Type ℓ} where
  -- The two maps have the same keys, each once, and are within the capacity.
  pub record IsSound (capacity : ℕ) (c : LruCache V) : Type 0 where
    pub capacity_eq : c.capacity ≡ capacity
    pub same_keys : (k : String) → has k c.cache ≡ has k c.key_usage
    pub cache_Distinct : Distinct (keys c.cache)
    pub usage_Distinct : Distinct (keys c.key_usage)
    pub bounded : length c.cache ≤ max capacity 1

  abbrev pub call : Call V → LruCache V → LruCache V
  call (get_call now key) c = (get now key c).1
  call (set_call now key value) c = set now key value c
  call (delete_call key) c = delete key c
  call clear_call c = clear c

  abbrev pub run : List (Call V) → LruCache V → LruCache V
  run [] c = c
  run (x ∷ xs) c = run xs (call x c)

find_lru-some : (es : Dict ℕ) (b : String × ℕ) → is_some (find_lru es (some b)) ≡ true
unfolding find_lru
find_lru-some [] b = refl
find_lru-some ((i, u) ∷ es) b =
    if-cases (λ x. is_some (find_lru es x) ≡ true) (is_older u (some b))
      (λ _. find_lru-some es (i, u)) (λ _. find_lru-some es b)

-- What the loop finds is an entry of the map, or what it started with.
pub find_lru-entry :
    (es : Dict ℕ) (best : Option (String × ℕ)) (k : String) (t : ℕ)
    → Distinct (keys es)
    → find_lru es best ≡ some (k, t)
    → (lookup k es ≡ some t) ⊎ (best ≡ some (k, t))
unfolding find_lru lookup
find_lru-entry [] best k t d e = inr e
find_lru-entry ((i, u) ∷ es) best k t (new, d) e = elim (Bool-cases (is_older u best)) [
  | inl y ↦
      elim (find_lru-entry es (some (i, u)) k t d
        (rw (← ap (λ b. find_lru es (if b then some (i, u) else best)) y) e)) [
          | inl h ↦ inl (ground (arith, h, new, mem-keys i es, eq_iff i k))
          | inr same ↦ inl (ground (arith, same, eq_iff i k))
        ]
  | inr n ↦
      elim (find_lru-entry es best k t d
        (rw (← ap (λ b. find_lru es (if b then some (i, u) else best)) n) e)) [
          | inl h ↦ inl (ground (arith, h, new, mem-keys i es, eq_iff i k))
          | inr same ↦ inr same
        ]
]

has_of_length {ℓ} :
    {V : Type ℓ} (m : Dict V) → ltb 0 (length m) ≡ true → (k : String) × (has k m ≡ true)
unfolding lookup
has_of_length [] h = absurd (ground arith)
has_of_length ((k, v) ∷ m) h = (k, ground (arith, eq_refl k))

find_lru-has :
    (es : Dict ℕ) (k : String)
    → Distinct (keys es)
    → has k es ≡ true
    → (e : String × ℕ) × (find_lru es none ≡ some e) × (has e.0 es ≡ true)
find_lru-has [] k d h = absurd (unfold lookup in ground arith)
find_lru-has ((i, u) ∷ es) k d h = elim (Option-cases (find_lru ((i, u) ∷ es) none)) [
  | inl e ↦ absurd (unfold find_lru in ground (arith, find_lru-some es (i, u), e))
  | inr ((j, t), e) ↦ (
    (j, t),
    e,
    elim (find_lru-entry ((i, u) ∷ es) none j t d e) [
      | inl y ↦ ground (arith, y)
      | inr n ↦ absurd (ground (arith, n))
    ],
  )
]

module _ {ℓ} {V : Type ℓ} (capacity : ℕ) (c : LruCache V) (sound : IsSound capacity c) where
  drop_key-IsSound : (e : Option (String × ℕ)) → IsSound capacity (drop_key e c)
  unfolding drop_key
  drop_key-IsSound none = sound
  drop_key-IsSound (some (k, t)) = record {
    capacity_eq = sound.capacity_eq;
    same_keys = λ j.
        ground (arith, sound.same_keys j, lookup-erase k j c.cache, lookup-erase k j c.key_usage);
    cache_Distinct = erase-Distinct k c.cache sound.cache_Distinct;
    usage_Distinct = erase-Distinct k c.key_usage sound.usage_Distinct;
    bounded = omega (arith, sound.bounded, length-erase-le k c.cache);
  }

  -- An eviction makes room for one entry, unless there is nothing to evict.
  evict_lru-room : length (evict_lru c).cache + 1 ≤ max capacity 1
  unfolding evict_lru drop_key
  evict_lru-room = elim (Bool-cases (leb (length c.cache) 0)) [
    | inl y ↦ ground (arith, y)
    | inr n ↦
        let (k, h) = has_of_length c.cache (ground (arith, n)) in
        let ((j, t), e, here) =
          find_lru-has c.key_usage k sound.usage_Distinct (ground (arith, sound.same_keys k, h)) in
        rw (n, e)
          (ground (
            arith,
            length-erase-has j c.cache,
            sound.cache_Distinct,
            sound.same_keys j,
            here,
            sound.bounded,
          ))
  ]

  evict_lru-IsSound : IsSound capacity (evict_lru c)
  unfolding evict_lru
  evict_lru-IsSound =
      if-cases (IsSound capacity) (leb (length c.cache) 0) (λ _. sound)
        (λ _. drop_key-IsSound (find_lru c.key_usage none))

  put-IsSound :
      (now : ℕ) (k : String) (v : V)
      → ((has k c.cache ≡ true) ⊎ (length c.cache + 1 ≤ max capacity 1))
      → IsSound capacity (put now k v c)
  unfolding put
  put-IsSound now k v room = record {
    capacity_eq = sound.capacity_eq;
    same_keys = λ j.
        ground (
          arith,
          sound.same_keys j,
          lookup-insert k j v c.cache,
          lookup-insert k j now c.key_usage,
        );
    cache_Distinct = insert-Distinct k v c.cache sound.cache_Distinct;
    usage_Distinct = insert-Distinct k now c.key_usage sound.usage_Distinct;
    bounded = elim room [
      | inl h ↦ ground (arith, h, sound.bounded, length-insert k v c.cache)
      | inr h ↦ ground (arith, h, length-insert k v c.cache)
    ];
  }

  get-IsSound : (now : ℕ) (k : String) → IsSound capacity (get now k c).1
  unfolding get
  get-IsSound now k = elim (Bool-cases (has k c.cache)) [
    | inl y ↦ rw y record {
      capacity_eq = sound.capacity_eq;
      same_keys =
          λ j. ground (arith, y, eq_iff k j, sound.same_keys j, lookup-insert k j now c.key_usage);
      cache_Distinct = sound.cache_Distinct;
      usage_Distinct = insert-Distinct k now c.key_usage sound.usage_Distinct;
      bounded = sound.bounded;
    }
    | inr n ↦ rw n sound
  ]

module _ {ℓ} {V : Type ℓ} (capacity : ℕ) where
  set-IsSound :
      (c : LruCache V) (now : ℕ) (k : String) (v : V)
      → IsSound capacity c
      → IsSound capacity (set now k v c)
  unfolding set
  set-IsSound c now k v sound =
      elim (Bool-cases (leb c.capacity (length c.cache) && not (has k c.cache))) [
        | inl y ↦ rw y (
            put-IsSound capacity (evict_lru c) (evict_lru-IsSound capacity c sound) now k v
              (inr (evict_lru-room capacity c sound)))
        | inr n ↦ rw n (
            put-IsSound capacity c sound now k v (elim (Bool-cases (has k c.cache)) [
              | inl h ↦ inl h
              | inr m ↦ inr (ground (arith, m, n, sound.capacity_eq))
            ]))
      ]

  call-IsSound : (x : Call V) (c : LruCache V) → IsSound capacity c → IsSound capacity (call x c)
  unfolding delete clear drop_key lookup
  call-IsSound (get_call now k) c s = get-IsSound capacity c s now k
  call-IsSound (set_call now k v) c s = set-IsSound c now k v s
  call-IsSound (delete_call k) c s = drop_key-IsSound capacity c s (some (k, 0))
  call-IsSound clear_call c s = record {
    capacity_eq = s.capacity_eq;
    same_keys = λ j. refl;
    cache_Distinct = tt;
    usage_Distinct = tt;
    bounded = omega arith;
  }

  run-IsSound_from :
      (xs : List (Call V)) (c : LruCache V) → IsSound capacity c → IsSound capacity (run xs c)
  run-IsSound_from [] c s = s
  run-IsSound_from (x ∷ xs) c s = run-IsSound_from xs (call x c) (call-IsSound x c s)

  -- Whatever is called on a new cache, its two maps have the same keys, each once, and there are no
  -- more of them than the capacity, or than one where the capacity is 0.
  pub run-IsSound : (xs : List (Call V)) → IsSound capacity (run xs (new_cache capacity))
  unfolding new_cache lookup
  run-IsSound xs = run-IsSound_from xs (new_cache capacity) record {
    capacity_eq = refl;
    same_keys = λ j. refl;
    cache_Distinct = tt;
    usage_Distinct = tt;
    bounded = omega arith;
  }
