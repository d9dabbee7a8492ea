-- ===== src/Client/Lru/Eviction.antt =====
-- client.service.ts: which entry LRUCache gives up for a new one.
use livelier.Base.{
  eq_refl, ap, ℕ, ◌≤◌, ◌⊎◌, String, false, not, ◌&&◌, ◌≡◌, refl, Option, none, some, [], ◌∷◌,
  length, leb, ltb, if◌then◌else◌, arith, eq_iff, ◌==◌, Bool-cases, Option-cases, inl, inr, All,
}
use livelier.Base.Dict.{Dict, lookup, has, lookup-insert, lookup-erase}
use livelier.Client.Lru.{LruCache, is_older, find_lru, drop_key, evict_lru, put, set}
use livelier.Client.Lru.Laws.{IsSound, find_lru-entry}

-- What an eviction drops was accessed no later than any other key.
find_lru-oldest :
    (es : Dict ℕ) (best : Option (String × ℕ)) (k : String) (t : ℕ)
    → find_lru es best ≡ some (k, t)
    → All (λ e. t ≤ e.1) es × ((b : String × ℕ) → best ≡ some b → t ≤ b.1)
unfolding find_lru is_older
find_lru-oldest [] best k t e = (tt, λ b h. ground (arith, e, h))
find_lru-oldest ((i, u) ∷ es) none k t e =
    let (rest, first) = find_lru-oldest es (some (i, u)) k t e in
    ((first (i, u) refl, rest), λ b h. absurd (ground (arith, h)))
find_lru-oldest ((i, u) ∷ es) (some (j, w)) k t e = elim (Bool-cases (ltb u w)) [
  | inl y ↦
      let (rest, first) =
        find_lru-oldest es (some (i, u)) k t
          (rw (← ap (λ b. find_lru es (if b then some (i, u) else some (j, w))) y) e) in
      ((first (i, u) refl, rest), λ b h. ground (arith, first (i, u) refl, y, h))
  | inr n ↦
      let (rest, first) =
        find_lru-oldest es (some (j, w)) k t
          (rw (← ap (λ b. find_lru es (if b then some (i, u) else some (j, w))) n) e) in
      ((ground (arith, first (j, w) refl, n), rest), λ b h. ground (arith, first (j, w) refl, h))
]

module _ {ℓ} {V : Type ℓ} (capacity : ℕ) (c : LruCache V) (sound : IsSound capacity c) where
  -- An eviction drops one entry at most, and that with the oldest access.
  evict_lru-oldest :
      (j : String) (w : V) (t : ℕ)
      → lookup j c.cache ≡ some w
      → lookup j c.key_usage ≡ some t
      → (lookup j (evict_lru c).cache ≡ some w) ⊎ All (λ e. t ≤ e.1) c.key_usage
  unfolding evict_lru
  evict_lru-oldest j w t held used = elim (Bool-cases (leb (length c.cache) 0)) [
    | inl y ↦ inl (rw y held)
    | inr n ↦ elim (Option-cases (find_lru c.key_usage none)) [
      | inl e ↦ inl (rw (n, e) (unfold drop_key in held))
      | inr ((k, u), e) ↦ elim (Bool-cases (k == j)) [
        | inl y ↦
            let same : u ≡ t = elim (find_lru-entry c.key_usage none k u sound.usage_Distinct e) [
              | inl h ↦ ground (arith, h, used, ap (λ x. lookup x c.key_usage) ((eq_iff k j).0 y))
              | inr h ↦ absurd (ground (arith, h))
            ] in
            inr (rw (← same) (find_lru-oldest c.key_usage none k u e).0)
        | inr m ↦
            inl (rw (n, e) (unfold drop_key in ground (arith, held, m, lookup-erase k j c.cache)))
      ]
    ]
  ]

  -- In a sound cache, a write is read back, and another entry stays as it is, except that a new key in
  -- a full cache may cost the entry whose last access is the oldest of all.
  pub set-evicts :
      (now : ℕ) (k j : String) (v w : V) (t : ℕ)
      → lookup j c.cache ≡ some w
      → lookup j c.key_usage ≡ some t
      → (k == j) ≡ false
      → (lookup k (set now k v c).cache ≡ some v)
        × ((lookup j (set now k v c).cache ≡ some w)
            ⊎ ((capacity ≤ length c.cache)
                × (has k c.cache ≡ false)
                × All (λ e. t ≤ e.1) c.key_usage))
  unfolding set put
  set-evicts now k j v w t held used other =
      elim (Bool-cases (leb c.capacity (length c.cache) && not (has k c.cache))) [
        | inl y ↦ rw y (
          ground (arith, eq_refl k, lookup-insert k k v (evict_lru c).cache),
          elim (evict_lru-oldest j w t held used) [
            | inl h ↦ inl (ground (arith, h, other, lookup-insert k j v (evict_lru c).cache))
            | inr h ↦ inr (ground (arith, y, sound.capacity_eq), ground (arith, y), h)
          ],
        )
        | inr n ↦ rw n (
          ground (arith, eq_refl k, lookup-insert k k v c.cache),
          inl (ground (arith, held, other, lookup-insert k j v c.cache)),
        )
      ]
