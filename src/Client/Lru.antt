-- ===== src/Client/Lru.antt =====
-- packages/shared/src/nostr/services/client.service.ts: LRUCache, with text keys. `key_usage` is the
-- time of the last access of each key.
pub mod Laws
pub mod Eviction
use livelier.Base.{
  ℕ, String, Bool, Option, none, some, List, [], ◌∷◌, length, leb, ltb, not, ◌&&◌, if◌then◌else◌,
}
use livelier.Base.Dict.{Dict, lookup, insert, erase, has}

pub record LruCache {ℓ} (V : Type ℓ) : Type ℓ where
  pub capacity : ℕ
  pub cache : Dict V
  pub key_usage : Dict ℕ

-- `time < lruTime`, where no time yet is infinity.
unfoldable pub is_older : ℕ → Option (String × ℕ) → Bool
is_older time none = Bool.true
is_older time (some (_, lru_time)) = ltb time lru_time

-- The loop of `evictLRU` over the entries of `keyUsage`.
unfoldable pub find_lru : Dict ℕ → Option (String × ℕ) → Option (String × ℕ)
unfolding is_older
find_lru [] best = best
find_lru ((key, time) ∷ rest) best =
    find_lru rest (if is_older time best then some (key, time) else best)

module _ {ℓ} {V : Type ℓ} where
  unfoldable pub new_cache : ℕ → LruCache V
  new_cache capacity = record { capacity = capacity; cache = []; key_usage = [] }

  unfoldable pub drop_key : Option (String × ℕ) → LruCache V → LruCache V
  drop_key none c = c
  drop_key (some (key, _)) c = record c {
    cache = erase key c.cache;
    key_usage = erase key c.key_usage;
  }

  unfoldable pub evict_lru : LruCache V → LruCache V
  unfolding drop_key find_lru
  evict_lru c = if leb (length c.cache) 0 then c else drop_key (find_lru c.key_usage none) c

  unfoldable pub get : ℕ → String → LruCache V → Option V × LruCache V
  get now key c =
      if has key c.cache
      then (lookup key c.cache, record c { key_usage = insert key now c.key_usage })
      else (none, c)

  unfoldable pub put : ℕ → String → V → LruCache V → LruCache V
  put now key value c = record c {
    cache = insert key value c.cache;
    key_usage = insert key now c.key_usage;
  }

  -- `set`
  unfoldable pub set : ℕ → String → V → LruCache V → LruCache V
  unfolding evict_lru put
  set now key value c =
      put now key value
        (if leb c.capacity (length c.cache) && not (has key c.cache) then evict_lru c else c)

  unfoldable pub delete : String → LruCache V → LruCache V
  delete key c = record c { cache = erase key c.cache; key_usage = erase key c.key_usage }

  unfoldable pub clear : LruCache V → LruCache V
  clear c = record c { cache = []; key_usage = [] }
