-- ===== src/Client/Batch.antt =====
-- client.service.ts: BatchLoader with text keys. `pending` is the batch that accepts joins, `full` the
-- batches that were replaced before their timer fired, `dispatched` those whose fetch is under way. That
-- a timer fires and that a fetch ends are functions on the state; `in_flight` has the keys of the map
-- of promises.
pub mod Laws
mod Tests
use livelier.Base.{
  ℕ, String, Bool, true, false, Option, none, some, List, [], ◌∷◌, ◌++◌, length, leb, if◌then◌else◌,
}
use livelier.Base.Keys.{mem, add, remove_all}
use livelier.Client.Lru.{LruCache, new_cache, get, set, delete}

pub record BatchLoader {ℓ} (V : Type ℓ) : Type ℓ where
  pub cache : LruCache V
  pub batch_size : ℕ
  pub pending : Option (List String)
  pub full : List (List String)
  pub dispatched : List (List String)
  pub in_flight : List String

module _ {ℓ} {V : Type ℓ} where
  unfoldable pub new_loader : ℕ → ℕ → BatchLoader V
  unfolding new_cache
  new_loader capacity batch_size = record {
    cache = new_cache capacity;
    batch_size = batch_size;
    pending = none;
    full = [];
    dispatched = [];
    in_flight = [];
  }

  -- `joinBatch`
  unfoldable pub join_at : String → Option (List String) → BatchLoader V → BatchLoader V
  join_at key none l = record l { pending = some (key ∷ []) }
  join_at key (some keys) l =
      if leb l.batch_size (length keys)
      then record l { pending = some (key ∷ []); full = keys ∷ l.full }
      else record l { pending = some (keys ++ key ∷ []) }

  unfoldable pub join_batch : String → BatchLoader V → BatchLoader V
  unfolding join_at
  join_batch key l = join_at key l.pending l

  -- `load` past the look into the cache: a key in flight shares the promise.
  unfoldable pub load_at : String → Option V → BatchLoader V → BatchLoader V
  unfolding join_batch add
  load_at key (some value) l = l
  load_at key none l =
      if mem key l.in_flight
      then l
      else record (join_batch key l) { in_flight = add key (join_batch key l).in_flight }

  unfoldable pub load : ℕ → String → BatchLoader V → BatchLoader V
  unfolding load_at get
  load now key l = let hit = get now key l.cache in load_at key hit.0 (record l { cache = hit.1 })

  -- The timer of the pending batch.
  unfoldable pub dispatch_at : Option (List String) → BatchLoader V → BatchLoader V
  dispatch_at none l = l
  dispatch_at (some keys) l = record l { pending = none; dispatched = keys ∷ l.dispatched }

  unfoldable pub dispatch_pending : BatchLoader V → BatchLoader V
  unfolding dispatch_at
  dispatch_pending l = dispatch_at l.pending l

  -- The timer of a batch that was full, between two lists of others.
  unfoldable pub dispatch_full :
      List (List String) → List String → List (List String) → BatchLoader V → BatchLoader V
  dispatch_full before keys after l = record l {
    full = before ++ after;
    dispatched = keys ∷ l.dispatched;
  }

  -- `keys.forEach((k, i) => { if (values[i] !== undefined) this.cache.set(k, values[i]) })`
  unfoldable pub store_values : ℕ → List String → List (Option V) → LruCache V → LruCache V
  unfolding set
  store_values now [] values cache = cache
  store_values now (k ∷ ks) [] cache = cache
  store_values now (k ∷ ks) (none ∷ values) cache = store_values now ks values cache
  store_values now (k ∷ ks) (some v ∷ values) cache = store_values now ks values (set now k v cache)

  -- A fetch ends, with no values where it threw: the promises of its keys are settled.
  unfoldable pub settle :
      ℕ
      → List (List String)
      → List String
      → List (List String)
      → List (Option V)
      → BatchLoader V
      → BatchLoader V
  unfolding store_values remove_all
  settle now before keys after values l = record l {
    cache = store_values now keys values l.cache;
    dispatched = before ++ after;
    in_flight = remove_all keys l.in_flight;
  }

  unfoldable pub clear_key : String → BatchLoader V → BatchLoader V
  unfolding delete
  clear_key key l = record l { cache = delete key l.cache }

  unfoldable pub prime_key : ℕ → String → V → BatchLoader V → BatchLoader V
  unfolding set
  prime_key now key value l = record l { cache = set now key value l.cache }
