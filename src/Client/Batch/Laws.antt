-- ===== src/Client/Batch/Laws.antt =====
-- client.service.ts: a key is fetched once at a time, in batches of a bounded size.
use livelier.Base.{
  ℕ, ◌+◌, ◌≤◌, String, false, ◌≡◌, refl, Option, none, some, List, [], ◌∷◌, ◌++◌, length,
  length-append, leb, if◌then◌else◌, if-cases, arith, eq_iff, ap, subst, All, All-split, Bool-cases,
  inl, inr,
}
use livelier.Base.Keys.{mem, add, count, count-append, mem-add, mem-remove_all, mem-count}
use livelier.Client.Lru.{LruCache, get, set, delete}
use livelier.Client.Batch.{
  BatchLoader, new_loader, join_at, load_at, load, dispatch_at, dispatch_pending, dispatch_full,
  settle, clear_key, prime_key,
}

abbrev pub count_all : String → List (List String) → ℕ
count_all j [] = 0
count_all j (keys ∷ rest) = count j keys + count_all j rest

count_all-append :
    (j : String) (xs ys : List (List String))
    → count_all j (xs ++ ys) ≡ count_all j xs + count_all j ys
count_all-append j [] ys = omega arith
count_all-append j (x ∷ xs) ys = omega (arith, count_all-append j xs ys)

abbrev pub batch_of : Option (List String) → List String
batch_of none = []
batch_of (some keys) = keys

abbrev pub Fits : ℕ → List String → Type 0
Fits batch_size keys = length keys ≤ batch_size

module _ {ℓ} {V : Type ℓ} where
  -- How often a key stands in the batches that are not settled.
  abbrev pub outstanding : String → BatchLoader V → ℕ
  outstanding j l = count j (batch_of l.pending) + count_all j l.full + count_all j l.dispatched

  pub record IsSound (batch_size : ℕ) (l : BatchLoader V) : Type 0 where
    pub size : l.batch_size ≡ batch_size
    pub single : (j : String) → outstanding j l ≡ (if mem j l.in_flight then 1 else 0)
    pub pending_fits : Fits batch_size (batch_of l.pending)
    pub full_fits : All (Fits batch_size) l.full
    pub dispatched_fits : All (Fits batch_size) l.dispatched

  pub data Step : BatchLoader V → BatchLoader V → Type ℓ where
    loads : (now : ℕ) (key : String) (l : BatchLoader V) → Step l (load now key l)
    pending_timer : (l : BatchLoader V) → Step l (dispatch_pending l)
    full_timer :
        (before : List (List String)) (keys : List String) (after : List (List String))
        (l : BatchLoader V)
        → l.full ≡ before ++ keys ∷ after
        → Step l (dispatch_full before keys after l)
    settles :
        (now : ℕ) (before : List (List String)) (keys : List String) (after : List (List String))
        (values : List (Option V)) (l : BatchLoader V)
        → l.dispatched ≡ before ++ keys ∷ after
        → Step l (settle now before keys after values l)
    clears : (key : String) (l : BatchLoader V) → Step l (clear_key key l)
    primes :
        (now : ℕ) (key : String) (value : V) (l : BatchLoader V)
        → Step l (prime_key now key value l)

  pub data Reach (start : BatchLoader V) : BatchLoader V → Type ℓ where
    here : Reach start start
    next : {l m : BatchLoader V} → Reach start l → Step l m → Reach start m

module _ {ℓ} {V : Type ℓ} (batch_size : ℕ) (some_room : 1 ≤ batch_size) where
  join_at-IsSound :
      (key : String) (o : Option (List String)) (l : BatchLoader V)
      → l.pending ≡ o
      → mem key l.in_flight ≡ false
      → IsSound batch_size l
      → IsSound batch_size
          (record (join_at key o l) { in_flight = add key (join_at key o l).in_flight })
  unfolding join_at count
  join_at-IsSound key none l e new s = record {
    size = s.size;
    single = λ j. ground (arith, e, new, s.single j, mem-add key j l.in_flight, eq_iff key j);
    pending_fits = some_room;
    full_fits = s.full_fits;
    dispatched_fits = s.dispatched_fits;
  }
  join_at-IsSound key (some keys) l e new s = elim (Bool-cases (leb l.batch_size (length keys))) [
    | inl y ↦ rw y record {
      size = s.size;
      single = λ j. ground (
        arith,
        ap (λ o. count j (batch_of o)) e,
        new,
        s.single j,
        mem-add key j l.in_flight,
        eq_iff key j,
      );
      pending_fits = some_room;
      full_fits = (subst (λ o. Fits batch_size (batch_of o)) e s.pending_fits, s.full_fits);
      dispatched_fits = s.dispatched_fits;
    }
    | inr n ↦ rw n record {
      size = s.size;
      single = λ j. ground (
        arith,
        ap (λ o. count j (batch_of o)) e,
        new,
        s.single j,
        mem-add key j l.in_flight,
        eq_iff key j,
        count-append j keys (key ∷ []),
      );
      pending_fits = ground (arith, n, s.size, length-append keys (key ∷ []));
      full_fits = s.full_fits;
      dispatched_fits = s.dispatched_fits;
    }
  ]

  load_at-IsSound :
      (key : String) (o : Option V) (l : BatchLoader V)
      → IsSound batch_size l
      → IsSound batch_size (load_at key o l)
  unfolding load_at
  load_at-IsSound key (some v) l s = s
  load_at-IsSound key none l s =
      if-cases (IsSound batch_size) (mem key l.in_flight) (λ _. s)
        (λ new. join_at-IsSound key l.pending l refl new s)

  -- The cache is no part of the soundness.
  recached-IsSound :
      (c : LruCache V) (l : BatchLoader V)
      → IsSound batch_size l
      → IsSound batch_size (record l { cache = c })
  recached-IsSound c l s = record {
    size = s.size;
    single = s.single;
    pending_fits = s.pending_fits;
    full_fits = s.full_fits;
    dispatched_fits = s.dispatched_fits;
  }

  dispatch_at-IsSound :
      (o : Option (List String)) (l : BatchLoader V)
      → l.pending ≡ o
      → IsSound batch_size l
      → IsSound batch_size (dispatch_at o l)
  unfolding dispatch_at count
  dispatch_at-IsSound none l e s = s
  dispatch_at-IsSound (some keys) l e s = record {
    size = s.size;
    single = λ j. ground (arith, ap (λ o. count j (batch_of o)) e, s.single j);
    pending_fits = omega arith;
    full_fits = s.full_fits;
    dispatched_fits =
        (subst (λ o. Fits batch_size (batch_of o)) e s.pending_fits, s.dispatched_fits);
  }

  dispatch_full-IsSound :
      (before : List (List String)) (keys : List String) (after : List (List String))
      (l : BatchLoader V)
      → l.full ≡ before ++ keys ∷ after
      → IsSound batch_size l
      → IsSound batch_size (dispatch_full before keys after l)
  unfolding dispatch_full
  dispatch_full-IsSound before keys after l e s =
      let (fits, rest) =
        All-split (Fits batch_size) before keys after
          (subst (All (Fits batch_size)) e s.full_fits) in
      record {
        size = s.size;
        single = λ j. omega (
          arith,
          s.single j,
          ap (count_all j) e,
          count_all-append j before (keys ∷ after),
          count_all-append j before after,
        );
        pending_fits = s.pending_fits;
        full_fits = rest;
        dispatched_fits = (fits, s.dispatched_fits);
      }

  settle-IsSound :
      (now : ℕ) (before : List (List String)) (keys : List String) (after : List (List String))
      (values : List (Option V)) (l : BatchLoader V)
      → l.dispatched ≡ before ++ keys ∷ after
      → IsSound batch_size l
      → IsSound batch_size (settle now before keys after values l)
  unfolding settle
  settle-IsSound now before keys after values l e s =
      let (fits, rest) =
        All-split (Fits batch_size) before keys after
          (subst (All (Fits batch_size)) e s.dispatched_fits) in
      record {
        size = s.size;
        single = λ j. ground (
          arith,
          s.single j,
          ap (count_all j) e,
          count_all-append j before (keys ∷ after),
          count_all-append j before after,
          mem-remove_all keys j l.in_flight,
          mem-count j keys,
        );
        pending_fits = s.pending_fits;
        full_fits = s.full_fits;
        dispatched_fits = rest;
      }

  Step-IsSound : {l m : BatchLoader V} → Step l m → IsSound batch_size l → IsSound batch_size m
  Step-IsSound (loads now key l) s =
      unfold load in
      load_at-IsSound key (get now key l.cache).0 (record l { cache = (get now key l.cache).1 })
        (recached-IsSound (get now key l.cache).1 l s)
  Step-IsSound (pending_timer l) s =
      unfold dispatch_pending in dispatch_at-IsSound l.pending l refl s
  Step-IsSound (full_timer before keys after l e) s = dispatch_full-IsSound before keys after l e s
  Step-IsSound (settles now before keys after values l e) s =
      settle-IsSound now before keys after values l e s
  Step-IsSound (clears key l) s = unfold clear_key in recached-IsSound (delete key l.cache) l s
  Step-IsSound (primes now key value l) s =
      unfold prime_key in recached-IsSound (set now key value l.cache) l s

  Reach-IsSound :
      {start l : BatchLoader V} → IsSound batch_size start → Reach start l → IsSound batch_size l
  Reach-IsSound s here = s
  Reach-IsSound s (next r st) = Step-IsSound st (Reach-IsSound s r)

  -- Where batches have room for a key: in every state that a loader can reach, a key stands in exactly
  -- one batch that is not settled if it is in flight, and in none otherwise, and no batch is longer than
  -- the batch size.
  pub Reach-single_batch :
      (capacity : ℕ) (l : BatchLoader V)
      → Reach (new_loader capacity batch_size) l
      → ((j : String) → outstanding j l ≡ (if mem j l.in_flight then 1 else 0))
        × Fits batch_size (batch_of l.pending)
        × All (Fits batch_size) l.full
        × All (Fits batch_size) l.dispatched
  unfolding new_loader count mem
  Reach-single_batch capacity l reach =
      let s =
        Reach-IsSound {start = new_loader capacity batch_size}
          record {
            size = refl;
            single = λ j. refl;
            pending_fits = omega arith;
            full_fits = tt;
            dispatched_fits = tt;
          }
          reach in
      (s.single, s.pending_fits, s.full_fits, s.dispatched_fits)
