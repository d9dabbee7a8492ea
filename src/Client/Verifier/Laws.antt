-- ===== src/Client/Verifier/Laws.antt =====
-- event-verifier.ts: an id is trusted only for what was verified or signed under it, and the set is
-- bounded.
use livelier.Base.{
  ◌+◌, ◌-◌, ◌≤◌, String, Bool, true, false, ◌&&◌, ◌||◌, ◌≡◌, refl, List, [], ◌∷◌, length,
  length-append, leb, ◌==◌, if-cases, arith, eq_refl,
}
use livelier.Base.Keys.{mem, add, remove, mem-add, mem-remove}
use livelier.Client.Verifier.{
  SignedEvent, Verifier, max_verified_ids, drop_oldest, remember_verified, mark_event_verified,
  is_malformed, verify_first, cached_verify_event,
}

-- What the client does: it signs an event itself, or verifies one that a relay sent.
pub data Call : Type 0 where
  signs : String → Call
  receives : SignedEvent → Call

module _ (verify_event_pure : SignedEvent → Bool) where
  abbrev pub step : Call → Verifier → Verifier
  step (signs id) v = mark_event_verified id v
  step (receives e) v = (cached_verify_event verify_event_pure e v).1

  abbrev pub run : List Call → Verifier → Verifier
  run [] v = v
  run (c ∷ cs) v = run cs (step c v)

  -- That an id was signed here, or came with a signature that holds.
  abbrev pub vouches : String → Call → Bool
  vouches id (signs x) = x == id
  vouches id (receives e) = e.id == id && verify_event_pure e

  abbrev pub vouched : String → List Call → Bool
  vouched id [] = false
  vouched id (c ∷ cs) = vouches id c || vouched id cs

  remove-length : (k : String) (ids : List String) → length (remove k ids) ≤ length ids
  unfolding remove
  remove-length k [] = omega arith
  remove-length k (x ∷ xs) = ground (arith, remove-length k xs)

  drop_oldest-length : (ids : List String) → length (drop_oldest ids) ≤ length ids - 1
  unfolding drop_oldest remove
  drop_oldest-length [] = omega arith
  drop_oldest-length (x ∷ xs) = ground (arith, eq_refl x, remove-length x xs)

  add-length : (k : String) (ids : List String) → length (add k ids) ≤ length ids + 1
  unfolding add
  add-length k ids = ground (arith, length-append ids (k ∷ []))

  remember_verified-length :
      (id : String) (ids : List String)
      → length ids ≤ max_verified_ids
      → length (remember_verified id ids) ≤ max_verified_ids
  unfolding remember_verified
  remember_verified-length id ids h =
      if-cases (λ xs. length (add id xs) ≤ max_verified_ids) (leb max_verified_ids (length ids))
        (λ y. omega (arith, drop_oldest-length ids, add-length id (drop_oldest ids)))
        (λ n. ground (arith, n, add-length id ids))

  mem-drop_oldest :
      (j : String) (ids : List String) → mem j (drop_oldest ids) ≡ true → mem j ids ≡ true
  unfolding drop_oldest
  mem-drop_oldest j [] h = h
  mem-drop_oldest j (x ∷ xs) h = ground (arith, h, mem-remove x j (x ∷ xs))

  mem-remember_verified :
      (id j : String) (ids : List String)
      → mem j (remember_verified id ids) ≡ true
      → (id == j || mem j ids) ≡ true
  unfolding remember_verified
  mem-remember_verified id j ids h =
      if-cases (λ xs. mem j (add id xs) ≡ true → (id == j || mem j ids) ≡ true)
        (leb max_verified_ids (length ids))
        (λ _ k. ground (arith, k, mem-add id j (drop_oldest ids), mem-drop_oldest j ids))
        (λ _ k. ground (arith, k, mem-add id j ids)) h

  step-length :
      (c : Call) (v : Verifier)
      → length v.verified_ids ≤ max_verified_ids
      → length (step c v).verified_ids ≤ max_verified_ids
  unfolding mark_event_verified cached_verify_event
  step-length (signs id) v h = remember_verified-length id v.verified_ids h
  step-length (receives e) v h =
      if-cases Bounded (is_malformed e) (λ _. h)
        (λ _.
          if-cases Bounded (mem e.id v.verified_ids) (λ _. h)
            (λ _.
              if-cases Bounded (verify_event_pure e)
                (λ _. remember_verified-length e.id v.verified_ids h) (λ _. h)))
    where
      Bounded : Bool × Verifier → Type 0
      Bounded p = length p.1.verified_ids ≤ max_verified_ids

  step-vouched :
      (j : String) (c : Call) (v : Verifier)
      → mem j (step c v).verified_ids ≡ true
      → (vouches j c || mem j v.verified_ids) ≡ true
  unfolding mark_event_verified cached_verify_event verify_first
  step-vouched j (signs id) v h = mem-remember_verified id j v.verified_ids h
  step-vouched j (receives e) v h = ground (arith, h, mem-remember_verified e.id j v.verified_ids)

  run-vouched :
      (j : String) (cs : List Call) (v : Verifier)
      → mem j (run cs v).verified_ids ≡ true
      → (vouched j cs || mem j v.verified_ids) ≡ true
  run-vouched j [] v h = ground (arith, h)
  run-vouched j (c ∷ cs) v h = ground (arith, run-vouched j cs (step c v) h, step-vouched j c v)

  run-length :
      (cs : List Call) (v : Verifier)
      → length v.verified_ids ≤ max_verified_ids
      → length (run cs v).verified_ids ≤ max_verified_ids
  run-length [] v h = h
  run-length (c ∷ cs) v h = run-length cs (step c v) (step-length c v h)

  abbrev pub new_verifier : Verifier
  new_verifier = record { verified_ids = []; schnorr_count = 0; cache_hits = 0; rejected_count = 0 }

  -- After any calls, an event that is accepted has a valid signature of its own, or its id was signed
  -- here or came with a valid signature before; and the set of ids is within its limit.
  pub cached_verify_event-vouched :
      (cs : List Call) (e : SignedEvent)
      → (cached_verify_event verify_event_pure e (run cs new_verifier)).0 ≡ true
      → ((verify_event_pure e || vouched e.id cs) ≡ true)
        × (length (run cs new_verifier).verified_ids ≤ max_verified_ids)
  unfolding cached_verify_event verify_first
  cached_verify_event-vouched cs e h = (
    ground (arith, h, run-vouched e.id cs new_verifier, unheld e.id),
    run-length cs new_verifier (omega arith),
  )
    where
      unheld : (id : String) → mem id [] ≡ false
      unheld id = unfold mem in refl
