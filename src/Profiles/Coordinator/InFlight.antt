-- ===== src/Profiles/Coordinator/InFlight.antt =====
-- The in-flight set of the coordinator through a flush: what a flush hands over is what it marks.
use livelier.Base.{
  ℕ, ◌+◌, ◌-◌, ◌≤◌, ◌≡◌, refl, ◌∙◌, Bool-cases, inl, inr, String, Option, none, some, List, [], ◌∷◌,
  ◌++◌, if◌then◌else◌, arith, ltb,
}
use livelier.Base.Dict.{Dict, lookup, keys, insert-Distinct, erase-Distinct}
use livelier.Base.Keys.{mem, count, mem-count, mem-add_all, count-Distinct, Distinct}
use livelier.Profiles.Cache.Info.{ProfileInfo}
use livelier.Profiles.Cache.Interface.{ProfileCacheLike}
use livelier.Profiles.Ledger.{partition_pubkeys}
use livelier.Profiles.Ledger.Laws.{count-partition_pubkeys}
use livelier.Profiles.Coordinator.Ops.{
  Coordinator, count_up, count_down, count_down_one, apply_boot_fast_retry_lane,
}
use livelier.Profiles.Coordinator.Flush.{
  earliest_dispatch_at, flush, flush_now, dispatch, hold, emit_hits,
}
use livelier.Profiles.Coordinator.System.{System, send, fetches_of}

pub count_up-Distinct :
    (ks : List String) (w : Dict ℕ) → Distinct (keys w) → Distinct (keys (count_up ks w))
unfolding count_up
count_up-Distinct [] w d = d
count_up-Distinct (k ∷ ks) w d = count_up-Distinct ks _ (insert-Distinct k _ w d)

count_down_one-Distinct :
    (k : String) (o : Option ℕ) (w : Dict ℕ)
    → Distinct (keys w)
    → Distinct (keys (count_down_one k o w))
unfolding count_down_one
count_down_one-Distinct k none w d = d
count_down_one-Distinct k (some n) w d =
    ground (arith, erase-Distinct k w d, insert-Distinct k (n - 1) w d)

pub count_down-Distinct :
    (ks : List String) (w : Dict ℕ) → Distinct (keys w) → Distinct (keys (count_down ks w))
unfolding count_down
count_down-Distinct [] w d = d
count_down-Distinct (k ∷ ks) w d =
    count_down-Distinct ks _ (count_down_one-Distinct k (lookup k w) w d)

pub fetches_of-append :
    (j : String) (xs ys : List (List String))
    → fetches_of j (xs ++ ys) ≡ fetches_of j xs + fetches_of j ys
unfolding fetches_of
fetches_of-append j [] ys = omega arith
fetches_of-append j (b ∷ xs) ys = omega (arith, fetches_of-append j xs ys)

-- How much a pubkey weighs in a set, and in the batch of a flush.
abbrev pub weight : String → List String → ℕ
weight j s = if mem j s then 1 else 0

abbrev pub batch_count : String → Option (List String) → ℕ
batch_count j none = 0
batch_count j (some b) = count j b

-- The bookkeeping is exact: as many fetches ask for a pubkey as the in-flight set says.
pub record Inv {C : Type 0} (x : System C) : Type 0 where
  pub wanted_distinct : Distinct (keys x.coordinator.wanted)
  pub exact :
      (j : String) → fetches_of j x.outstanding ≡ (if mem j x.coordinator.in_flight then 1 else 0)

module _ {C : Type 0} where
  dispatch-weight :
      (now : ℕ) (missing : List String) (s : Coordinator C) (j : String)
      → count j missing + weight j s.in_flight ≤ 1
      → weight j (dispatch now missing s).0.in_flight
        ≡ batch_count j (dispatch now missing s).1 + weight j s.in_flight
  unfolding dispatch count
  dispatch-weight now [] s j h = ground arith
  dispatch-weight now (k ∷ rest) s j h =
      ground (arith, mem-add_all (k ∷ rest) j s.in_flight, mem-count j (k ∷ rest))

  hold-weight :
      (now : ℕ) (t : Option ℕ) (s : Coordinator C) (j : String)
      → weight j (hold now t s).in_flight ≡ weight j s.in_flight
  unfolding hold
  hold-weight now none s j = refl
  hold-weight now (some t) s j = refl

  emit_hits-in_flight :
      (hits : Dict ProfileInfo) (s : Coordinator C) → (emit_hits hits s).in_flight ≡ s.in_flight
  unfolding emit_hits
  emit_hits-in_flight [] s = refl
  emit_hits-in_flight (_ ∷ _) s = refl

  emit_hits-wanted :
      (hits : Dict ProfileInfo) (s : Coordinator C) → (emit_hits hits s).wanted ≡ s.wanted
  unfolding emit_hits
  emit_hits-wanted [] s = refl
  emit_hits-wanted (_ ∷ _) s = refl

  dispatch-wanted :
      (now : ℕ) (missing : List String) (s : Coordinator C)
      → (dispatch now missing s).0.wanted ≡ s.wanted
  unfolding dispatch
  dispatch-wanted now [] s = refl
  dispatch-wanted now (_ ∷ _) s = refl

  hold-wanted : (now : ℕ) (t : Option ℕ) (s : Coordinator C) → (hold now t s).wanted ≡ s.wanted
  unfolding hold
  hold-wanted now none s = refl
  hold-wanted now (some t) s = refl

  pub lane-in_flight :
      (now : ℕ) (ks : List String) (s : Coordinator C)
      → (apply_boot_fast_retry_lane now ks s).in_flight ≡ s.in_flight
  unfolding apply_boot_fast_retry_lane
  lane-in_flight now ks s = ground arith

  pub lane-wanted :
      (now : ℕ) (ks : List String) (s : Coordinator C)
      → (apply_boot_fast_retry_lane now ks s).wanted ≡ s.wanted
  unfolding apply_boot_fast_retry_lane
  lane-wanted now ks s = ground arith

module _ (P : ProfileCacheLike) where
  missing-le :
      (now : ℕ) (ks : List String) (s : Coordinator P.Cache) (j : String)
      → Distinct ks
      → count j (partition_pubkeys P ks s.cache s.in_flight s.failures now).0.missing_pubkeys
          + weight j s.in_flight
        ≤ 1
  missing-le now ks s j d = ground (
    arith,
    count-partition_pubkeys P s.in_flight s.failures now ks j s.cache,
    count-Distinct j ks d,
  )

  flush_now-weight :
      (now : ℕ) (ks : List String) (s : Coordinator P.Cache) (j : String)
      → Distinct ks
      → weight j (flush_now P now ks s).0.in_flight
        ≡ batch_count j (flush_now P now ks s).1 + weight j s.in_flight
  unfolding flush_now
  flush_now-weight now [] s j d = omega arith
  flush_now-weight now (k ∷ rest) s j d =
      let (p, cache) = partition_pubkeys P (k ∷ rest) s.cache s.in_flight s.failures now in
      let s' = emit_hits p.cached_profiles (record s { cache = cache }) in
      let same = emit_hits-in_flight p.cached_profiles (record s { cache = cache }) in
      rw same at
        (dispatch-weight now p.missing_pubkeys s' j (rw same (missing-le now (k ∷ rest) s j d)))

  flush_now-wanted :
      (now : ℕ) (ks : List String) (s : Coordinator P.Cache)
      → (flush_now P now ks s).0.wanted ≡ s.wanted
  unfolding flush_now
  flush_now-wanted now [] s = refl
  flush_now-wanted now (k ∷ rest) s =
      let (p, cache) = partition_pubkeys P (k ∷ rest) s.cache s.in_flight s.failures now in
      dispatch-wanted now p.missing_pubkeys
        (emit_hits p.cached_profiles (record s { cache = cache }))
      ∙ emit_hits-wanted p.cached_profiles (record s { cache = cache })

  pub flush-weight :
      (now : ℕ) (s : Coordinator P.Cache) (j : String)
      → Distinct (keys s.wanted)
      → weight j (flush P now s).0.in_flight
        ≡ batch_count j (flush P now s).1 + weight j s.in_flight
  unfolding flush
  flush-weight now s j d = elim (Bool-cases (ltb now (earliest_dispatch_at s))) [
    | inl early ↦ rw (early, flush) (omega (arith, hold-weight now s.boot_timer s j))
    | inr due ↦ rw (due, flush) (flush_now-weight now (keys s.wanted) s j d)
  ]

  pub flush-wanted : (now : ℕ) (s : Coordinator P.Cache) → (flush P now s).0.wanted ≡ s.wanted
  unfolding flush
  flush-wanted now s = elim (Bool-cases (ltb now (earliest_dispatch_at s))) [
    | inl early ↦ rw (early, flush) (hold-wanted now s.boot_timer s)
    | inr due ↦ rw (due, flush) (flush_now-wanted now (keys s.wanted) s)
  ]

  pub send-Inv :
      (x : System P.Cache) (r : Coordinator P.Cache × Option (List String))
      → Inv x
      → r.0.wanted ≡ x.coordinator.wanted
      → ((j : String)
          → weight j r.0.in_flight ≡ batch_count j r.1 + weight j x.coordinator.in_flight)
      → Inv (send x r)
  unfolding send fetches_of
  send-Inv x (s, none) v same w = record {
    wanted_distinct = rw same v.wanted_distinct;
    exact = λ j. omega (arith, v.exact j, w j);
  }
  send-Inv x (s, some b) v same w = record {
    wanted_distinct = rw same v.wanted_distinct;
    exact = λ j. omega (arith, v.exact j, w j);
  }
