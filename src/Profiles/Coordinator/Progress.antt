-- ===== src/Profiles/Coordinator/Progress.antt =====
-- No wanted profile is stranded: it is asked for, or a timer is armed for it.
use livelier.Base.{
  ℕ, ◌<◌, ◌≡◌, refl, ap, ◌⊎◌, Bool-cases, inl, inr, String, true, Option, none, some, List, [], ◌∷◌,
  arith, ltb, is_some,
}
use livelier.Base.Dict.{keys}
use livelier.Base.Keys.{mem, mem-count}
use livelier.Profiles.Cache.Interface.{ProfileCacheLike}
use livelier.Profiles.Ledger.{partition_pubkeys}
use livelier.Profiles.Ledger.Laws.{needs_fetch, count-partition_pubkeys}
use livelier.Profiles.Coordinator.Ops.{Coordinator}
use livelier.Profiles.Coordinator.Flush.{earliest_dispatch_at, flush, flush_now, dispatch, hold}

module _ (P : ProfileCacheLike) where
  -- What a flush does for a pubkey that needs a fetch: it stands in the batch, or the flush came too
  -- early, hands over nothing, and a timer is armed, for the earliest instant if none was armed.
  abbrev pub Served : ℕ → Coordinator P.Cache → String → Type 0
  Served now s j =
      ((batch : List String) × ((flush P now s).1 ≡ some batch) × (mem j batch ≡ true))
      ⊎ ((now < earliest_dispatch_at s)
          × ((flush P now s).1 ≡ none)
          × (is_some (flush P now s).0.boot_timer ≡ true)
          × (s.boot_timer ≡ none → (flush P now s).0.boot_timer ≡ some (earliest_dispatch_at s)))

  dispatch-hands_over :
      {C : Type 0} (now : ℕ) (missing : List String) (s : Coordinator C) (j : String)
      → mem j missing ≡ true
      → (dispatch now missing s).1 ≡ some missing
  unfolding dispatch mem
  dispatch-hands_over now [] s j m = cc
  dispatch-hands_over now (k ∷ rest) s j m = refl

  flush_now-batch :
      (now : ℕ) (ks : List String) (s : Coordinator P.Cache) (j : String)
      → mem j ks ≡ true
      → needs_fetch P s.in_flight s.failures now j s.cache ≡ true
      → (batch : List String) × ((flush_now P now ks s).1 ≡ some batch) × (mem j batch ≡ true)
  unfolding flush_now mem
  flush_now-batch now [] s j m h = cc
  flush_now-batch now (k ∷ rest) s j m h =
      let (p, cache) = partition_pubkeys P (k ∷ rest) s.cache s.in_flight s.failures now in
      let listed : mem j p.missing_pubkeys ≡ true = ground (
        arith,
        count-partition_pubkeys P s.in_flight s.failures now (k ∷ rest) j s.cache,
        mem-count j p.missing_pubkeys,
        mem-count j (k ∷ rest),
      ) in
      (p.missing_pubkeys, dispatch-hands_over now p.missing_pubkeys _ j listed, listed)

  hold-armed :
      (now : ℕ) (t : Option ℕ) (s : Coordinator P.Cache)
      → now < earliest_dispatch_at s
      → s.boot_timer ≡ t
      → (is_some (hold now t s).boot_timer ≡ true)
        × (t ≡ none → (hold now t s).boot_timer ≡ some (earliest_dispatch_at s))
  unfolding hold
  hold-armed now none s h e = (refl, λ _. ap some (omega arith))
  hold-armed now (some t) s h e = (rw e, λ n. cc)

  -- For a wanted pubkey that is not cached, not in flight and not cooling down, a flush hands out a batch
  -- with it; or it comes before the earliest dispatch instant, hands out nothing and leaves the boot timer
  -- armed, for that instant if it was not armed before.
  pub flush-Served :
      (now : ℕ) (s : Coordinator P.Cache) (j : String)
      → mem j (keys s.wanted) ≡ true
      → needs_fetch P s.in_flight s.failures now j s.cache ≡ true
      → Served now s j
  unfolding flush
  flush-Served now s j m h = elim (Bool-cases (ltb now (earliest_dispatch_at s))) [
    | inl early ↦
        let lt : now < earliest_dispatch_at s = ground arith in
        let (armed, at) = hold-armed now s.boot_timer s lt refl in
        inr (rw (early, flush) (lt, refl, armed, at))
    | inr due ↦ inl (rw (due, flush) (flush_now-batch now (keys s.wanted) s j m h))
  ]
