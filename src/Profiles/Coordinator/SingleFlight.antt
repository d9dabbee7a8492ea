-- ===== src/Profiles/Coordinator/SingleFlight.antt =====
-- No pubkey is ever asked for by two fetches at once.
use livelier.Base.{
  ℕ, ◌≡◌, refl, String, not, ◌&&◌, ◌||◌, Option, none, List, [], ◌∷◌, ◌++◌, if◌then◌else◌, arith,
}
use livelier.Base.Dict.{Dict, insert, has, keys, insert-Distinct, lookup-insert, lookup_nil}
use livelier.Base.Keys.{mem, dedupe, remove_all, mem-count, mem-remove_all, Distinct}
use livelier.Profiles.MissCache.{ProfileMissCache}
use livelier.Profiles.Cache.Info.{ProfileInfo}
use livelier.Profiles.Cache.Interface.{ProfileCacheLike}
use livelier.Profiles.Ledger.{apply_fetched_profiles, release_failed_pubkeys}
use livelier.Profiles.Ledger.Laws.{apply_fetched_profiles_lem, mem-release}
use livelier.Profiles.Coordinator.Ops.{
  Coordinator, Event, create, on_hydrated, retain, release, on_fetched, on_rejected, fetched_from,
  event_to_profile, head_or_none, rest_of, apply_early_profile_event,
}
use livelier.Profiles.Coordinator.Flush.{on_boot_timer, on_retry_timer, refresh_begin, refresh_end}
use livelier.Profiles.Coordinator.System.{
  System, fetches_of, boot, Step, Reach, tick, hydrates, retains, releases, flushes,
  boot_timer_fires, retry_timer_fires, streams, fetched, rejected, refresh_begins, refresh_ends,
  here, next,
}
use livelier.Profiles.Coordinator.InFlight.{
  Inv, count_up-Distinct, count_down-Distinct, fetches_of-append, lane-in_flight, lane-wanted,
  flush-weight, flush-wanted, send-Inv,
}

on_rejected-in_flight :
    {C : Type 0} (now : ℕ) (ks : List String) (s : Coordinator C) (j : String)
    → mem j (on_rejected now ks s).in_flight ≡ (not (mem j ks) && mem j s.in_flight)
unfolding on_rejected
on_rejected-in_flight now ks s j =
    let (in_flight, failures) = release_failed_pubkeys ks s.in_flight s.failures now in
    rw (lane-in_flight now ks (record s { in_flight = in_flight; failures = failures }))
      (mem-release ks s.in_flight s.failures now j)

on_rejected-wanted :
    {C : Type 0} (now : ℕ) (ks : List String) (s : Coordinator C)
    → (on_rejected now ks s).wanted ≡ s.wanted
unfolding on_rejected
on_rejected-wanted now ks s =
    let (in_flight, failures) = release_failed_pubkeys ks s.in_flight s.failures now in
    lane-wanted now ks (record s { in_flight = in_flight; failures = failures })

-- An answered batch leaves the list of outstanding ones and the in-flight set together.
answer-exact :
    {C : Type 0} (x : System C) (before after : List (List String)) (batch in_flight : List String)
    → Inv x
    → x.outstanding ≡ before ++ batch ∷ after
    → ((j : String) → mem j in_flight ≡ (not (mem j batch) && mem j x.coordinator.in_flight))
    → (j : String) → fetches_of j (before ++ after) ≡ (if mem j in_flight then 1 else 0)
answer-exact x before after batch in_flight v e h j =
    let total : fetches_of j (before ++ batch ∷ after)
        ≡ (if mem j x.coordinator.in_flight then 1 else 0) =
      rw e at (v.exact j) in
    unfold fetches_of in
    ground (
      arith,
      total,
      h j,
      mem-count j batch,
      fetches_of-append j before after,
      fetches_of-append j before (batch ∷ after),
    )

module _ (parse : ℕ → String → Option ProfileInfo) where
  fetched_from-keys :
      (now : ℕ) (ks : List String) (events : List (Option Event)) (m : Dict (Option ProfileInfo))
      (j : String)
      → has j (fetched_from parse now ks events m) ≡ (mem j ks || has j m)
  unfolding fetched_from mem
  fetched_from-keys now [] events m j = refl
  fetched_from-keys now (k ∷ ks) events m j =
      let p = event_to_profile parse now (head_or_none events) in
      ground
        (arith, lookup-insert k j p m, fetched_from-keys now ks (rest_of events) (insert k p m) j)

  pub fetched_from-Distinct :
      (now : ℕ) (ks : List String) (events : List (Option Event)) (m : Dict (Option ProfileInfo))
      → Distinct (keys m)
      → Distinct (keys (fetched_from parse now ks events m))
  unfolding fetched_from
  fetched_from-Distinct now [] events m d = d
  fetched_from-Distinct now (k ∷ ks) events m d =
      fetched_from-Distinct now ks (rest_of events) _ (insert-Distinct k _ m d)

  module _ (P : ProfileCacheLike) where
    on_fetched-in_flight :
        (now : ℕ) (ks : List String) (events : List (Option Event)) (s : Coordinator P.Cache)
        (j : String)
        → mem j (on_fetched parse P now ks events s).in_flight
          ≡ (not (mem j ks) && mem j s.in_flight)
    unfolding on_fetched
    on_fetched-in_flight now ks events s j =
        let got = fetched_from parse now ks events [] in
        let settled = apply_fetched_profiles P got s.cache s.in_flight s.failures now in
        rw
          (lane-in_flight now ks (record s {
            cache = settled.cache;
            in_flight = remove_all ks settled.requested;
            failures = settled.failures;
          }))
          (ground (
            arith,
            mem-remove_all ks j settled.requested,
            (apply_fetched_profiles_lem P got s.cache s.in_flight s.failures now j
                (fetched_from-Distinct now ks events [] tt)).1,
            fetched_from-keys now ks events [] j,
            lookup_nil {V = Option ProfileInfo} j,
          ))

    on_fetched-wanted :
        (now : ℕ) (ks : List String) (events : List (Option Event)) (s : Coordinator P.Cache)
        → (on_fetched parse P now ks events s).wanted ≡ s.wanted
    unfolding on_fetched
    on_fetched-wanted now ks events s =
        let got = fetched_from parse now ks events [] in
        let settled = apply_fetched_profiles P got s.cache s.in_flight s.failures now in
        lane-wanted now ks (record s {
          cache = settled.cache;
          in_flight = remove_all ks settled.requested;
          failures = settled.failures;
        })

    early-same :
        (now : ℕ) (e : Event) (s : Coordinator P.Cache)
        → ((apply_early_profile_event parse P now e s).wanted ≡ s.wanted)
          × ((apply_early_profile_event parse P now e s).in_flight ≡ s.in_flight)
    unfolding apply_early_profile_event
    early-same now e s = (ground arith, ground arith)

    refresh_begin-same :
        (now : ℕ) (ks : List String) (previous : Dict ProfileInfo) (s : Coordinator P.Cache)
        → ((refresh_begin P now ks previous s).1.wanted ≡ s.wanted)
          × ((refresh_begin P now ks previous s).1.in_flight ≡ s.in_flight)
    unfolding refresh_begin
    refresh_begin-same now [] previous s = (refl, refl)
    refresh_begin-same now (k ∷ ks) previous s = refresh_begin-same now ks _ _

    refresh_end-same :
        (now : ℕ) (ks : List String) (previous : Dict ProfileInfo)
        (result : Dict (Option ProfileInfo)) (s : Coordinator P.Cache)
        → ((refresh_end P now ks previous result s).1.wanted ≡ s.wanted)
          × ((refresh_end P now ks previous result s).1.in_flight ≡ s.in_flight)
    unfolding refresh_end
    refresh_end-same now ks previous result s = (refl, refl)

    same-Inv :
        (x : System P.Cache) (s : Coordinator P.Cache)
        → Inv x
        → (s.wanted ≡ x.coordinator.wanted) × (s.in_flight ≡ x.coordinator.in_flight)
        → Inv (record x { coordinator = s })
    same-Inv x s v (w, f) = record {
      wanted_distinct = rw w v.wanted_distinct;
      exact = λ j. rw f (v.exact j);
    }

    Step-Inv : {x y : System P.Cache} → Step parse P x y → Inv x → Inv y
    unfolding retain release on_hydrated on_boot_timer on_retry_timer
    Step-Inv (tick now h) v = record { wanted_distinct = v.wanted_distinct; exact = v.exact }
    Step-Inv (hydrates missed) v = record { wanted_distinct = v.wanted_distinct; exact = v.exact }
    Step-Inv {x} (retains ks) v = record {
      wanted_distinct = count_up-Distinct (dedupe ks) x.coordinator.wanted v.wanted_distinct;
      exact = v.exact;
    }
    Step-Inv {x} (releases ks) v = record {
      wanted_distinct = count_down-Distinct (dedupe ks) x.coordinator.wanted v.wanted_distinct;
      exact = v.exact;
    }
    Step-Inv {x} flushes v =
        send-Inv P x _ v (flush-wanted P x.clock x.coordinator)
          (λ j. flush-weight P x.clock x.coordinator j v.wanted_distinct)
    Step-Inv {x} boot_timer_fires v =
        let s = record (x.coordinator) { boot_timer = none } in
        send-Inv P x _ v (flush-wanted P x.clock s)
          (λ j. flush-weight P x.clock s j v.wanted_distinct)
    Step-Inv {x} retry_timer_fires v =
        let s = record (x.coordinator) { retry_timer = none } in
        send-Inv P x _ v (flush-wanted P x.clock s)
          (λ j. flush-weight P x.clock s j v.wanted_distinct)
    Step-Inv {x} (streams e) v = same-Inv x _ v (early-same x.clock e x.coordinator)
    Step-Inv {x} (fetched before after batch events e) v = record {
      wanted_distinct = rw (on_fetched-wanted x.clock batch events x.coordinator) v.wanted_distinct;
      exact =
          answer-exact x before after batch _ v e
            (on_fetched-in_flight x.clock batch events x.coordinator);
    }
    Step-Inv {x} (rejected before after batch e) v = record {
      wanted_distinct = rw (on_rejected-wanted x.clock batch x.coordinator) v.wanted_distinct;
      exact =
          answer-exact x before after batch _ v e
            (on_rejected-in_flight x.clock batch x.coordinator);
    }
    Step-Inv {x} (refresh_begins ks previous) v =
        same-Inv x _ v (refresh_begin-same x.clock ks previous x.coordinator)
    Step-Inv {x} (refresh_ends ks previous result) v =
        same-Inv x _ v (refresh_end-same x.clock ks previous result x.coordinator)

    Reach-Inv : {x y : System P.Cache} → Inv x → Reach parse P x y → Inv y
    Reach-Inv v here = v
    Reach-Inv v (next r st) = Step-Inv st (Reach-Inv v r)

    boot-Inv : (now : ℕ) (cache : P.Cache) (misses : ProfileMissCache) → Inv (boot now cache misses)
    unfolding boot create fetches_of mem
    boot-Inv now cache misses = record { wanted_distinct = tt; exact = λ j. refl }

    -- Whatever callers, relays, timers and the clock do after the start, a pubkey is in as many
    -- outstanding fetches as the in-flight set says: one if it is marked, none otherwise.
    pub Reach-single_flight :
        (now : ℕ) (cache : P.Cache) (misses : ProfileMissCache) (x : System P.Cache) (j : String)
        → Reach parse P (boot now cache misses) x
        → fetches_of j x.outstanding ≡ (if mem j x.coordinator.in_flight then 1 else 0)
    Reach-single_flight now cache misses x j r = (Reach-Inv (boot-Inv now cache misses) r).exact j
