-- ===== src/Profiles/Coordinator/Waiting.antt =====
-- ProfileRequestCoordinator: `readKnown`, `getProfiles` and its wait. A wait has a listener on the
-- coordinator and a timer; a notification and the timer are functions on it.
use livelier.Base.{
  ℕ, String, Bool, true, false, not, ◌||◌, ◌≡◌, refl, Option, none, some, List, [], ◌∷◌, arith,
  if◌then◌else◌, if-cases, eq_refl,
}
use livelier.Base.Dict.{Dict, lookup, insert, has}
use livelier.Base.Keys.{mem, dedupe}
use livelier.Profiles.Backoff.{FailedProfileFetch}
use livelier.Profiles.Cache.Info.{ProfileInfo}
use livelier.Profiles.Cache.Interface.{ProfileCacheLike}
use livelier.Profiles.Coordinator.Ops.{
  Coordinator, Event, on_rejected, on_fetched, fetched_from, retain, release,
}
use livelier.Profiles.Coordinator.Retry.{Due, retry_limit, on_rejected-Due, on_fetched-Due}

pub record Wait : Type 0 where
  pub pubkeys : List String
  pub done : Bool
  pub listening : Bool
  pub armed : Bool

unfoldable pub finish : Wait → Wait
finish w = if w.done then w else record w { done = true; listening = false; armed = false }

module _ (P : ProfileCacheLike) where
  open P use {Cache, has_profile, get_profile}

  -- `hasProfile(pubkey) ? getProfile(pubkey) : null`
  unfoldable pub read_one : ℕ → String → Cache → Option ProfileInfo × Cache
  read_one now pubkey c =
      let hit = has_profile now pubkey c in
      if hit.0 then get_profile now pubkey hit.1 else (none, hit.1)

  unfoldable pub add_known : String → Option ProfileInfo → Dict ProfileInfo → Dict ProfileInfo
  add_known pubkey none result = result
  add_known pubkey (some profile) result = insert pubkey profile result

  unfoldable pub read_known_from :
      ℕ → List String → Dict ProfileInfo → Cache → Dict ProfileInfo × Cache
  unfolding read_one add_known
  read_known_from now [] result c = (result, c)
  read_known_from now (pubkey ∷ rest) result c =
      let r = read_one now pubkey c in read_known_from now rest (add_known pubkey r.0 result) r.1

  unfoldable pub read_known :
      ℕ → List String → Coordinator Cache → Dict ProfileInfo × Coordinator Cache
  unfolding read_known_from
  read_known now pubkeys s =
      let r = read_known_from now pubkeys [] s.cache in (r.0, record s { cache = r.1 })

  -- The result of `getProfiles`.
  unfoldable pub read_all_from :
      ℕ → List String → Dict (Option ProfileInfo) → Cache → Dict (Option ProfileInfo) × Cache
  unfolding read_one
  read_all_from now [] result c = (result, c)
  read_all_from now (pubkey ∷ rest) result c =
      let r = read_one now pubkey c in read_all_from now rest (insert pubkey r.0 result) r.1

  -- `pubkeys.every((pk) => this.isSettled(pk))`
  unfoldable pub all_settled : ℕ → List String → Coordinator Cache → Bool × Coordinator Cache
  all_settled now [] s = (true, s)
  all_settled now (pubkey ∷ rest) s =
      let hit = has_profile now pubkey s.cache in
      let s1 = record s { cache = hit.1 } in
      let later = all_settled now rest s1 in
      if hit.0 || has pubkey s.failures then later else (false, s1)

  unfoldable pub wait_until_settled : ℕ → List String → Coordinator Cache → Wait × Coordinator Cache
  unfolding all_settled
  wait_until_settled now pubkeys s =
      let r = all_settled now pubkeys s in
      (record { pubkeys = pubkeys; done = r.0; listening = not r.0; armed = not r.0 }, r.1)

  -- The start of `getProfiles`, up to its wait.
  unfoldable pub get_profiles : ℕ → List String → Coordinator Cache → Wait × Coordinator Cache
  unfolding wait_until_settled retain
  get_profiles now pubkeys s = wait_until_settled now (dedupe pubkeys) (retain pubkeys s)

  -- `emit` calls the listener.
  unfoldable pub on_notify : ℕ → Wait → Coordinator Cache → Wait × Coordinator Cache
  unfolding all_settled finish
  on_notify now w s =
      let r = all_settled now w.pubkeys s in
      if w.listening then (if r.0 then (finish w, r.1) else (w, r.1)) else (w, s)

  unfoldable pub on_wait_timeout : Wait → Wait
  unfolding finish
  on_wait_timeout w = if w.armed then finish w else w

  -- After the wait: the pubkeys are released, and what is known is read.
  unfoldable pub get_profiles_end :
      ℕ → List String → Coordinator Cache → Dict (Option ProfileInfo) × Coordinator Cache
  unfolding release read_all_from
  get_profiles_end now pubkeys s =
      let s1 = release now pubkeys s in
      let r = read_all_from now pubkeys [] s1.cache in (r.0, record s1 { cache = r.1 })

  all_settled-failed :
      (now : ℕ) (ks : List String) (s : Coordinator Cache)
      → ((j : String) → mem j ks ≡ true → has j s.failures ≡ true)
      → (all_settled now ks s).0 ≡ true
  unfolding all_settled mem
  all_settled-failed now [] s h = refl
  all_settled-failed now (k ∷ ks) s h =
      let hit = has_profile now k s.cache in
      let rest =
        all_settled-failed now ks (record s { cache = hit.1 }) (λ j m. h j (ground (arith, m))) in
      let failed : has k s.failures ≡ true = h k (ground (arith, eq_refl k)) in
      if-cases (λ (r : Bool × Coordinator Cache). r.0 ≡ true) (hit.0 || has k s.failures)
        (λ _. rest) (λ no. absurd (ground (arith, failed, no)))

  abbrev pub resolved : Wait → Wait
  resolved w = record w { done = true; listening = false; armed = false }

  -- A wait of which each pubkey has a failure resolves at a notification.
  on_notify-failed :
      (now : ℕ) (w : Wait) (s : Coordinator Cache)
      → w.listening ≡ true
      → w.done ≡ false
      → ((j : String) → mem j w.pubkeys ≡ true → has j s.failures ≡ true)
      → (on_notify now w s).0 ≡ resolved w
  unfolding on_notify finish
  on_notify-failed now w s listens waits h =
      rw (listens, all_settled-failed now w.pubkeys s h, waits) refl

  Due-has :
      (now : ℕ) (j : String) (failures : Dict FailedProfileFetch)
      → Due now (retry_limit now) j failures
      → has j failures ≡ true
  Due-has now j failures (f, e, _, _) = rw e refl

  -- A wait that still listens, and whose pubkeys were all in a batch that threw, resolves when the
  -- coordinator tells of it, with its listener and its timer gone.
  pub on_rejected-resolves :
      (now later : ℕ) (batch : List String) (w : Wait) (s : Coordinator Cache)
      → w.listening ≡ true
      → w.done ≡ false
      → ((j : String) → mem j w.pubkeys ≡ true → mem j batch ≡ true)
      → (on_notify later w (on_rejected now batch s)).0 ≡ resolved w
  on_rejected-resolves now later batch w s listens waits inside =
      on_notify-failed later w (on_rejected now batch s) listens waits (λ j m.
        Due-has now j (on_rejected now batch s).failures
          (on_rejected-Due now batch s j (inside j m)))

  -- So does a wait of whose pubkeys the batch had no usable profile.
  pub on_fetched-resolves :
      (parse : ℕ → String → Option ProfileInfo) (now later : ℕ) (batch : List String)
      (events : List (Option Event)) (w : Wait) (s : Coordinator Cache)
      → w.listening ≡ true
      → w.done ≡ false
      → ((j : String)
          → mem j w.pubkeys ≡ true
          → lookup j (fetched_from parse now batch events []) ≡ some none)
      → (on_notify later w (on_fetched parse P now batch events s)).0 ≡ resolved w
  on_fetched-resolves parse now later batch events w s listens waits missed =
      on_notify-failed later w (on_fetched parse P now batch events s) listens waits (λ j m.
        Due-has now j (on_fetched parse P now batch events s).failures
          (on_fetched-Due parse P now batch events s j (missed j m)))
