-- ===== src/Client/Signing/Laws.antt =====
-- client.service.ts: which signatures `createSignedEvent` shares, and that no two of one hash run at
-- once.
use livelier.Base.{
  ℕ, ◌+◌, ◌≤◌, String, Bool, true, false, ◌≡◌, refl, Option, none, some, is_some, List, [], ◌∷◌,
  ◌++◌, eqb, if◌then◌else◌, Bool-cases, inl, inr, arith, ap,
}
use livelier.Base.Text.{cat}
use livelier.Client.Replaceable.{Event}
use livelier.Client.Signing.{
  SigningRequest, Signing, Answer, cached, shared, started, find_hash, set_hash, delete_hash,
  hash_event_request, ask_at, create_signed_event, on_signed, on_cleanup,
}
use livelier.Client.Signing.Hash.{hash_event_request-collides}

module _ {ℓ} {V : Type ℓ} where
  find_hash-set_hash :
      (h j : ℕ) (v : V) (m : List (ℕ × V))
      → find_hash j (set_hash h v m) ≡ (if eqb h j then some v else find_hash j m)
  unfolding find_hash set_hash
  find_hash-set_hash h j v [] = refl
  find_hash-set_hash h j v ((i, w) ∷ m) = ground (arith, find_hash-set_hash h j v m)

  find_hash-delete_hash :
      (h j : ℕ) (m : List (ℕ × V))
      → find_hash j (delete_hash h m) ≡ (if eqb h j then none else find_hash j m)
  unfolding find_hash delete_hash
  find_hash-delete_hash h j [] = ground arith
  find_hash-delete_hash h j ((i, w) ∷ m) = ground (arith, find_hash-delete_hash h j m)

-- A signature is kept for its hash, so that a later request with the same hash gets it, whatever its
-- content.
on_signed-shared :
    (r other : SigningRequest) (e : Event) (s : Signing)
    → hash_event_request r ≡ hash_event_request other
    → (create_signed_event other (on_signed r (some e) s)).0 ≡ cached e
unfolding create_signed_event on_signed
on_signed-shared r other e s same =
    let after = on_signed r (some e) s in
    let found : find_hash (hash_event_request other) after.signed_event_cache ≡ some e = ground (
      arith,
      same,
      find_hash-set_hash (hash_event_request r) (hash_event_request other) e s.signed_event_cache,
    ) in
    ap
      (λ o. (ask_at other o (find_hash (hash_event_request other) after.inflight_requests) after).0)
      found

-- Once a content with "Aa" in it is signed, a request for the content with "BB" in its place gets the
-- signed event of the other content, as long as that is kept.
pub create_signed_event-collides :
    (r : SigningRequest) (p q : String) (e : Event) (s : Signing)
    → (create_signed_event
        (record r { content = cat p (cat "BB" q) })
        (on_signed (record r { content = cat p (cat "Aa" q) }) (some e) s)).0
      ≡ cached e
create_signed_event-collides r p q e s =
    on_signed-shared (record r { content = cat p (cat "Aa" q) })
      (record r { content = cat p (cat "BB" q) }) e s (hash_event_request-collides r p q)

-- `createSignedEvent` among its callers: `running` has the hash of each signature that the signer was
-- asked for and that has not come back.
pub record System : Type 0 where
  pub signing : Signing
  pub running : List ℕ

abbrev pub is_started : Answer → Bool
is_started (cached e) = false
is_started (shared r) = false
is_started started = true

unfoldable pub call : SigningRequest → System → System
unfolding create_signed_event
call r x =
    let answer = create_signed_event r x.signing in
    record {
      signing = answer.1;
      running = if is_started answer.0 then hash_event_request r ∷ x.running else x.running;
    }

pub data Step : System → System → Type 0 where
  calls : (r : SigningRequest) (x : System) → Step x (call r x)
  signed :
      (r : SigningRequest) (e : Option Event) (before after : List ℕ) (x : System)
      → x.running ≡ before ++ hash_event_request r ∷ after
      → Step x record { signing = on_signed r e x.signing; running = before ++ after }
  cleanup : (hash : ℕ) (x : System) → Step x (record x { signing = on_cleanup hash x.signing })

pub data Reach (start : System) : System → Type 0 where
  here : Reach start start
  next : {x y : System} → Reach start x → Step x y → Reach start y

abbrev pub times : ℕ → List ℕ → ℕ
times h [] = 0
times h (x ∷ xs) = (if eqb x h then 1 else 0) + times h xs

times-append : (h : ℕ) (xs ys : List ℕ) → times h (xs ++ ys) ≡ times h xs + times h ys
times-append h [] ys = omega arith
times-append h (x ∷ xs) ys = omega (arith, times-append h xs ys)

abbrev Single : System → Type 0
Single x =
    (h : ℕ)
    → times h x.running ≡ (if is_some (find_hash h x.signing.inflight_requests) then 1 else 0)

call-Single : (r : SigningRequest) (x : System) → Single x → Single (call r x)
unfolding call
call-Single r x s h =
    found (find_hash (hash_event_request r) x.signing.signed_event_cache)
      (find_hash (hash_event_request r) x.signing.inflight_requests) refl
  where
    found :
        (c : Option Event) (o : Option SigningRequest)
        → find_hash (hash_event_request r) x.signing.inflight_requests ≡ o
        → times h (
            if is_started (ask_at r c o x.signing).0
            then hash_event_request r ∷ x.running
            else x.running)
          ≡ (if is_some (find_hash h (ask_at r c o x.signing).1.inflight_requests) then 1 else 0)
    found (some e) o q = s h
    found none (some first) q = s h
    found none none q = elim (Bool-cases (eqb (hash_event_request r) h)) [
      | inl y ↦
          let same : hash_event_request r ≡ h = ground (arith, y) in
          ground (
            arith,
            y,
            s h,
            ap (λ k. find_hash k x.signing.inflight_requests) same,
            q,
            find_hash-set_hash (hash_event_request r) h r x.signing.inflight_requests,
          )
      | inr n ↦
          ground (
            arith,
            n,
            s h,
            find_hash-set_hash (hash_event_request r) h r x.signing.inflight_requests,
          )
    ]

removed :
    (r : SigningRequest) (before after : List ℕ) (x : System)
    → x.running ≡ before ++ hash_event_request r ∷ after
    → Single x
    → (h : ℕ)
    → times h (before ++ after) ≡ (
        if is_some (find_hash h (delete_hash (hash_event_request r) x.signing.inflight_requests))
        then 1
        else 0)
removed r before after x q s h = ground (
  arith,
  s h,
  ap (times h) q,
  times-append h before (hash_event_request r ∷ after),
  times-append h before after,
  find_hash-delete_hash (hash_event_request r) h x.signing.inflight_requests,
)

signed-Single :
    (r : SigningRequest) (e : Option Event) (before after : List ℕ) (x : System)
    → x.running ≡ before ++ hash_event_request r ∷ after
    → Single x
    → Single record { signing = on_signed r e x.signing; running = before ++ after }
unfolding on_signed
signed-Single r none before after x q s h = removed r before after x q s h
signed-Single r (some e) before after x q s h = removed r before after x q s h

Step-Single : {x y : System} → Step x y → Single x → Single y
Step-Single (calls r x) s = call-Single r x s
Step-Single (signed r e before after x q) s = signed-Single r e before after x q s
Step-Single (cleanup hash x) s = unfold on_cleanup in s

abbrev pub idle : System
idle = record {
  signing = record { signed_event_cache = []; inflight_requests = []; cleanup_timers = [] };
  running = [];
}

Reach-Single : {x : System} → Reach idle x → Single x
unfolding find_hash
Reach-Single here h = refl
Reach-Single (next r st) h = Step-Single st (Reach-Single r) h

-- However requests, signatures and timers come, no two signatures of one hash run at once: the signer
-- is asked for a hash only while none is pending.
pub Reach-single_signing : {x : System} → Reach idle x → (h : ℕ) → times h x.running ≤ 1
Reach-single_signing r h = ground (arith, Reach-Single r h)
