-- ===== src/Owncast/Pool/Laws.antt =====
-- chat-pool.ts: how many senders an instance has, and which tokens they use.
use livelier.Base.{
  ◌+◌, ◌≤◌, String, Bool, true, not, ◌&&◌, ◌≡◌, refl, Option, none, some, is_some, List, [], ◌∷◌,
  length, leb, ◌==◌, if◌then◌else◌, if-cases, arith, eq_iff, eq_refl, subst, sym, map, ◌∙◌,
}
use livelier.Base.Dict.{Dict, lookup, insert, length-insert, lookup-insert, lookup-erase}
use livelier.Base.Keys.{mem, mem-dedupe}
use livelier.Owncast.Pool.{
  get_owncast_user_ids, enqueue, new_conn, ChatPool, ChatterConn, ChatterToken, per_instance_cap,
  inner, send, send_on, update_conn, update_at, destroy_instance, register, keep_token,
}

-- No instance has more senders than the cap.
abbrev pub Capped : ChatPool → Type 0
Capped p = (url : String) → length (inner (lookup url p.conns)) ≤ per_instance_cap

-- What is done to a pool: a send, a callback of a connection, a registration, a destruction.
pub data Call : Type 0 where
  sends : String → String → String → Call
  calls_back : (ChatterConn → ChatterConn) → String → String → Call
  registers : String → String → ChatterToken → Call
  destroys : String → Call

abbrev pub step : Call → ChatPool → ChatPool
step (sends url pubkey payload) p = (send url pubkey payload p).1
step (calls_back f url pubkey) p = update_conn f url pubkey p
step (registers url pubkey answer) p = register url pubkey answer p
step (destroys url) p = destroy_instance url p

abbrev pub run : List Call → ChatPool → ChatPool
run [] p = p
run (c ∷ cs) p = run cs (step c p)

send_on-length :
    (pubkey payload : String) (m : Dict ChatterConn)
    → length (send_on pubkey payload (lookup pubkey m) m)
      ≡ (if is_some (lookup pubkey m) then length m else length m + 1)
unfolding send_on
send_on-length pubkey payload m = found (lookup pubkey m) refl
  where
    found :
        (o : Option ChatterConn)
        → lookup pubkey m ≡ o
        → length (send_on pubkey payload o m) ≡ (if is_some o then length m else length m + 1)
    found none e = ground (arith, e, length-insert pubkey (enqueue payload new_conn) m)
    found (some c) e = ground (arith, e, length-insert pubkey (enqueue payload c) m)

update_at-length :
    (f : ChatterConn → ChatterConn) (pubkey : String) (m : Dict ChatterConn)
    → length (update_at f pubkey (lookup pubkey m) m) ≡ length m
unfolding update_at
update_at-length f pubkey m = found (lookup pubkey m) refl
  where
    found :
        (o : Option ChatterConn) → lookup pubkey m ≡ o → length (update_at f pubkey o m) ≡ length m
    found none e = refl
    found (some c) e = ground (arith, e, length-insert pubkey (f c) m)

-- An instance's senders are replaced by a list within the cap.
replace-Capped :
    (url : String) (m : Dict ChatterConn) (p : ChatPool)
    → length m ≤ per_instance_cap
    → Capped p
    → Capped (record p { conns = insert url m p.conns })
unfolding inner
replace-Capped url m p le h j = ground (arith, le, h j, lookup-insert url j m p.conns)

step-Capped : (c : Call) (p : ChatPool) → Capped p → Capped (step c p)
unfolding send update_conn register destroy_instance
step-Capped (sends url pubkey payload) p h =
    let m = inner (lookup url p.conns) in
    if-cases (λ (x : Bool × ChatPool). Capped x.1)
      (not (is_some (lookup pubkey m)) && leb per_instance_cap (length m))
      (λ _. replace-Capped url m p (h url) h)
      (λ room.
        replace-Capped url (send_on pubkey payload (lookup pubkey m) m) p
          (ground (arith, room, h url, send_on-length pubkey payload m)) h)
step-Capped (calls_back f url pubkey) p h =
    let m = inner (lookup url p.conns) in
    replace-Capped url (update_at f pubkey (lookup pubkey m) m) p
      (omega (arith, h url, update_at-length f pubkey m)) h
step-Capped (registers url pubkey answer) p h = h
step-Capped (destroys url) p h =
    λ j. unfold inner in ground (arith, h j, lookup-erase url j p.conns)

run-Capped_from : (cs : List Call) (p : ChatPool) → Capped p → Capped (run cs p)
run-Capped_from [] p h = h
run-Capped_from (c ∷ cs) p h = run-Capped_from cs (step c p) (step-Capped c p h)

abbrev pub new_pool : ChatPool
new_pool = record { conns = []; tokens = [] }

-- Whatever is done to a new pool, no instance ever has more than 50 senders in it.
pub run-Capped : (cs : List Call) → Capped (run cs new_pool)
unfolding inner lookup
run-Capped cs = run-Capped_from cs new_pool (λ url. omega arith)

-- The token of a sender of an instance.
abbrev pub token_of : String → String → ChatPool → Option ChatterToken
token_of url pubkey p = lookup pubkey (inner (lookup url p.tokens))

keep_token-keeps :
    (pubkey j : String) (answer t : ChatterToken) (m : Dict ChatterToken)
    → lookup j m ≡ some t
    → lookup j (keep_token (lookup pubkey m) pubkey answer m) ≡ some t
unfolding keep_token
keep_token-keeps pubkey j answer t m h = found (lookup pubkey m) refl
  where
    found :
        (o : Option ChatterToken)
        → lookup pubkey m ≡ o
        → lookup j (keep_token o pubkey answer m) ≡ some t
    found none e = ground (arith, e, h, eq_iff pubkey j, lookup-insert pubkey j answer m)
    found (some x) e = h

register-keeps :
    (url pubkey i j : String) (answer t : ChatterToken) (p : ChatPool)
    → token_of i j p ≡ some t
    → token_of i j (register url pubkey answer p) ≡ some t
unfolding register
register-keeps url pubkey i j answer t p h =
    let m = inner (lookup url p.tokens) in
    let m' = keep_token (lookup pubkey m) pubkey answer m in
    rw (lookup-insert url i m' p.tokens) (
      if-cases (λ (o : Option (Dict ChatterToken)). lookup j (inner o) ≡ some t) (url == i)
        (λ y.
          unfold inner in
          keep_token-keeps pubkey j answer t m
            (subst (λ u. token_of u j p ≡ some t) (sym ((eq_iff url i).0 y)) h))
        (λ _. h))

step-keeps :
    (i j : String) (t : ChatterToken) (c : Call) (p : ChatPool)
    → token_of i j p ≡ some t
    → token_of i j (step c p) ≡ some t
unfolding send update_conn destroy_instance
step-keeps i j t (sends url pubkey payload) p h =
    let m = inner (lookup url p.conns) in
    if-cases (λ (x : Bool × ChatPool). token_of i j x.1 ≡ some t)
      (not (is_some (lookup pubkey m)) && leb per_instance_cap (length m)) (λ _. h) (λ _. h)
step-keeps i j t (calls_back f url pubkey) p h = h
step-keeps i j t (registers url pubkey answer) p h = register-keeps url pubkey i j answer t p h
step-keeps i j t (destroys url) p h = h

run-keeps :
    (i j : String) (t : ChatterToken) (cs : List Call) (p : ChatPool)
    → token_of i j p ≡ some t
    → token_of i j (run cs p) ≡ some t
run-keeps i j t [] p h = h
run-keeps i j t (c ∷ cs) p h = run-keeps i j t cs (step c p) (step-keeps i j t c p h)

mem-user_id :
    (j : String) (t : ChatterToken) (m : Dict ChatterToken)
    → lookup j m ≡ some t
    → mem t.user_id (map (λ e. e.1.user_id) m) ≡ true
unfolding mem lookup
mem-user_id j t [] h = absurd (ground (arith, h))
mem-user_id j t ((i, x) ∷ m) h = ground (arith, h, eq_refl t.user_id, mem-user_id j t m)

-- Once a sender is registered with an instance, it keeps that registration whatever is done to the
-- pool, the destruction of the instance's senders included: a later registration of it changes
-- nothing, and its id stays among those whose messages the bridge takes for its own.
pub run-registered :
    (url pubkey : String) (t answer : ChatterToken) (cs : List Call) (p : ChatPool)
    → token_of url pubkey p ≡ some t
    → (token_of url pubkey (register url pubkey answer (run cs p)) ≡ some t)
      × (mem t.user_id (get_owncast_user_ids url (run cs p)) ≡ true)
unfolding get_owncast_user_ids
run-registered url pubkey t answer cs p h =
    let kept = run-keeps url pubkey t cs p h in
    let tokens = inner (lookup url (run cs p).tokens) in
    (
      register-keeps url pubkey url pubkey answer t (run cs p) kept,
      mem-dedupe t.user_id (map (λ e. e.1.user_id) tokens) ∙ mem-user_id pubkey t tokens kept,
    )
