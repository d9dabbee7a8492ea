-- ===== src/Owncast/Pool.antt =====
-- packages/bridge/src/sources/owncast/chat/chat-pool.ts: OwncastChatPool. The loop of `drain` is cut
-- at its waits: `phase` says what it waits for. `log` has each payload that the loop took from the
-- queue, with the time and whether there was a socket to send it on.
pub mod Sender
pub mod Laws
mod Tests
use livelier.Base.{
  ℕ, ◌+◌, String, Bool, true, false, not, ◌&&◌, Option, none, some, is_some, List, [], ◌∷◌, ◌++◌,
  map, length, leb, if◌then◌else◌,
}
use livelier.Base.Dict.{Dict, lookup, insert, erase}
use livelier.Base.Keys.{dedupe}

abbrev pub per_instance_cap : ℕ
per_instance_cap = 50

abbrev pub send_spacing_ms : ℕ
send_spacing_ms = 700

pub record ChatterToken : Type 0 where
  pub access_token : String
  pub user_id : String

pub data Socket : Type 0 where
  no_socket : Socket
  opening : Socket
  open_socket : Socket

pub data Phase : Type 0 where
  -- no drain loop runs
  idle : Phase
  -- it waits for `connect`
  connecting : Phase
  -- it waits for its turn to send
  pacing : Phase

pub record Handed : Type 0 where
  pub at : ℕ
  pub payload : String
  pub sent : Bool

pub record ChatterConn : Type 0 where
  pub ws : Socket
  pub queue : List String
  pub phase : Phase
  pub last_sent_at : ℕ
  pub log : List Handed

abbrev pub new_conn : ChatterConn
new_conn = record { ws = no_socket; queue = []; phase = idle; last_sent_at = 0; log = [] }

unfoldable pub is_open : Socket → Bool
is_open open_socket = true
is_open opening = false
is_open no_socket = false

-- The head of the loop of `drain`.
unfoldable pub loop_head : ChatterConn → List String → ChatterConn
unfolding is_open
loop_head c [] = record c { phase = idle }
loop_head c (_ ∷ _) =
    if is_open c.ws then record c { phase = pacing } else record c { phase = connecting }

-- The end of `send`: the payload is queued, and a drain is started where none runs.
unfoldable pub start_drain : Phase → ChatterConn → ChatterConn
unfolding loop_head
start_drain idle c = loop_head c c.queue
start_drain connecting c = c
start_drain pacing c = c

unfoldable pub enqueue : String → ChatterConn → ChatterConn
unfolding start_drain
enqueue payload c = start_drain c.phase (record c { queue = c.queue ++ payload ∷ [] })

-- `connect` got its token, and makes the socket.
unfoldable pub on_registered : ChatterConn → ChatterConn
on_registered c = record c { ws = opening }

-- The socket is open: `connect` resolves.
unfoldable pub resume : Phase → ChatterConn → ChatterConn
resume connecting c = record c { phase = pacing }
resume idle c = c
resume pacing c = c

unfoldable pub on_open : ChatterConn → ChatterConn
unfolding resume
on_open c = resume c.phase (record c { ws = open_socket })

-- `connect` rejects, and so does the drain, whose `finally` ends it; the queue stays.
unfoldable pub on_connect_failed : ChatterConn → ChatterConn
on_connect_failed c = record c { phase = idle }

unfoldable pub on_ws_close : ChatterConn → ChatterConn
on_ws_close c = record c { ws = no_socket }

-- `conn.ws?.send(payload)`
unfoldable pub has_socket : Socket → Bool
has_socket no_socket = false
has_socket opening = true
has_socket open_socket = true

-- The wait for the spacing is over.
unfoldable pub hand_over : ℕ → List String → ChatterConn → ChatterConn
unfolding has_socket loop_head
hand_over now [] c = record c { phase = idle }
hand_over now (payload ∷ rest) c =
    loop_head
      (record c {
        queue = rest;
        last_sent_at = now;
        log = c.log ++ record { at = now; payload = payload; sent = has_socket c.ws } ∷ [];
      })
      rest

unfoldable pub on_paced : ℕ → ChatterConn → ChatterConn
unfolding hand_over
on_paced now c = hand_over now c.queue c

pub record ChatPool : Type 0 where
  pub conns : Dict (Dict ChatterConn)
  pub tokens : Dict (Dict ChatterToken)

-- `map.get(instanceUrl) ?? new Map()`
unfoldable pub inner {ℓ} : {V : Type ℓ} → Option (Dict V) → Dict V
inner none = []
inner (some m) = m

unfoldable pub send_on : String → String → Option ChatterConn → Dict ChatterConn → Dict ChatterConn
unfolding enqueue
send_on pubkey payload none m = insert pubkey (enqueue payload new_conn) m
send_on pubkey payload (some c) m = insert pubkey (enqueue payload c) m

-- `send` with its payload; `false` where the cap is reached and it throws.
unfoldable pub send : String → String → String → ChatPool → Bool × ChatPool
unfolding send_on inner
send instance_url pubkey payload p =
    let by_pubkey = inner (lookup instance_url p.conns) in
    if not (is_some (lookup pubkey by_pubkey)) && leb per_instance_cap (length by_pubkey)
    then (false, record p { conns = insert instance_url by_pubkey p.conns })
    else (
      true,
      record p {
        conns =
            insert instance_url (send_on pubkey payload (lookup pubkey by_pubkey) by_pubkey)
              p.conns;
      },
    )

-- A callback of the connection of a sender, where it is still in the pool.
unfoldable pub update_at :
    (ChatterConn → ChatterConn) → String → Option ChatterConn → Dict ChatterConn → Dict ChatterConn
update_at f pubkey none m = m
update_at f pubkey (some c) m = insert pubkey (f c) m

unfoldable pub update_conn : (ChatterConn → ChatterConn) → String → String → ChatPool → ChatPool
unfolding update_at inner
update_conn f instance_url pubkey p =
    let by_pubkey = inner (lookup instance_url p.conns) in
    record p {
      conns = insert instance_url (update_at f pubkey (lookup pubkey by_pubkey) by_pubkey) p.conns;
    }

unfoldable pub destroy_instance : String → ChatPool → ChatPool
destroy_instance instance_url p = record p { conns = erase instance_url p.conns }

unfoldable pub destroy_all : List String → ChatPool → ChatPool
unfolding destroy_instance
destroy_all [] p = p
destroy_all (url ∷ urls) p = destroy_all urls (destroy_instance url p)

-- `register`: a token that is cached is used again; `answer` is what the instance would give.
unfoldable pub keep_token :
    Option ChatterToken → String → ChatterToken → Dict ChatterToken → Dict ChatterToken
keep_token (some t) pubkey answer m = m
keep_token none pubkey answer m = insert pubkey answer m

unfoldable pub register : String → String → ChatterToken → ChatPool → ChatPool
unfolding keep_token inner
register instance_url pubkey answer p =
    let by_pubkey = inner (lookup instance_url p.tokens) in
    record p {
      tokens =
          insert instance_url (keep_token (lookup pubkey by_pubkey) pubkey answer by_pubkey)
            p.tokens;
    }

unfoldable pub get_owncast_user_ids : String → ChatPool → List String
unfolding inner dedupe
get_owncast_user_ids instance_url p =
    dedupe (map (λ e. e.1.user_id) (inner (lookup instance_url p.tokens)))
