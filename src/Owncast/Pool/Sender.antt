-- ===== src/Owncast/Pool/Sender.antt =====
-- chat-pool.ts: the queue of one sender, in every order of its callbacks.
use livelier.Base.{ℕ, ◌+◌, ◌≤◌, String, ◌≡◌, List, [], ◌∷◌, ◌++◌, map}
use livelier.Owncast.Pool.{
  ChatterConn, Handed, connecting, pacing, new_conn, enqueue, on_registered, on_open,
  on_connect_failed, on_ws_close, on_paced, send_spacing_ms,
}

-- A sender, with all payloads that were queued for it.
pub record Sender : Type 0 where
  pub conn : ChatterConn
  pub submitted : List String

pub data Step : Sender → Sender → Type 0 where
  sends :
      (payload : String) (s : Sender)
      → Step s record { conn = enqueue payload s.conn; submitted = s.submitted ++ payload ∷ [] }
  registered :
      (s : Sender) → s.conn.phase ≡ connecting → Step s (record s { conn = on_registered s.conn })
  opened : (s : Sender) → Step s (record s { conn = on_open s.conn })
  connect_failed :
      (s : Sender)
      → s.conn.phase ≡ connecting
      → Step s (record s { conn = on_connect_failed s.conn })
  ws_closed : (s : Sender) → Step s (record s { conn = on_ws_close s.conn })
  -- the timer of the spacing, where one was needed
  paced :
      (now : ℕ) (s : Sender)
      → s.conn.phase ≡ pacing
      → s.conn.last_sent_at + send_spacing_ms ≤ now
      → Step s (record s { conn = on_paced now s.conn })

abbrev pub fresh : Sender
fresh = record { conn = new_conn; submitted = [] }

pub data Reach : Sender → Type 0 where
  here : Reach fresh
  next : {s t : Sender} → Reach s → Step s t → Reach t

abbrev pub payloads : List Handed → List String
payloads = map (λ h. h.payload)

-- Each payload is taken `send_spacing_ms` after the one before, the last one at `last`.
abbrev pub SpacedTo : ℕ → List Handed → Type 0
SpacedTo last [] = Unit
SpacedTo last (h ∷ []) = h.at ≡ last
SpacedTo last (h ∷ i ∷ rest) = (h.at + send_spacing_ms ≤ i.at) × SpacedTo last (i ∷ rest)

-- What was taken and what is queued is what was submitted, in order.
pub record IsSound (s : Sender) : Type 0 where
  pub order : payloads s.conn.log ++ s.conn.queue ≡ s.submitted
  pub spaced : SpacedTo s.conn.last_sent_at s.conn.log

-- The parts of a connection that soundness looks at.
Same : ChatterConn → ChatterConn → Type 0
Same c d = (d.log ≡ c.log) × (d.queue ≡ c.queue) × (d.last_sent_at ≡ c.last_sent_at)
