-- ===== src/Owncast/Pool/Tests.antt =====
-- A sender of the chat pool on a concrete run.
use livelier.Base.{[], ◌∷◌}
use livelier.Owncast.Pool.{enqueue, on_registered, on_open, on_paced, new_conn}
use livelier.Owncast.Pool.Sender.{Sender}

-- Two payloads are queued, the socket opens, and the first one is sent.
abbrev two : Sender
two = record { conn = enqueue "b" (enqueue "a" new_conn); submitted = "a" ∷ "b" ∷ [] }

abbrev ready : Sender
ready = record two { conn = on_open (on_registered two.conn) }

abbrev busy : Sender
busy = record ready { conn = on_paced 700 ready.conn }
