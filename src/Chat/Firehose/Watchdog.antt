-- ===== src/Chat/Firehose/Watchdog.antt =====
-- `checkSubscriptionHealth` over consecutive windows.
use livelier.Base.{ℕ, ◌<◌, false, ◌≡◌, some}
use livelier.Chat.State.{Service}

-- The service runs, with the firehose `handle`.
abbrev pub Listens : ℕ → Service → Type 0
Listens handle s = (s.stopped ≡ false) × (s.nostr_sub ≡ some handle)

-- The window had a publication and no event came back.
abbrev pub Missed : Service → Type 0
Missed s = (0 < s.published_since_check) × (s.seen_since_check ≡ 0)
