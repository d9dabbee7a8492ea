-- ===== src/Chat/Nostr/Once.antt =====
-- `deliverToSource` twice: the third layer of dedup at work.
use livelier.Base.{ℕ, String, List}
use livelier.Base.Dict.{Dict}
use livelier.Chat.Fingerprint.{has_fingerprint, add_fingerprint}
use livelier.Chat.State.{Room, SourceSend, Service}

-- Resolving a name moves neither the rooms nor what was sent.
abbrev pub rooms_and_sent : Service → Dict Room × List SourceSend
rooms_and_sent s = (s.rooms, s.sent)

-- The room after a delivery whose fingerprint was new.
abbrev pub noted : ℕ → String → Room → Room
noted now fp room = record room {
  fingerprints = add_fingerprint now fp (has_fingerprint now fp room.fingerprints).1;
}
