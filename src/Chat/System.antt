-- ===== src/Chat/System.antt =====
-- The chat bridge at work: the service with its clock, and the events that act on it in any order. A
-- refresh, a poll or the end of `start` may land after `stop`, as their waits allow.
pub mod Frame
pub mod Firehose
pub mod Redial
pub mod Traffic
pub mod Echo
pub mod NoEcho
use livelier.Base.{
  ℕ, suc, ◌+◌, ◌≤◌, String, Bool, true, false, not, ◌≡◌, Option, none, some, List, [], ◌∷◌, ◌++◌,
  if◌then◌else◌, eqb, All,
}
use livelier.Base.Dict.{lookup}
use livelier.Discovery.Store.{InstanceRow}
use livelier.Chat.State.{
  ChatServiceConfig, Event, Room, Delivery, Service, SourceChatMessage, SourceChatJoin,
}
use livelier.Chat.Nostr.{Via, handle_nostr_event, deliver_to_source}
use livelier.Chat.Source.{handle_source_chat, handle_source_join}
use livelier.Chat.Firehose.{
  on_nostr_close, on_network_close, check_subscription_health, log_heartbeat,
}
use livelier.Chat.Rooms.{refresh_rooms, poll_demand, start_begin, start_end, stop}

-- `redials` are the times at which the close handler opened a new firehose, the last one first.
pub record System : Type 0 where
  pub clock : ℕ
  pub service : Service
  pub redials : List ℕ

-- The fields that the class starts with, before `start`.
unfoldable pub create : ℕ → Service
create now = record {
  rooms = [];
  next_serial = 0;
  bridged_pubkeys = [];
  name_cache = [];
  nostr_sub = none;
  network_sub = none;
  subscriptions = 0;
  timers = false;
  demand_timer = false;
  local_seen = 0;
  network_seen = 0;
  inbound_delivered = 0;
  outbound_published = 0;
  stopped = false;
  last_event_time = now;
  disconnected_relay_count = 0;
  published_since_check = 0;
  seen_since_check = 0;
  echo_miss_streak = 0;
  last_restart_at = 0;
  pending = [];
  sent = [];
  published = [];
  closed_rooms = [];
}

-- The service once `start` has begun.
unfoldable pub boot : ℕ → System
unfolding create start_begin
boot now = record { clock = now; service = start_begin now (create now); redials = [] }

abbrev pub with_service : Service → System → System
with_service s x = record x { service = s }

-- The close handler, with a note of the time if it opened a firehose.
abbrev pub close_firehose : ChatServiceConfig → ℕ → System → System
close_firehose config reasons x =
    let s = on_nostr_close config x.clock reasons x.service in
    record x {
      service = s;
      redials =
          if eqb s.subscriptions x.service.subscriptions then x.redials else x.clock ∷ x.redials;
    }

module _ (config : ChatServiceConfig) where
  pub data Step (x : System) : System → Type 0 where
    tick : (now : ℕ) → x.clock ≤ now → Step x (record x { clock = now })
    hears :
        (via : Via) (event : Event)
        → Step x (with_service (handle_nostr_event config x.clock via event x.service) x)
    delivers :
        (before after : List Delivery) (d : Delivery) (fetched : Option String) (accepted : Bool)
        → x.service.pending ≡ before ++ d ∷ after
        → All (λ e. eqb e.serial d.serial ≡ false) before
        → Step x (
            with_service
              (deliver_to_source x.clock fetched accepted d
                (record x.service { pending = before ++ after }))
              x)
    chats :
        (fresh_key : String) (msg : SourceChatMessage) (room : Room)
        → lookup room.row.url x.service.rooms ≡ some room
        → Step x (with_service (handle_source_chat config x.clock fresh_key msg room x.service) x)
    joins :
        (fresh_key : String) (join : SourceChatJoin) (room : Room)
        → lookup room.row.url x.service.rooms ≡ some room
        → Step x (with_service (handle_source_join config x.clock fresh_key join room x.service) x)
    refreshes :
        (opens : String → Bool) (rows : List InstanceRow)
        → Step x (with_service (refresh_rooms config opens rows x.service) x)
    polls :
        (opens : String → Bool) (demanded : List String)
        → Step x (with_service (poll_demand config opens demanded x.service) x)
    has_started :
        (opens : String → Bool) (demanded : Option (List String))
        → Step x (with_service (start_end config opens demanded x.service) x)
    loses_firehose : (reasons : ℕ) → Step x (close_firehose config reasons x)
    loses_network : Step x (with_service (on_network_close config x.service) x)
    checks : Step x (with_service (check_subscription_health config x.clock x.service) x)
    beats : Step x (with_service (log_heartbeat x.service) x)
    stops : Step x (with_service (stop x.service) x)

  pub data Reach (x : System) : System → Type 0 where
    here : Reach x x
    next : {y z : System} → Reach x y → Step y z → Reach x z
