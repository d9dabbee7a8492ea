-- ===== src/Owncast/Listener.antt =====
-- packages/bridge/src/sources/owncast/chat/owncast-listener.ts: OwncastChatListener as a state and one
-- function for each callback. A timer is the delay it was armed with; the answers of the instance are
-- arguments: `disabled` of `/api/config`, and the id of the registration, `none` if it failed.
pub mod Laws
use livelier.Base.{
  ℕ, suc, ◌+◌, ◌*◌, ◌≡◌, String, Bool, true, false, not, ◌||◌, Option, none, some, List, [], ◌∷◌,
  if◌then◌else◌, is_some, leb, min, ◌==◌, or_else,
}

abbrev pub initial_delay_ms : ℕ
initial_delay_ms = 15000

abbrev pub max_reconnect_delay_ms : ℕ
max_reconnect_delay_ms = 300000

abbrev pub max_consecutive_failures : ℕ
max_consecutive_failures = 5

abbrev pub dormant_interval_ms : ℕ
dormant_interval_ms = 1800000

pub record Listener : Type 0 where
  pub socket : Bool
  pub stopped : Bool
  pub reconnect_timer : Option ℕ
  pub reconnect_delay_ms : ℕ
  pub healthy_timer : Bool
  pub failures : ℕ
  pub proven_healthy : Bool
  pub dormant : Bool
  pub own_user_id : Option String

unfoldable pub new_listener : Listener
new_listener = record {
  socket = false;
  stopped = false;
  reconnect_timer = none;
  reconnect_delay_ms = initial_delay_ms;
  healthy_timer = false;
  failures = 0;
  proven_healthy = false;
  dormant = false;
  own_user_id = none;
}

-- `start` up to `connect`.
unfoldable pub start : Listener → Listener
start l = record l {
  stopped = false;
  dormant = false;
  failures = 0;
  reconnect_delay_ms = initial_delay_ms;
}

unfoldable pub stop : Listener → Listener
stop l = record l { stopped = true; reconnect_timer = none; healthy_timer = false; socket = false }

unfoldable pub go_dormant : Listener → Listener
go_dormant l = record l { dormant = true }

unfoldable pub arm : ℕ → Listener → Listener
arm delay l =
    if l.stopped || is_some l.reconnect_timer then l else record l { reconnect_timer = some delay }

-- `scheduleReconnect` past its guard and its count.
unfoldable pub back_off : Listener → Listener
unfolding go_dormant arm
back_off l =
    let slow = if leb max_consecutive_failures l.failures then go_dormant l else l in
    if slow.dormant
    then arm dormant_interval_ms slow
    else arm slow.reconnect_delay_ms (record slow {
      reconnect_delay_ms = min (slow.reconnect_delay_ms * 2) max_reconnect_delay_ms;
    })

unfoldable pub schedule_reconnect : Bool → Listener → Listener
unfolding back_off
schedule_reconnect count_as_failure l =
    if l.stopped || is_some l.reconnect_timer
    then l
    else back_off (if count_as_failure then record l { failures = suc l.failures } else l)

-- `connect` after the answer of `/api/config`, where it says that chat is off.
unfoldable pub on_chat_disabled : Listener → Listener
unfolding go_dormant arm
on_chat_disabled l = arm dormant_interval_ms (go_dormant l)

-- `connect` after the registration; `none` where it, or the dial, threw.
unfoldable pub on_registered : Option String → Listener → Listener
unfolding schedule_reconnect
on_registered none l = schedule_reconnect true l
on_registered (some id) l =
    if l.stopped
    then l
    else record l { own_user_id = some id; socket = true; proven_healthy = false }

-- The socket's `open` and `close`.
unfoldable pub on_open : Listener → Listener
on_open l = record l { healthy_timer = true }

unfoldable pub on_close : Listener → Listener
unfolding schedule_reconnect
on_close l = schedule_reconnect (not l.proven_healthy) (record l { healthy_timer = false })

-- `markHealthy`, by the healthy timer.
unfoldable pub mark_healthy : Listener → Listener
mark_healthy l = record l {
  healthy_timer = false;
  proven_healthy = true;
  failures = 0;
  reconnect_delay_ms = initial_delay_ms;
  dormant = false;
}

-- The reconnect timer fires; `connect` follows.
unfoldable pub on_reconnect_timer : Listener → Listener
on_reconnect_timer l = record l { reconnect_timer = none }

-- A frame of the socket, and what it makes the listener emit.
pub record Frame : Type 0 where
  pub kind : String
  pub user_id : Option String
  pub display_name : Option String
  pub body : Option String

pub data Emitted : Type 0 where
  join : String → String → Emitted
  chat : String → String → String → Emitted

abbrev pub same_id : Option String → String → Bool
same_id none u = false
same_id (some v) u = v == u

unfoldable pub handle_frames : Option String → List Frame → List Emitted
handle_frames own [] = []
handle_frames own (f ∷ fs) =
    let rest = handle_frames own fs in
    let user = or_else f.user_id "" in
    let name = or_else f.display_name "unknown" in
    if (user == "") || same_id own user
    then rest
    else if f.kind == "USER_JOINED"
    then join user name ∷ rest
    else if f.kind == "CHAT"
    then chat user name (or_else f.body "") ∷ rest
    else rest

-- The callbacks in any order. A socket opens and proves itself only while the listener holds it.
pub data Step (l : Listener) : Listener → Type 0 where
  starts : Step l (start l)
  stops : Step l (stop l)
  is_disabled : Step l (on_chat_disabled l)
  registers : (id : Option String) → Step l (on_registered id l)
  opens : l.socket ≡ true → Step l (on_open l)
  closes : Step l (on_close l)
  proves : l.healthy_timer ≡ true → Step l (mark_healthy l)
  fires : is_some l.reconnect_timer ≡ true → Step l (on_reconnect_timer l)

pub data Reach (x : Listener) : Listener → Type 0 where
  here : Reach x x
  next : {y z : Listener} → Reach x y → Step y z → Reach x z
