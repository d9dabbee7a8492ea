-- ===== src/Discovery/Store.antt =====
-- packages/bridge/src/core/instance-store.ts and types.ts: the rows of `bridge_instances` by their
-- primary key `url`, with the defaults of migrations.ts. A statement of SQL is a function on the
-- list of rows; times are milliseconds, and `now` is the database's clock.
pub mod Laws
use livelier.Base.{
  ℕ, suc, ◌+◌, max, String, Bool, true, false, ◌&&◌, Option, none, some, List, [], ◌∷◌, ◌++◌, keep,
  ◌==◌, if◌then◌else◌, is_some, length,
}

pub data Status : Type 0 where
  live ended : Status

abbrev pub is_live : Status → Bool
is_live live = true
is_live ended = false

abbrev pub same_status : Status → Status → Bool
same_status live live = true
same_status ended ended = true
same_status _ _ = false

pub data Liveness : Type 0 where
  live ended error : Liveness

pub data Origin : Type 0 where
  discovered manual : Origin

abbrev pub is_manual : Origin → Bool
is_manual manual = true
is_manual discovered = false

pub record InstanceRow : Type 0 where
  pub url : String
  pub source : String
  pub origin : Origin
  pub pubkey : String
  pub d_tag : String
  pub name : String
  pub stream_title : String
  pub description : String
  pub image : String
  pub nsfw : Bool
  pub starts_at : Option ℕ
  pub status : Status
  pub hls_url : String
  pub last_liveness : Option Liveness
  pub consecutive_failures : ℕ
  pub profile_hash : Option String
  pub viewer_count : Option ℕ
  pub chat_enabled : Bool
  pub discovery_enabled : Bool
  pub first_seen_at : ℕ
  pub last_seen_at : ℕ
  pub last_published_at : Option ℕ
  pub updated_at : ℕ

pub record UpsertSeenInput : Type 0 where
  pub url : String
  pub source : String
  pub pubkey : String
  pub d_tag : String
  pub name : String
  pub stream_title : String
  pub description : String
  pub image : String
  pub nsfw : Bool
  pub starts_at : Option ℕ
  pub hls_url : String
  pub discovery_enabled : Bool
  pub chat_enabled : Bool

-- The row that the INSERT makes, with the column defaults.
unfoldable pub inserted : ℕ → UpsertSeenInput → InstanceRow
inserted now i = record {
  url = i.url;
  source = i.source;
  origin = discovered;
  pubkey = i.pubkey;
  d_tag = i.d_tag;
  name = i.name;
  stream_title = i.stream_title;
  description = i.description;
  image = i.image;
  nsfw = i.nsfw;
  starts_at = i.starts_at;
  status = Status.live;
  hls_url = i.hls_url;
  last_liveness = none;
  consecutive_failures = 0;
  profile_hash = none;
  viewer_count = none;
  chat_enabled = i.chat_enabled;
  discovery_enabled = i.discovery_enabled;
  first_seen_at = now;
  last_seen_at = now;
  last_published_at = none;
  updated_at = now;
}

-- The row after ON CONFLICT (url) DO UPDATE.
unfoldable pub refreshed : ℕ → UpsertSeenInput → InstanceRow → InstanceRow
refreshed now i row = record row {
  source = i.source;
  d_tag = i.d_tag;
  name = i.name;
  stream_title = i.stream_title;
  description = i.description;
  image = i.image;
  nsfw = i.nsfw;
  starts_at = i.starts_at;
  hls_url = i.hls_url;
  last_seen_at = now;
  updated_at = now;
}

-- `SELECT * FROM bridge_instances WHERE url = $1`
unfoldable pub get : String → List InstanceRow → Option InstanceRow
get url [] = none
get url (row ∷ rows) = if row.url == url then some row else get url rows

-- `UPDATE bridge_instances SET …, updated_at = now() WHERE url = $1`; `f` sets the named columns.
unfoldable pub update :
    ℕ → String → (InstanceRow → InstanceRow) → List InstanceRow → List InstanceRow
update now url f [] = []
update now url f (row ∷ rows) =
    (if row.url == url then record (f row) { url = row.url; updated_at = now } else row)
    ∷ update now url f rows

-- `INSERT … ON CONFLICT`, by the row that is there.
unfoldable pub upsert_at :
    ℕ
    → UpsertSeenInput
    → Option InstanceRow
    → List InstanceRow
    → InstanceRow × Bool × List InstanceRow
unfolding inserted refreshed update
upsert_at now i none rows = (inserted now i, true, rows ++ inserted now i ∷ [])
upsert_at now i (some row) rows =
    (refreshed now i row, false, update now i.url (refreshed now i) rows)

unfoldable pub upsert_seen :
    ℕ → UpsertSeenInput → List InstanceRow → InstanceRow × Bool × List InstanceRow
unfolding upsert_at get
upsert_seen now i rows = upsert_at now i (get i.url rows) rows

unfoldable pub list_by_status : Status → String → List InstanceRow → List InstanceRow
list_by_status status source = keep (λ row. same_status row.status status && (row.source == source))

unfoldable pub list_manual : String → List InstanceRow → List InstanceRow
list_manual source = keep (λ row. (row.source == source) && is_manual row.origin)

-- The chat allowlist.
unfoldable pub list_chat_rooms : String → List InstanceRow → List InstanceRow
list_chat_rooms source =
    keep λ row.
      row.chat_enabled && row.discovery_enabled && is_live row.status && (row.source == source)

-- `GROUP BY status`, as `{ live, ended, total }`.
unfoldable pub status_counts : List InstanceRow → ℕ × ℕ × ℕ
status_counts rows =
    let lives = length (keep (λ row. is_live row.status) rows) in
    let ends = length (keep (λ row. same_status row.status Status.ended) rows) in
    (lives, ends, lives + ends)

pub record LiveSnapshot : Type 0 where
  pub source : String
  pub directory_live_count : ℕ
  pub bridged_live_count : ℕ
  pub hls_live : ℕ
  pub hls_ended : ℕ
  pub hls_error : ℕ
  pub schema_version : String
  pub captured_at : ℕ

abbrev pub later_of : ℕ → Option ℕ → ℕ
later_of t none = t
later_of t (some u) = max t u

-- `ORDER BY captured_at DESC LIMIT 1`.
unfoldable pub latest_snapshot_at : String → List LiveSnapshot → Option ℕ
latest_snapshot_at source [] = none
latest_snapshot_at source (s ∷ rest) =
    let later = latest_snapshot_at source rest in
    if s.source == source then some (later_of s.captured_at later) else later
