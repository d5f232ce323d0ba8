-- ===== src/History.antt =====
-- apps/desktop/src/types/history.ts: the shares and connections that the client remembers.
-- An optional field of a `Partial` is an `Option`; a field that may be set to `undefined` or `null`
-- by an update is an `Option` of an `Option`.
pub mod Lookup
pub mod Persistence
use wormhole.Common.{
  ℕ, ◌*◌, String, Option, none, some, List, [], map, if◌then◌else◌, ltb, overwrite, update_where,
  remove_where, upsert,
}
use wormhole.Storage.{LocalStorage, Json, save_json}

pub data ShareStatus : Type 0 where
  active paused inactive expired : ShareStatus

pub data ConnectionStatus : Type 0 where
  connected disconnected connecting error : ConnectionStatus

pub data ExpirationOption : Type 0 where
  forever one_hour one_day seven_days thirty_days : ExpirationOption

-- Milliseconds; `null` is `none`.
unfoldable pub expiration_to_ms : ExpirationOption → Option ℕ
expiration_to_ms forever = none
expiration_to_ms one_hour = some (60 * 60 * 1000)
expiration_to_ms one_day = some (24 * 60 * 60 * 1000)
expiration_to_ms seven_days = some (7 * 24 * 60 * 60 * 1000)
expiration_to_ms thirty_days = some (30 * 24 * 60 * 60 * 1000)

unfoldable pub expiration_label : ExpirationOption → String
expiration_label forever = "Forever"
expiration_label one_hour = "1 Hour"
expiration_label one_day = "24 Hours"
expiration_label seven_days = "7 Days"
expiration_label thirty_days = "30 Days"

pub record ShareHistoryItem : Type 0 where
  pub id : String
  pub name : String
  pub path : String
  pub join_code : String
  pub share_link : String
  pub port : ℕ
  pub status : ShareStatus
  pub created_at : ℕ
  pub last_active_at : ℕ
  pub expiration_option : ExpirationOption
  pub expires_at : Option ℕ

pub record ConnectionHistoryItem : Type 0 where
  pub id : String
  pub name : String
  pub join_code : String
  pub mount_point : String
  pub remote_host : Option String
  pub status : ConnectionStatus
  pub created_at : ℕ
  pub last_connected_at : ℕ
  pub error_message : Option String

pub record WormholeHistory : Type 0 where
  pub shares : List ShareHistoryItem
  pub connections : List ConnectionHistoryItem
  pub version : ℕ

-- `Partial<ShareHistoryItem>`
pub record SharePatch : Type 0 where
  pub id : Option String
  pub name : Option String
  pub path : Option String
  pub join_code : Option String
  pub share_link : Option String
  pub port : Option ℕ
  pub status : Option ShareStatus
  pub created_at : Option ℕ
  pub last_active_at : Option ℕ
  pub expiration_option : Option ExpirationOption
  pub expires_at : Option (Option ℕ)

-- `Partial<ConnectionHistoryItem>`
pub record ConnectionPatch : Type 0 where
  pub id : Option String
  pub name : Option String
  pub join_code : Option String
  pub mount_point : Option String
  pub remote_host : Option (Option String)
  pub status : Option ConnectionStatus
  pub created_at : Option ℕ
  pub last_connected_at : Option ℕ
  pub error_message : Option (Option String)

abbrev pub history_storage_key : String
history_storage_key = "wormhole_history"

abbrev pub history_version : ℕ
history_version = 1

abbrev pub empty_history : WormholeHistory
empty_history = record { shares = []; connections = []; version = history_version }

-- `{ ...s, ...updates }`
unfoldable pub patch_share : SharePatch → ShareHistoryItem → ShareHistoryItem
patch_share u s = record {
  id = overwrite u.id s.id;
  name = overwrite u.name s.name;
  path = overwrite u.path s.path;
  join_code = overwrite u.join_code s.join_code;
  share_link = overwrite u.share_link s.share_link;
  port = overwrite u.port s.port;
  status = overwrite u.status s.status;
  created_at = overwrite u.created_at s.created_at;
  last_active_at = overwrite u.last_active_at s.last_active_at;
  expiration_option = overwrite u.expiration_option s.expiration_option;
  expires_at = overwrite u.expires_at s.expires_at;
}

unfoldable pub patch_connection : ConnectionPatch → ConnectionHistoryItem → ConnectionHistoryItem
patch_connection u c = record {
  id = overwrite u.id c.id;
  name = overwrite u.name c.name;
  join_code = overwrite u.join_code c.join_code;
  mount_point = overwrite u.mount_point c.mount_point;
  remote_host = overwrite u.remote_host c.remote_host;
  status = overwrite u.status c.status;
  created_at = overwrite u.created_at c.created_at;
  last_connected_at = overwrite u.last_connected_at c.last_connected_at;
  error_message = overwrite u.error_message c.error_message;
}

unfoldable pub update_share_in_history : WormholeHistory → String → SharePatch → WormholeHistory
update_share_in_history history id updates = record history {
  shares = update_where (λ s. s.id) id (patch_share updates) history.shares;
}

unfoldable pub update_connection_in_history :
    WormholeHistory → String → ConnectionPatch → WormholeHistory
update_connection_in_history history id updates = record history {
  connections = update_where (λ c. c.id) id (patch_connection updates) history.connections;
}

-- A share of the same path is replaced where it stands, its identifier included.
unfoldable pub add_share_to_history : WormholeHistory → ShareHistoryItem → WormholeHistory
add_share_to_history history share = record history {
  shares = upsert (λ s. s.path) share history.shares;
}

-- A connection of the same join code is replaced where it stands.
unfoldable pub add_connection_to_history : WormholeHistory → ConnectionHistoryItem → WormholeHistory
add_connection_to_history history connection = record history {
  connections = upsert (λ c. c.join_code) connection history.connections;
}

unfoldable pub remove_share_from_history : WormholeHistory → String → WormholeHistory
remove_share_from_history history id = record history {
  shares = remove_where (λ s. s.id) id history.shares;
}

unfoldable pub remove_connection_from_history : WormholeHistory → String → WormholeHistory
remove_connection_from_history history id = record history {
  connections = remove_where (λ c. c.id) id history.connections;
}

abbrev pub reset_share : ShareHistoryItem → ShareHistoryItem
reset_share s = record s { status = inactive }

abbrev pub reset_connection : ConnectionHistoryItem → ConnectionHistoryItem
reset_connection c = record c { status = disconnected }

-- What `loadHistory` makes of a parsed history: an older version is dropped, and no share or
-- connection counts as running.
unfoldable pub reset_statuses : WormholeHistory → WormholeHistory
reset_statuses parsed = if ltb parsed.version history_version then empty_history else record {
  shares = map reset_share parsed.shares;
  connections = map reset_connection parsed.connections;
  version = parsed.version;
}

module _ {Text : Type 0} (storage : LocalStorage Text) (json : Json Text WormholeHistory) where
  open storage use {Store, get_item}
  open json use {parse, is_empty}

  load_stored : Option Text → WormholeHistory
  load_stored none = empty_history
  load_stored (some stored) =
      if is_empty stored
      then empty_history
      else elim (parse stored) [ none ↦ empty_history | some parsed ↦ reset_statuses parsed ]

  unfoldable pub load_history : Store → WormholeHistory
  unfolding load_stored
  load_history s = load_stored (get_item s history_storage_key)

  unfoldable pub save_history : Store → WormholeHistory → Store
  save_history = save_json storage json history_storage_key
