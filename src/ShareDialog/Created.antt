-- ===== src/ShareDialog/Created.antt =====
-- App.tsx: what a share that the dialog has started is in the history.
use wormhole.History.{
  active, ShareHistoryItem, ExpirationOption, forever, one_hour, one_day, seven_days, thirty_days,
  expiration_to_ms,
}
use wormhole.History.Lookup.{share_at, share_at-add_share}
use wormhole.HistoryHook.{HostInfo, make_share_link, new_share, add_share}
use wormhole.Session.{handle_share_created}
use wormhole.Sources.{share}
use wormhole.ShareDialog.{StartRequest, Sharing, expires_at_of, hosting_answered, share_link}
use wormhole.Common.{
  ℕ, ◌+◌, Option, String, ◌≡◌, ◌≢◌, refl, ◌∙◌, true, none, some, ◌==◌, eq_iff, eq_refl, arith,
  if◌then◌else◌, option_or_default,
}

-- When a share that is asked for at a time ends, in milliseconds.
abbrev pub ends_at : ExpirationOption → ℕ → Option ℕ
ends_at forever asked_at = none
ends_at one_hour asked_at = some (asked_at + 3600000)
ends_at one_day asked_at = some (asked_at + 86400000)
ends_at seven_days asked_at = some (asked_at + 604800000)
ends_at thirty_days asked_at = some (asked_at + 2592000000)

expires_at_of-ends_at :
    (option : ExpirationOption) (now : ℕ) → expires_at_of option now ≡ ends_at option now
unfolding expires_at_of expiration_to_ms
expires_at_of-ends_at forever now = refl
expires_at_of-ends_at one_hour now = refl
expires_at_of-ends_at one_day now = refl
expires_at_of-ends_at seven_days now = refl
expires_at_of-ends_at thirty_days now = refl

-- What the history and the dialog say of a share that the backend has started.
pub record IsShared (request : StartRequest) (now : ℕ) (result : HostInfo) (s t : Sharing)
    : Type 0 where
  pub item : ShareHistoryItem
  pub listed : share_at t.session.history result.share_path ≡ some item
  pub same_id : item.id ≡ result.id
  pub same_code : item.join_code ≡ result.join_code
  pub same_port : item.port ≡ result.port
  pub same_link : item.share_link ≡ share_link t.dialog
  pub is_active : item.status ≡ active
  pub option : item.expiration_option ≡ request.expiration_option
  pub expires : item.expires_at ≡ ends_at request.expiration_option now
  pub others :
      (path : String)
      → result.share_path ≢ path
      → share_at t.session.history path ≡ share_at s.session.history path
  pub shown : t.dialog.is_hosting ≡ true
  pub opened : t.session.current_folder ≡ result.share_path
  pub source :
      t.session.current_folder_source ≡ some (record { id = result.id; source_type = share })
  pub closed : t.session.active_dialog ≡ none

given : (id fresh : String) → id ≢ "" → option_or_default (some id) fresh ≡ id
given id fresh h = ground (arith, eq_iff id "")

linked :
    (code : String)
    → code ≢ ""
    → make_share_link code ≡ (if code == "" then "" else make_share_link code)
linked code h = ground (arith, eq_iff code "")

-- Once the backend has answered that a share runs, the history has an active share at its path with
-- the answer's identifier, join code and port and with the option that was chosen; it expires an hour,
-- a day, seven days or thirty days after the time that was read before the call, or never. Its link is
-- the one that the dialog shows, the dialog is closed and the share's folder open, and no other path
-- has changed. The answer's identifier and join code are not empty.
pub hosting_answered-IsShared :
    (request : StartRequest) (now : ℕ) (result : HostInfo) (fresh : String)
    (created_at last_active_at : ℕ) (s : Sharing)
    → result.id ≢ ""
    → result.join_code ≢ ""
    → IsShared request now result s
        (hosting_answered request now result fresh created_at last_active_at s)
unfolding hosting_answered handle_share_created add_share new_share
hosting_answered-IsShared request now result fresh created_at last_active_at s h k =
    let id_given = given result.id fresh h in
    record {
      item =
          new_share result.share_path result.join_code result.port none (some result.id)
            (some request.expiration_option) (expires_at_of request.expiration_option now) fresh
            created_at last_active_at;
      listed =
          (share_at-add_share s.session.history _ result.share_path).0
          ∙ rw (eq_refl result.share_path) refl;
      same_id = id_given;
      same_code = refl;
      same_port = refl;
      same_link = linked result.join_code k;
      is_active = refl;
      option = refl;
      expires = expires_at_of-ends_at request.expiration_option now;
      others = λ path other.
          (share_at-add_share s.session.history _ path).0
          ∙ ground (arith, eq_iff result.share_path path);
      shown = refl;
      opened = refl;
      source = rw id_given refl;
      closed = refl;
    }
