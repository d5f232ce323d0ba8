-- ===== src/TransferPanel.antt =====
-- The component `TransferPanel` of apps/desktop/src/components/TransferProgress.tsx: a map of the
-- running transfers and the list of notifications of completed ones. The texts of sizes, speeds and
-- times are floating point and left out.
pub mod Entries
use wormhole.Transfers.{TransferDirection, download}
use wormhole.Common.{
  ℕ, String, Bool, Option, none, some, List, [], ◌∷◌, ◌++◌, ◌==◌, nat_eq, if◌then◌else◌, or_default,
  find, has_key, remove_where,
}

pub record ProgressEvent : Type 0 where
  pub transfer_id : String
  pub file_name : String
  pub bytes_transferred : ℕ
  pub total_bytes : ℕ
  pub speed_bps : ℕ
  pub eta_seconds : Option ℕ

pub record CompletedEvent : Type 0 where
  pub transfer_id : String
  pub success : Bool
  pub bytes_transferred : ℕ
  pub duration_ms : ℕ
  pub error : Option String

pub record PanelTransfer : Type 0 where
  pub id : String
  pub file_name : String
  pub bytes_transferred : ℕ
  pub total_bytes : ℕ
  pub speed_bps : ℕ
  pub eta_seconds : Option ℕ
  pub direction : TransferDirection
  pub start_time : ℕ

pub record CompletedTransfer : Type 0 where
  pub id : String
  pub file_name : String
  pub success : Bool
  pub bytes_transferred : ℕ
  pub duration_ms : ℕ
  pub error : Option String
  pub completed_at : ℕ

pub record Panel : Type 0 where
  pub active_transfers : List PanelTransfer
  pub completed_transfers : List CompletedTransfer

-- `map.get(id)`, `map.set(t.id, t)`, which keeps a key's place, and `map.delete(id)`.
abbrev pub map_get : String → List PanelTransfer → Option PanelTransfer
map_get id = find (has_key (λ t. t.id) id)

abbrev pub map_set : PanelTransfer → List PanelTransfer → List PanelTransfer
map_set t [] = t ∷ []
map_set t (u ∷ us) = let rest = map_set t us in if u.id == t.id then t ∷ us else u ∷ rest

abbrev pub map_delete : String → List PanelTransfer → List PanelTransfer
map_delete = remove_where (λ t. t.id)

abbrev pub direction_of : Option PanelTransfer → TransferDirection
direction_of none = download
direction_of (some t) = t.direction

-- `existing?.startTime || Date.now()`
abbrev pub start_of : Option PanelTransfer → ℕ → ℕ
start_of none now = now
start_of (some t) now = if nat_eq t.start_time 0 then now else t.start_time

unfoldable pub shown_transfer : ProgressEvent → ℕ → Option PanelTransfer → PanelTransfer
shown_transfer event now existing = record {
  id = event.transfer_id;
  file_name = event.file_name;
  bytes_transferred = event.bytes_transferred;
  total_bytes = event.total_bytes;
  speed_bps = event.speed_bps;
  eta_seconds = event.eta_seconds;
  direction = direction_of existing;
  start_time = start_of existing now;
}

unfoldable pub on_transfer_progress : ProgressEvent → ℕ → Panel → Panel
unfolding shown_transfer
on_transfer_progress event now p = record p {
  active_transfers =
      map_set (shown_transfer event now (map_get event.transfer_id p.active_transfers))
        p.active_transfers;
}

abbrev pub file_name_of : Option PanelTransfer → String
file_name_of none = "Unknown file"
file_name_of (some t) = or_default t.file_name "Unknown file"

unfoldable pub completed_transfer : CompletedEvent → ℕ → Option PanelTransfer → CompletedTransfer
completed_transfer event now transfer = record {
  id = event.transfer_id;
  file_name = file_name_of transfer;
  success = event.success;
  bytes_transferred = event.bytes_transferred;
  duration_ms = event.duration_ms;
  error = event.error;
  completed_at = now;
}

unfoldable pub on_transfer_completed : CompletedEvent → ℕ → Panel → Panel
unfolding completed_transfer
on_transfer_completed event now p = record {
  active_transfers = map_delete event.transfer_id p.active_transfers;
  completed_transfers =
      p.completed_transfers
      ++ completed_transfer event now (map_get event.transfer_id p.active_transfers) ∷ [];
}

unfoldable pub dismiss_completed : String → Panel → Panel
dismiss_completed id p = record p {
  completed_transfers = remove_where (λ t. t.id) id p.completed_transfers;
}
