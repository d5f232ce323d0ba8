-- ===== src/TransferPanel/Entries.antt =====
-- TransferProgress.tsx: which transfers the panel shows.

use wormhole.Transfers.{download}
use wormhole.TransferPanel.{
  ProgressEvent, CompletedEvent, PanelTransfer, CompletedTransfer, Panel, map_get, map_set,
  map_delete, shown_transfer, on_transfer_progress, completed_transfer, on_transfer_completed,
}
use wormhole.Common.{
  ℕ, String, ◌≡◌, ◌≢◌, ap, Option, refl, none, some, List, [], ◌∷◌, ◌++◌, arith, ◌==◌, eq_iff,
  if◌then◌else◌,
}

map_get-map_set :
    (t : PanelTransfer) (id : String) (ts : List PanelTransfer)
    → map_get id (map_set t ts) ≡ (if t.id == id then some t else map_get id ts)
map_get-map_set t id [] = refl
map_get-map_set t id (u ∷ us) =
    ground (arith, eq_iff u.id t.id, eq_iff t.id id, eq_iff u.id id, map_get-map_set t id us)

map_get-map_delete :
    (id q : String) (ts : List PanelTransfer)
    → map_get q (map_delete id ts) ≡ (if id == q then none else map_get q ts)
map_get-map_delete id q [] = ground arith
map_get-map_delete id q (u ∷ us) =
    ground (arith, eq_iff u.id id, eq_iff id q, eq_iff u.id q, map_get-map_delete id q us)

-- The transfer `t` that the panel shows of an event, where it showed `shown` of the identifier before:
-- an unknown one is a download that starts now, a known one keeps its direction and its start, or
-- starts now if its start is 0.
pub record IsProgress (e : ProgressEvent) (now : ℕ) (shown : Option PanelTransfer)
    (t : PanelTransfer) : Type 0 where
  pub name : t.file_name ≡ e.file_name
  pub bytes : (t.bytes_transferred ≡ e.bytes_transferred) × (t.total_bytes ≡ e.total_bytes)
  pub speed : (t.speed_bps ≡ e.speed_bps) × (t.eta_seconds ≡ e.eta_seconds)
  pub unknown : shown ≡ none → (t.direction ≡ download) × (t.start_time ≡ now)
  pub direction : (u : PanelTransfer) → shown ≡ some u → t.direction ≡ u.direction
  pub started :
      (u : PanelTransfer) → shown ≡ some u → u.start_time ≢ 0 → t.start_time ≡ u.start_time
  pub restarted : (u : PanelTransfer) → shown ≡ some u → u.start_time ≡ 0 → t.start_time ≡ now

-- The notification `n` of a completed transfer: it has the name that was shown, if there is one.
pub record IsNotice (e : CompletedEvent) (now : ℕ) (shown : Option PanelTransfer)
    (n : CompletedTransfer) : Type 0 where
  pub id : n.id ≡ e.transfer_id
  pub outcome : (n.success ≡ e.success) × (n.error ≡ e.error)
  pub amounts : (n.bytes_transferred ≡ e.bytes_transferred) × (n.duration_ms ≡ e.duration_ms)
  pub time : n.completed_at ≡ now
  pub unknown : shown ≡ none → n.file_name ≡ "Unknown file"
  pub unnamed :
      (u : PanelTransfer) → shown ≡ some u → u.file_name ≡ "" → n.file_name ≡ "Unknown file"
  pub named : (u : PanelTransfer) → shown ≡ some u → u.file_name ≢ "" → n.file_name ≡ u.file_name

shown_transfer-IsProgress :
    (e : ProgressEvent) (now : ℕ) (shown : Option PanelTransfer)
    → IsProgress e now shown (shown_transfer e now shown)
unfolding shown_transfer
shown_transfer-IsProgress e now none = record {
  name = refl;
  bytes = (refl, refl);
  speed = (refl, refl);
  unknown = λ h. (refl, refl);
  direction = λ u h. cc;
  started = λ u h k. cc;
  restarted = λ u h k. cc;
}
shown_transfer-IsProgress e now (some t) = record {
  name = refl;
  bytes = (refl, refl);
  speed = (refl, refl);
  unknown = λ h. cc;
  direction = λ u h. let same : t ≡ u = cc in ap (λ x. x.direction) same;
  started = λ u h k. let same : t ≡ u = cc in rw same (ground arith);
  restarted = λ u h k. let same : t ≡ u = cc in rw same (ground arith);
}

completed_transfer-IsNotice :
    (e : CompletedEvent) (now : ℕ) (shown : Option PanelTransfer)
    → IsNotice e now shown (completed_transfer e now shown)
unfolding completed_transfer
completed_transfer-IsNotice e now none = record {
  id = refl;
  outcome = (refl, refl);
  amounts = (refl, refl);
  time = refl;
  unknown = λ h. refl;
  unnamed = λ u h k. refl;
  named = λ u h k. cc;
}
completed_transfer-IsNotice e now (some t) = record {
  id = refl;
  outcome = (refl, refl);
  amounts = (refl, refl);
  time = refl;
  unknown = λ h. cc;
  unnamed = λ u h k. let same : t ≡ u = cc in rw (same, k) refl;
  named = λ u h k. let same : t ≡ u = cc in rw same (ground (arith, eq_iff u.file_name ""));
}

-- The panel is a map from identifiers to transfers. Progress puts a transfer with the event's values at
-- its identifier: one that the panel does not know is a download that starts now, one that it knows
-- keeps its direction, and its start unless that is 0. Completion takes the identifier away and adds
-- one notification with the event's values, which has the name that the panel showed, or "Unknown file"
-- if it showed none or an empty one. No other transfer changes, and no earlier notification.
pub map_get-events :
    (p : Panel) (e : ProgressEvent) (c : CompletedEvent) (now : ℕ)
    → ((t : PanelTransfer) × (IsProgress e now (map_get e.transfer_id p.active_transfers) t
          × ((q : String)
              → map_get q (on_transfer_progress e now p).active_transfers
                ≡ (if e.transfer_id == q then some t else map_get q p.active_transfers))))
      × ((n : CompletedTransfer) × (IsNotice c now (map_get c.transfer_id p.active_transfers) n
            × (((on_transfer_completed c now p).completed_transfers
                  ≡ p.completed_transfers ++ n ∷ [])
                × ((q : String)
                    → map_get q (on_transfer_completed c now p).active_transfers
                      ≡ (if c.transfer_id == q then none else map_get q p.active_transfers)))))
unfolding on_transfer_progress on_transfer_completed shown_transfer
map_get-events p e c now =
    let shown = map_get e.transfer_id p.active_transfers in
    let done = map_get c.transfer_id p.active_transfers in
    (
      (
        shown_transfer e now shown,
        (shown_transfer-IsProgress e now shown, λ q. map_get-map_set _ q p.active_transfers),
      ),
      (
        completed_transfer c now done,
        (
          completed_transfer-IsNotice c now done,
          (refl, λ q. map_get-map_delete c.transfer_id q p.active_transfers),
        ),
      ),
    )
