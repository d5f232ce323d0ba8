-- ===== src/Transfers/Sidebar.antt =====
-- apps/desktop/src/App.tsx: the running transfers as the sidebar shows them.
use wormhole.Transfers.{
  ActiveTransfer, TransferDirection, State, Event, transfer_started, transfer_progress,
  transfer_completed, timer_fired, sources_changed, cancel, pause, resume, unmount, on_started,
  on_progress, on_completed, on_timer, on_sources_changed, cancel_transfer, pause_transfer,
  resume_transfer, active_transfers, step, run, init, TransferStartedEvent, TransferProgressEvent,
  TransferCompletedEvent, has_source,
}
use wormhole.Common.{
  ℕ, ◌+◌, ◌*◌, ◌/◌, ◌≤◌, ◌<◌, String, not, List, [], ◌∷◌, map, arith, ◌==◌, ltb, if◌then◌else◌, All,
  All-filter, All-append, All-map, update_where,
}

pub record SidebarTransfer : Type 0 where
  pub id : String
  pub file_name : String
  pub direction : TransferDirection
  pub progress : ℕ

-- `Math.round(b / n * 100)`, to the nearest whole number, a half upwards. The program divides in
-- floating point; here the quotient is exact.
abbrev pub percent : ℕ → ℕ → ℕ
percent b n = (200 * b + n) / (2 * n)

unfoldable pub sidebar_transfer : ActiveTransfer → SidebarTransfer
sidebar_transfer t = record {
  id = t.id;
  file_name = t.file_name;
  direction = t.direction;
  progress = if ltb 0 t.total_bytes then percent t.bytes_transferred t.total_bytes else 0;
}

unfoldable pub sidebar_transfers : List ActiveTransfer → List SidebarTransfer
sidebar_transfers = map sidebar_transfer

abbrev pub IsWithin : ActiveTransfer → Type 0
IsWithin t = t.bytes_transferred ≤ t.total_bytes

-- The backend reports no more bytes than the whole.
abbrev pub IsHonest : Event → Type 0
IsHonest (transfer_progress payload) = payload.bytes_transferred ≤ payload.total_bytes
IsHonest _ = Unit

update-IsWithin :
    (id : String) (f : ActiveTransfer → ActiveTransfer) (ts : List ActiveTransfer)
    → ((t : ActiveTransfer) → IsWithin t → IsWithin (f t))
    → All IsWithin ts
    → All IsWithin (update_where (λ t. t.id) id f ts)
update-IsWithin id f [] k h = tt
update-IsWithin id f (t ∷ ts) k h = (ground (arith, k t h.0), update-IsWithin id f ts k h.1)

on_started-IsWithin :
    (payload : TransferStartedEvent) (now : ℕ) (ts : List ActiveTransfer)
    → All IsWithin ts
    → All IsWithin (on_started payload now ts)
unfolding on_started
on_started-IsWithin payload now ts h = All-append IsWithin ts _ h (omega arith, tt)

on_progress-IsWithin :
    (payload : TransferProgressEvent) (ts : List ActiveTransfer)
    → payload.bytes_transferred ≤ payload.total_bytes
    → All IsWithin ts
    → All IsWithin (on_progress payload ts)
unfolding on_progress
on_progress-IsWithin payload ts k h = update-IsWithin payload.id _ ts (λ t p. k) h

on_completed-IsWithin :
    (payload : TransferCompletedEvent) (now : ℕ) (ts : List ActiveTransfer)
    → All IsWithin ts
    → All IsWithin (on_completed payload now ts)
unfolding on_completed
on_completed-IsWithin payload now ts h = update-IsWithin payload.id _ ts (λ t p. p) h

step-IsWithin :
    (e : Event) (s : State)
    → IsHonest e
    → All IsWithin s.transfers
    → All IsWithin (step e s).transfers
unfolding step on_timer on_sources_changed cancel_transfer pause_transfer resume_transfer
step-IsWithin (transfer_started payload now) s k h =
    ground (arith, on_started-IsWithin payload now s.transfers h)
step-IsWithin (transfer_progress payload) s k h =
    ground (arith, on_progress-IsWithin payload s.transfers k h)
step-IsWithin (transfer_completed payload now) s k h =
    ground (arith, on_completed-IsWithin payload now s.transfers h)
step-IsWithin (timer_fired id) s k h =
    ground (arith, All-filter IsWithin (λ t. not (t.id == id)) s.transfers h)
step-IsWithin (sources_changed shares connections) s k h = ground (
  arith,
  All-filter IsWithin (λ t. has_source shares connections t.source_type t.source_id) s.transfers h,
)
step-IsWithin (cancel id) s k h = update-IsWithin id _ s.transfers (λ t p. p) h
step-IsWithin (pause id) s k h = update-IsWithin id _ s.transfers (λ t p. p) h
step-IsWithin (resume id) s k h = update-IsWithin id _ s.transfers (λ t p. p) h
step-IsWithin unmount s k h = h

run-IsWithin :
    (es : List Event) (s : State)
    → All IsHonest es
    → All IsWithin s.transfers
    → All IsWithin (run es s).transfers
unfolding run
run-IsWithin [] s k h = h
run-IsWithin (e ∷ es) s k h = run-IsWithin es (step e s) k.1 (step-IsWithin e s k.0 h)

percent-le : (b n : ℕ) → b ≤ n → 0 < n → percent b n ≤ 100
percent-le b n h k = grind arith

sidebar_transfer-progress : (t : ActiveTransfer) → IsWithin t → (sidebar_transfer t).progress ≤ 100
unfolding sidebar_transfer
sidebar_transfer-progress t h = ground (arith, percent-le t.bytes_transferred t.total_bytes h)

-- If the backend never reports more bytes than the whole, every transfer in the sidebar shows at
-- most 100 percent, after any events.
sidebar_transfers-progress :
    (es : List Event)
    → All IsHonest es
    → All (λ t. t.progress ≤ 100) (sidebar_transfers (active_transfers (run es init).transfers))
unfolding sidebar_transfers active_transfers
sidebar_transfers-progress es k =
    All-map IsWithin (λ t. t.progress ≤ 100) sidebar_transfer _ sidebar_transfer-progress
      (All-filter IsWithin _ (run es init).transfers (run-IsWithin es init k tt))
