-- ===== src/Transfers.antt =====
-- apps/desktop/src/types/transfers.ts and apps/desktop/src/hooks/useTransfers.ts: the running
-- transfers as the state of a hook, which reacts to events of the backend, to its own timers and to
-- the user. The state has the `mounted` flag and the identifiers of the timers that are set.
pub mod Terminal
pub mod Sidebar
use wormhole.History.{ShareHistoryItem, ConnectionHistoryItem}
use wormhole.Sources.{SourceType, share, connection}
use wormhole.Common.{
  ℕ, ◌+◌, ◌-◌, ◌*◌, String, Bool, true, false, ◌&&◌, Option, none, some, List, [], ◌∷◌, ◌++◌, ◌==◌,
  ltb, if◌then◌else◌, length, filter, any, update_where, remove_where, has,
}

pub data TransferDirection : Type 0 where
  upload download : TransferDirection

pub data TransferStatus : Type 0 where
  pending active paused completed failed : TransferStatus

pub record ActiveTransfer : Type 0 where
  pub id : String
  pub file_name : String
  pub file_path : String
  pub source_id : String
  pub source_type : SourceType
  pub direction : TransferDirection
  pub status : TransferStatus
  pub bytes_transferred : ℕ
  pub total_bytes : ℕ
  pub started_at : ℕ
  pub completed_at : Option ℕ
  pub error : Option String

pub record TransferStartedEvent : Type 0 where
  pub id : String
  pub file_name : String
  pub file_path : String
  pub source_id : String
  pub source_type : SourceType
  pub direction : TransferDirection
  pub total_bytes : ℕ

pub record TransferProgressEvent : Type 0 where
  pub id : String
  pub bytes_transferred : ℕ
  pub total_bytes : ℕ

pub record TransferCompletedEvent : Type 0 where
  pub id : String
  pub success : Bool
  pub error : Option String

-- A timer is known by the transfer that its callback removes.
pub record State : Type 0 where
  pub mounted : Bool
  pub transfers : List ActiveTransfer
  pub timers : List String

pub data Event : Type 0 where
  transfer_started : TransferStartedEvent → ℕ → Event
  transfer_progress : TransferProgressEvent → Event
  transfer_completed : TransferCompletedEvent → ℕ → Event
  timer_fired : String → Event
  sources_changed : List ShareHistoryItem → List ConnectionHistoryItem → Event
  cancel pause resume : String → Event
  unmount : Event

unfoldable pub on_started : TransferStartedEvent → ℕ → List ActiveTransfer → List ActiveTransfer
on_started payload now prev =
    prev
    ++ record {
      id = payload.id;
      file_name = payload.file_name;
      file_path = payload.file_path;
      source_id = payload.source_id;
      source_type = payload.source_type;
      direction = payload.direction;
      status = active;
      bytes_transferred = 0;
      total_bytes = payload.total_bytes;
      started_at = now;
      completed_at = none;
      error = none;
    }
      ∷ []

unfoldable pub on_progress : TransferProgressEvent → List ActiveTransfer → List ActiveTransfer
on_progress payload =
    update_where (λ t. t.id) payload.id
      (λ t. record t {
        bytes_transferred = payload.bytes_transferred;
        total_bytes = payload.total_bytes;
      })

unfoldable pub on_completed : TransferCompletedEvent → ℕ → List ActiveTransfer → List ActiveTransfer
on_completed payload now =
    update_where (λ t. t.id) payload.id
      (λ t. record t {
        status = if payload.success then completed else failed;
        completed_at = some now;
        error = payload.error;
      })

-- The callback of the timer that `transfer-completed` sets.
unfoldable pub on_timer : String → List ActiveTransfer → List ActiveTransfer
on_timer = remove_where (λ t. t.id)

abbrev pub has_source :
    List ShareHistoryItem → List ConnectionHistoryItem → SourceType → String → Bool
has_source shares connections share id = has (λ s. s.id) id shares
has_source shares connections connection id = has (λ c. c.id) id connections

-- The effect on a change of the shares or connections: transfers of removed sources go.
unfoldable pub on_sources_changed :
    List ShareHistoryItem → List ConnectionHistoryItem → List ActiveTransfer → List ActiveTransfer
on_sources_changed shares connections =
    filter (λ t. has_source shares connections t.source_type t.source_id)

unfoldable pub cancel_transfer : String → List ActiveTransfer → List ActiveTransfer
cancel_transfer id =
    update_where (λ t. t.id) id (λ t. record t { status = failed; error = some "Cancelled" })

unfoldable pub pause_transfer : String → List ActiveTransfer → List ActiveTransfer
pause_transfer id = update_where (λ t. t.id) id (λ t. record t { status = paused })

unfoldable pub resume_transfer : String → List ActiveTransfer → List ActiveTransfer
resume_transfer id = update_where (λ t. t.id) id (λ t. record t { status = active })

-- One timer of the identifier is taken off; whether there was one.
abbrev pub drop_timer : String → List String → List String
drop_timer id [] = []
drop_timer id (i ∷ is) = let rest = drop_timer id is in if i == id then is else i ∷ rest

-- The three listeners and the timers' callbacks return at once when the hook is not mounted, and
-- its effects do not run; the timers that are set stay set.
unfoldable pub step : Event → State → State
step (transfer_started payload now) s =
    if s.mounted then record s { transfers = on_started payload now s.transfers } else s
step (transfer_progress payload) s =
    if s.mounted then record s { transfers = on_progress payload s.transfers } else s
step (transfer_completed payload now) s =
    if s.mounted
    then record s {
      transfers = on_completed payload now s.transfers;
      timers = payload.id ∷ s.timers;
    }
    else s
step (timer_fired id) s =
    if any (λ i. i == id) s.timers
    then record s {
      transfers = if s.mounted then on_timer id s.transfers else s.transfers;
      timers = drop_timer id s.timers;
    }
    else s
step (sources_changed shares connections) s =
    if s.mounted
    then record s { transfers = on_sources_changed shares connections s.transfers }
    else s
step (cancel id) s = record s { transfers = cancel_transfer id s.transfers }
step (pause id) s = record s { transfers = pause_transfer id s.transfers }
step (resume id) s = record s { transfers = resume_transfer id s.transfers }
step unmount s = record s { mounted = false }

unfoldable pub run : List Event → State → State
run [] s = s
run (e ∷ es) s = run es (step e s)

abbrev pub init : State
init = record { mounted = true; transfers = []; timers = [] }

abbrev pub is_running : TransferStatus → Bool
is_running active = true
is_running pending = true
is_running _ = false

unfoldable pub active_transfers : List ActiveTransfer → List ActiveTransfer
active_transfers = filter (λ t. is_running t.status)

unfoldable pub sum_by : (ActiveTransfer → ℕ) → List ActiveTransfer → ℕ
sum_by f [] = 0
sum_by f (t ∷ ts) = f t + sum_by f ts

-- A speed of `bytes` per `elapsed_ms` milliseconds; the program divides in floating point.
pub record Speed : Type 0 where
  pub bytes : ℕ
  pub elapsed_ms : ℕ

pub record TransferStats : Type 0 where
  pub active_count : ℕ
  pub total_bytes_transferred : ℕ
  pub average_speed : Option Speed

-- `none` is the speed 0 of no running transfer and of no positive time. The sum of the times since
-- the starts is positive where the starts add up to less than the readings of the clock.
unfoldable pub stats : ℕ → List ActiveTransfer → TransferStats
stats now running = record {
  active_count = length running;
  total_bytes_transferred = sum_by (λ t. t.bytes_transferred) running;
  average_speed =
      if ltb 0 (length running) && ltb (sum_by (λ t. t.started_at) running) (length running * now)
      then some (record {
        bytes = sum_by (λ t. t.bytes_transferred) running;
        elapsed_ms = length running * now - sum_by (λ t. t.started_at) running;
      })
      else none;
}
