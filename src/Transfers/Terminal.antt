-- ===== src/Transfers/Terminal.antt =====
-- useTransfers.ts: a completed transfer leaves the list.
use mathlib.Core.Path.{subst}
use wormhole.Transfers.{
  TransferStatus, completed, paused, active, failed, TransferCompletedEvent, ActiveTransfer, State,
  Event, transfer_started, transfer_progress, transfer_completed, timer_fired, sources_changed,
  cancel, pause, resume, unmount, has_source, on_started, on_progress, on_completed, on_timer,
  on_sources_changed, cancel_transfer, pause_transfer, resume_transfer, drop_timer, step, run, init,
}
use wormhole.Common.{
  ℕ, String, ◌≡◌, refl, ◌∙◌, ◌≢◌, Bool, true, List, [], ◌∷◌, map, arith, ◌==◌, eq_iff, eq_refl, any,
  All, All-filter, All-append, update_where,
}

abbrev pub waits : List String → String → Bool
waits timers id = any (λ i. i == id) timers

-- A completed transfer has a timer that will remove it.
abbrev pub HasTimer : List String → ActiveTransfer → Type 0
HasTimer timers t = t.status ≡ completed → waits timers t.id ≡ true

abbrev pub HasTimers : State → Type 0
HasTimers s = s.mounted ≡ true → All (HasTimer s.timers) s.transfers

waits_head :
    (id k : String) (timers : List String) → waits timers k ≡ true → waits (id ∷ timers) k ≡ true
waits_head id k timers h = ground arith

waits-drop_timer :
    (id k : String) (timers : List String)
    → k ≢ id
    → waits (drop_timer id timers) k ≡ waits timers k
waits-drop_timer id k [] ne = refl
waits-drop_timer id k (i ∷ is) ne =
    ground (arith, eq_iff i id, eq_iff i k, waits-drop_timer id k is ne)

on_started-HasTimer :
    (timers : List String) (payload : _) (now : ℕ) (ts : List ActiveTransfer)
    → All (HasTimer timers) ts
    → All (HasTimer timers) (on_started payload now ts)
unfolding on_started
on_started-HasTimer timers payload now ts h = All-append (HasTimer timers) ts _ h ((λ e. cc), tt)

on_progress-HasTimer :
    (timers : List String) (payload : _) (ts : List ActiveTransfer)
    → All (HasTimer timers) ts
    → All (HasTimer timers) (on_progress payload ts)
unfolding on_progress
on_progress-HasTimer timers payload [] h = tt
on_progress-HasTimer timers payload (t ∷ ts) h =
    (ground (arith, h.0), on_progress-HasTimer timers payload ts h.1)

on_completed-HasTimer :
    (timers : List String) (payload : TransferCompletedEvent) (now : ℕ) (ts : List ActiveTransfer)
    → All (HasTimer timers) ts
    → All (HasTimer (payload.id ∷ timers)) (on_completed payload now ts)
unfolding on_completed
on_completed-HasTimer timers payload now [] h = tt
on_completed-HasTimer timers payload now (t ∷ ts) h = (
  ground (arith, h.0, eq_iff t.id payload.id, eq_iff payload.id t.id),
  on_completed-HasTimer timers payload now ts h.1,
)

on_timer-HasTimer :
    (timers : List String) (id : String) (ts : List ActiveTransfer)
    → All (HasTimer timers) ts
    → All (HasTimer (drop_timer id timers)) (on_timer id ts)
unfolding on_timer
on_timer-HasTimer timers id [] h = tt
on_timer-HasTimer timers id (t ∷ ts) h = ground (
  arith,
  h.0,
  eq_iff t.id id,
  waits-drop_timer id t.id timers,
  on_timer-HasTimer timers id ts h.1,
)

on_update-HasTimer :
    (timers : List String) (id : String) (status : TransferStatus)
    (f : ActiveTransfer → ActiveTransfer) (ts : List ActiveTransfer)
    → ((t : ActiveTransfer) → (f t).status ≡ status)
    → status ≢ completed
    → All (HasTimer timers) ts
    → All (HasTimer timers) (update_where (λ t. t.id) id f ts)
on_update-HasTimer timers id status f [] e ne h = tt
on_update-HasTimer timers id status f (t ∷ ts) e ne h =
    (ground (arith, h.0, e t), on_update-HasTimer timers id status f ts e ne h.1)

step-HasTimers : (e : Event) (s : State) → HasTimers s → HasTimers (step e s)
unfolding step cancel_transfer pause_transfer resume_transfer on_sources_changed
step-HasTimers (transfer_started payload now) s h =
    ground (arith, h, on_started-HasTimer s.timers payload now s.transfers)
step-HasTimers (transfer_progress payload) s h =
    ground (arith, h, on_progress-HasTimer s.timers payload s.transfers)
step-HasTimers (transfer_completed payload now) s h =
    ground (arith, h, on_completed-HasTimer s.timers payload now s.transfers)
step-HasTimers (timer_fired id) s h = ground (arith, h, on_timer-HasTimer s.timers id s.transfers)
step-HasTimers (sources_changed shares connections) s h = ground (
  arith,
  h,
  All-filter (HasTimer s.timers) (λ t. has_source shares connections t.source_type t.source_id)
      s.transfers,
)
step-HasTimers (cancel id) s h =
    λ m. on_update-HasTimer s.timers id failed _ s.transfers (λ t. refl) (λ e. cc) (h m)
step-HasTimers (pause id) s h =
    λ m. on_update-HasTimer s.timers id paused _ s.transfers (λ t. refl) (λ e. cc) (h m)
step-HasTimers (resume id) s h =
    λ m. on_update-HasTimer s.timers id active _ s.transfers (λ t. refl) (λ e. cc) (h m)
step-HasTimers unmount s h = λ m. cc

-- While the hook is mounted, every completed transfer has a timer set that will remove it, whatever
-- the order of the events.
pub run-HasTimers : (es : List Event) (s : State) → HasTimers s → HasTimers (run es s)
unfolding run
run-HasTimers [] s h = h
run-HasTimers (e ∷ es) s h = run-HasTimers es (step e s) (step-HasTimers e s h)

timer_step :
    (id : String) (is : List String) (s : State)
    → s.timers ≡ id ∷ is
    → ((step (timer_fired id) s).timers ≡ is) × ((step (timer_fired id) s).mounted ≡ s.mounted)
unfolding step
timer_step id is s e = ground (arith, eq_refl id)

no_completed :
    (ts : List ActiveTransfer) → All (HasTimer []) ts → All (λ t. t.status ≢ completed) ts
no_completed [] h = tt
no_completed (t ∷ ts) h = ((λ c. cc (h.0 c)), no_completed ts h.1)

drain :
    (timers : List String) (s : State)
    → s.timers ≡ timers
    → s.mounted ≡ true
    → HasTimers s
    → All (λ t. t.status ≢ completed) (run (map timer_fired timers) s).transfers
unfolding run
drain [] s e m h =
    no_completed s.transfers (subst (λ timers. All (HasTimer timers) s.transfers) e (h m))
drain (id ∷ is) s e m h =
    let (rest, same) = timer_step id is s e in
    drain is (step (timer_fired id) s) rest (same ∙ m) (step-HasTimers (timer_fired id) s h)

-- From the start, after any events that leave the hook mounted, no completed transfer is left once
-- the timers that are set have fired.
pub run-drains :
    (es : List Event)
    → (run es init).mounted ≡ true
    → All
        (λ t. t.status ≢ completed)
        (run (map timer_fired (run es init).timers) (run es init)).transfers
run-drains es m = drain _ (run es init) refl m (run-HasTimers es init (λ e. tt))
