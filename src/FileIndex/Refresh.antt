-- ===== src/FileIndex/Refresh.antt =====
-- useFileIndex.ts: what a refresh gives, when it starts, and what a cancelled one leaves.
use wormhole.FileIndex.{
  IndexEntry, Root, RefreshJob, State, roots, entries_of, contains, set_add, set_from,
  current_paths, needs_reindex, begin, carry_on, on_sources_changed, refresh_step, refresh_steps,
  index_all, refresh_index, total_files, total_folders,
}
use wormhole.History.{ShareHistoryItem, ConnectionHistoryItem}
use mathlib.Core.Path.{subst}
use mathlib.Core.List.{append_assoc, append-nil}
use wormhole.Common.{
  ℕ, zero, suc, ◌+◌, ◌<◌, String, ◌≡◌, refl, sym, ap, ◌∙◌, true, false, not, Option, none, List, [],
  ◌∷◌, ◌++◌, map, arith, eq_refl, length, any, All,
}

-- What is left of a refresh, done at once.
abbrev rest_of : (Root → Option (List IndexEntry)) → RefreshJob → State → State
rest_of backend job s = record s {
  index = job.new_index ++ index_all backend job.left;
  indexed_sources = job.sources ++ map (λ r. r.path) job.left;
  indexed_paths = set_from job.paths (map (λ r. r.path) job.left);
  is_indexing = false;
  refresh = none;
}

refresh_steps-rest :
    (backend : Root → Option (List IndexEntry)) (left : List Root) (new_index : List IndexEntry)
    (sources paths : List String) (s : State)
    → let job : RefreshJob = record {
      left = left;
      new_index = new_index;
      sources = sources;
      paths = paths;
    } in
      refresh_steps (length left) backend (carry_on left job s) ≡ rest_of backend job s
unfolding refresh_steps refresh_step set_from
refresh_steps-rest backend [] new_index sources paths s = simp append-nil
refresh_steps-rest backend (r ∷ rs) new_index sources paths s =
    refresh_steps-rest backend rs (new_index ++ entries_of (backend r)) (sources ++ r.path ∷ [])
      (set_add r.path paths) _
    ∙ rw
        (
          append_assoc new_index (entries_of (backend r)) (index_all backend rs),
          append_assoc sources (r.path ∷ []) (map (λ q. q.path) rs),
        )
        refl

-- A refresh that is started by the effect and not cancelled ends with the answer for the last
-- directory, at once where there is none, and leaves what `refreshIndex` leaves in one go for the same
-- answers. The paths to index differ from the indexed ones.
pub refresh_steps-refresh_index :
    (backend : Root → Option (List IndexEntry)) (shares : List ShareHistoryItem)
    (connections : List ConnectionHistoryItem) (s : State)
    → needs_reindex (current_paths (roots shares connections)) s.indexed_paths ≡ true
    → refresh_steps
        (length (roots shares connections))
        backend
        (on_sources_changed shares connections s)
      ≡ record (refresh_index backend shares connections s) { refresh = none }
unfolding on_sources_changed refresh_index current_paths
refresh_steps-refresh_index backend shares connections s e = rw e (
    refresh_steps-rest backend (roots shares connections) [] [] []
      (record s { is_indexing = true }))

missing_weaken :
    (z : String) (zs xs : List String)
    → any (λ p. not (contains zs p)) xs ≡ false
    → any (λ p. not (contains (z ∷ zs) p)) xs ≡ false
missing_weaken z zs [] h = refl
missing_weaken z zs (x ∷ xs) h = ground (arith, missing_weaken z zs xs)

none_missing : (xs : List String) → any (λ p. not (contains xs p)) xs ≡ false
none_missing [] = refl
none_missing (x ∷ xs) = rw (eq_refl x) (missing_weaken x xs xs (none_missing xs))

needs_reindex_same : (paths : List String) → needs_reindex paths paths ≡ false
unfolding needs_reindex
needs_reindex_same paths = ground (arith, none_missing paths)

-- After `refreshIndex` the effect on the same sources starts no refresh.
on_sources_changed-refresh_index :
    (backend : Root → Option (List IndexEntry)) (shares : List ShareHistoryItem)
    (connections : List ConnectionHistoryItem) (s : State)
    → on_sources_changed shares connections (refresh_index backend shares connections s)
      ≡ record (refresh_index backend shares connections s) { refresh = none }
unfolding on_sources_changed refresh_index
on_sources_changed-refresh_index backend shares connections s =
    rw (needs_reindex_same (current_paths (roots shares connections))) refl

refresh_steps_unset :
    (n : ℕ) (backend : Root → Option (List IndexEntry)) (s : State)
    → refresh_steps n backend (record s { refresh = none }) ≡ record s { refresh = none }
unfolding refresh_steps refresh_step
refresh_steps_unset zero backend s = refl
refresh_steps_unset (suc n) backend s = refresh_steps_unset n backend s

-- What a refresh that has not ended leaves as it was.
abbrev Keeps : State → State → Type 0
Keeps s t =
    (t.index ≡ s.index) × ((t.is_indexing ≡ s.is_indexing) × (t.indexed_paths ≡ s.indexed_paths))

refresh_steps-Keeps :
    (n : ℕ) (backend : Root → Option (List IndexEntry)) (left : List Root)
    (new_index : List IndexEntry) (sources paths : List String) (s : State)
    → n < length left
    → Keeps s (
        refresh_steps n backend (
          carry_on left
            (record { left = left; new_index = new_index; sources = sources; paths = paths })
            s))
unfolding refresh_steps refresh_step
refresh_steps-Keeps n backend [] new_index sources paths s l = absurd (omega arith)
refresh_steps-Keeps zero backend (r ∷ rs) new_index sources paths s l = (refl, (refl, refl))
refresh_steps-Keeps (suc n) backend (r ∷ rs) new_index sources paths s l =
    refresh_steps-Keeps n backend rs _ _ _ _ (omega arith)

on_sources_changed-starts :
    (shares : List ShareHistoryItem) (connections : List ConnectionHistoryItem) (s : State)
    → needs_reindex (current_paths (roots shares connections)) s.indexed_paths ≡ true
    → on_sources_changed shares connections s
      ≡ carry_on
          (roots shares connections)
          (begin (roots shares connections))
          (record s { is_indexing = true })
unfolding on_sources_changed
on_sources_changed-starts shares connections s e = simp e

on_sources_changed-cancels :
    (shares : List ShareHistoryItem) (connections : List ConnectionHistoryItem) (s : State)
    → needs_reindex (current_paths (roots shares connections)) s.indexed_paths ≡ false
    → on_sources_changed shares connections s ≡ record s { refresh = none }
unfolding on_sources_changed
on_sources_changed-cancels shares connections s e = simp e

-- If the sources change so that the effect starts a refresh, and they are again those that are
-- indexed before the last of its directories has been answered for, it is cancelled, no other one
-- runs, and the hook shows that it is indexing however long one waits. So there is a directory to
-- index in between: without one the refresh ends at once.
pub on_sources_changed_back-is_indexing :
    (backend : Root → Option (List IndexEntry)) (shares shares' : List ShareHistoryItem)
    (connections connections' : List ConnectionHistoryItem) (s : State) (n k : ℕ)
    → needs_reindex (current_paths (roots shares' connections')) s.indexed_paths ≡ true
    → needs_reindex (current_paths (roots shares connections)) s.indexed_paths ≡ false
    → n < length (roots shares' connections')
    → let left : State = refresh_steps k backend (
        on_sources_changed shares connections
          (refresh_steps n backend (on_sources_changed shares' connections' s))) in
      (left.is_indexing ≡ true) × ((left.refresh ≡ none) × (left.index ≡ s.index))
on_sources_changed_back-is_indexing backend shares shares' connections connections' s n k e f l =
    let t = refresh_steps n backend (on_sources_changed shares' connections' s) in
    let kept : Keeps (record s { is_indexing = true }) t =
      subst (λ u. Keeps (record s { is_indexing = true }) (refresh_steps n backend u))
        (sym (on_sources_changed-starts shares' connections' s e))
        (refresh_steps-Keeps n backend (roots shares' connections') [] [] []
          (record s { is_indexing = true }) l) in
    let idle =
      ap (refresh_steps k backend) (
        on_sources_changed-cancels shares connections t
          (ap (needs_reindex (current_paths (roots shares connections))) kept.1.1 ∙ f))
      ∙ refresh_steps_unset k backend t in
    (
      ap (λ (u : State). u.is_indexing) idle ∙ kept.1.0,
      (ap (λ (u : State). u.refresh) idle, ap (λ (u : State). u.index) idle ∙ kept.0),
    )

-- Every entry is counted as a file or as a folder, and none as both.
pub total-length :
    (index : List IndexEntry) → total_files index + total_folders index ≡ length index
unfolding total_files total_folders
total-length [] = refl
total-length (e ∷ es) = ground (arith, total-length es)

-- The effect runs again and again, each time before the last refresh has ended; `ns` are the steps
-- that the refreshes make. The sync of every five seconds makes new arrays, so the effect runs then.
unfoldable pub interrupted :
    (Root → Option (List IndexEntry))
    → List ShareHistoryItem
    → List ConnectionHistoryItem
    → List ℕ
    → State
    → State
interrupted backend shares connections [] s = s
interrupted backend shares connections (n ∷ ns) s =
    interrupted backend shares connections ns
      (refresh_steps n backend (on_sources_changed shares connections s))

-- However often the refresh of sources that are not indexed is started again before it ends, the
-- index stays what it was.
interrupted-index :
    (backend : Root → Option (List IndexEntry)) (shares : List ShareHistoryItem)
    (connections : List ConnectionHistoryItem) (ns : List ℕ) (s : State)
    → needs_reindex (current_paths (roots shares connections)) s.indexed_paths ≡ true
    → All (λ n. n < length (roots shares connections)) ns
    → (interrupted backend shares connections ns s).index ≡ s.index
unfolding interrupted
interrupted-index backend shares connections [] s e l = refl
interrupted-index backend shares connections (n ∷ ns) s e l =
    let kept : Keeps (record s { is_indexing = true })
        (refresh_steps n backend (on_sources_changed shares connections s)) =
      subst (λ u. Keeps (record s { is_indexing = true }) (refresh_steps n backend u))
        (sym (on_sources_changed-starts shares connections s e))
        (refresh_steps-Keeps n backend (roots shares connections) [] [] []
          (record s { is_indexing = true }) l.0) in
    interrupted-index backend shares connections ns _
      (ap (needs_reindex (current_paths (roots shares connections))) kept.1.1 ∙ e) l.1
    ∙ kept.0
