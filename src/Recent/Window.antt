-- ===== src/Recent/Window.antt =====
-- useRecentFiles.ts: the list is bounded, without repeated paths and newest first, and a call of
-- `addRecentFile` moves or puts its file to the front.
use mathlib.Core.Path.{ap₂}
use wormhole.Recent.{
  RecentFileEntry, RecentFile, max_recent_files, stamped, add_recent_file, remove_recent_file,
  clear_recent_files, cleanup_recent_files,
}
use wormhole.History.{ShareHistoryItem, ConnectionHistoryItem}
use wormhole.Sources.{filter_if_changed-eq-filter}
use wormhole.Recent.Groups.{NewestFirst, filter-NewestFirst}
use wormhole.Common.{
  ℕ, zero, suc, ◌≤◌, String, ◌≡◌, refl, sym, inl, inr, Bool, not, Option, none, some, List, [], ◌∷◌,
  arith, ◌==◌, eq_iff, Option-cases, length, filter, find, find_index, erase_idx, get_elem?, take,
  All, length-filter-le, length-take-le, All-filter, All-take, has_key, Absent, Distinct,
  find_of_Absent, Absent-of_find_index, Distinct-filter, Distinct-take, find_index_cases,
}

-- At most 100 entries, no path twice, and newest first.
pub record IsWindow (xs : List RecentFileEntry) : Type 0 where
  pub bounded : length xs ≤ max_recent_files
  pub distinct : Distinct (λ f. f.path) xs
  pub newest_first : NewestFirst xs

-- The file in front of the others, with the time of the access.
abbrev pub in_front : RecentFile → String → ℕ → List RecentFileEntry → List RecentFileEntry
in_front file id now prev =
    stamped file id now (find (has_key (λ f. f.path) file.path) prev)
    ∷ filter (λ f. not (f.path == file.path)) prev

-- The same, cut to 100 entries.
abbrev pub move_to_front : RecentFile → String → ℕ → List RecentFileEntry → List RecentFileEntry
move_to_front file id now prev = take max_recent_files (in_front file id now prev)

keep_others :
    (k : String) (xs : List RecentFileEntry)
    → Absent (λ f. f.path) k xs
    → filter (λ f. not (f.path == k)) xs ≡ xs
keep_others k [] h = refl
keep_others k (x ∷ xs) h = ground (arith, eq_iff x.path k, keep_others k xs h.1)

find_at :
    (k : String) (xs : List RecentFileEntry) (i : ℕ)
    → Distinct (λ f. f.path) xs
    → find_index (has_key (λ f. f.path) k) xs ≡ some i
    → (get_elem? xs i ≡ find (has_key (λ f. f.path) k) xs)
      × (erase_idx xs i ≡ filter (λ f. not (f.path == k)) xs)
find_at k [] i v e = cc
find_at k (x ∷ xs) i v e = elim (find_index_cases (λ f. f.path) k x xs i e) [
  | inl (p, z) ↦ rw z (ground (arith, eq_iff x.path k, keep_others k xs (rw p at v.0)))
  | inr (ne, j, z, w) ↦ rw w (ground (arith, eq_iff x.path k, find_at k xs j v.1 z))
]

find_of_find_index :
    (k : String) (xs : List RecentFileEntry)
    → find_index (has_key (λ f. f.path) k) xs ≡ none
    → find (has_key (λ f. f.path) k) xs ≡ none
find_of_find_index k xs e =
    find_of_Absent (λ f. f.path) k xs (Absent-of_find_index (λ f. f.path) k xs e)

-- `addRecentFile` moves the entry of the file's path to the front with the new time, or puts a new
-- entry there, and cuts the list to 100 entries, if no path is listed twice.
pub add_recent_file-move_to_front :
    (file : RecentFile) (id : String) (now : ℕ) (prev : List RecentFileEntry)
    → Distinct (λ f. f.path) prev
    → add_recent_file file id now prev ≡ move_to_front file id now prev
unfolding add_recent_file
add_recent_file-move_to_front file id now prev v =
    elim (Option-cases (find_index (has_key (λ f. f.path) file.path) prev)) [
      | inl e ↦
          let a = Absent-of_find_index (λ f. f.path) file.path prev e in
          rw e (
            ap₂ (λ o xs. take max_recent_files (stamped file id now o ∷ xs))
              (sym (find_of_find_index file.path prev e)) (sym (keep_others file.path prev a)))
      | inr (i, e) ↦
          let (same, rest) = find_at file.path prev i v e in
          rw e (ap₂ (λ o xs. take max_recent_files (stamped file id now o ∷ xs)) same rest)
    ]

stamped_path :
    (file : RecentFile) (id : String) (now : ℕ) (xs : List RecentFileEntry)
    → (stamped file id now (find (has_key (λ f. f.path) file.path) xs)).path ≡ file.path
stamped_path file id now [] = refl
stamped_path file id now (x ∷ xs) =
    ground (arith, eq_iff x.path file.path, stamped_path file id now xs)

stamped_time :
    (file : RecentFile) (id : String) (now : ℕ) (o : Option RecentFileEntry)
    → (stamped file id now o).accessed_at ≡ now
stamped_time file id now none = refl
stamped_time file id now (some e) = refl

Absent-filter :
    (k : String) (xs : List RecentFileEntry)
    → Absent (λ f. f.path) k (filter (λ f. not (f.path == k)) xs)
Absent-filter k [] = tt
Absent-filter k (x ∷ xs) = ground (arith, eq_iff x.path k, Absent-filter k xs)

take-NewestFirst : (n : ℕ) (xs : List RecentFileEntry) → NewestFirst xs → NewestFirst (take n xs)
take-NewestFirst _ [] v = tt
take-NewestFirst zero (x ∷ xs) v = tt
take-NewestFirst (suc n) (x ∷ xs) v =
    (All-take (λ y. y.accessed_at ≤ x.accessed_at) n xs v.0, take-NewestFirst n xs v.1)

move_to_front-IsWindow :
    (file : RecentFile) (id : String) (now : ℕ) (prev : List RecentFileEntry)
    → All (λ e. e.accessed_at ≤ now) prev
    → IsWindow prev
    → IsWindow (move_to_front file id now prev)
move_to_front-IsWindow file id now prev past v = record {
  bounded = length-take-le max_recent_files (in_front file id now prev);
  distinct =
      Distinct-take (λ f. f.path) max_recent_files (in_front file id now prev)
        (
          rw (stamped_path file id now prev) (Absent-filter file.path prev),
          Distinct-filter (λ f. f.path) _ prev v.distinct,
        );
  newest_first = take-NewestFirst max_recent_files (in_front file id now prev) (
    rw (stamped_time file id now (find (has_key (λ f. f.path) file.path) prev))
        (All-filter (λ e. e.accessed_at ≤ now) _ prev past),
    filter-NewestFirst _ prev v.newest_first,
  );
}

-- `addRecentFile` keeps the list bounded, without repeated paths and newest first, if the clock has
-- not gone back behind an entry.
add_recent_file-IsWindow :
    (file : RecentFile) (id : String) (now : ℕ) (prev : List RecentFileEntry)
    → All (λ e. e.accessed_at ≤ now) prev
    → IsWindow prev
    → IsWindow (add_recent_file file id now prev)
add_recent_file-IsWindow file id now prev past v =
    rw (add_recent_file-move_to_front file id now prev v.distinct)
      (move_to_front-IsWindow file id now prev past v)

-- A list of recent files and the time of the last call, after any sequence of calls from the empty
-- list whose readings of the clock do not go back.
pub data Run : ℕ → List RecentFileEntry → Type 0 where
  start : (t : ℕ) → Run t []
  added :
      {t : ℕ} {xs : List RecentFileEntry} (file : RecentFile) (id : String) (now : ℕ)
      → Run t xs
      → t ≤ now
      → Run now (add_recent_file file id now xs)
  removed :
      {t : ℕ} {xs : List RecentFileEntry} (id : String)
      → Run t xs
      → Run t (remove_recent_file id xs)
  cleared : {t : ℕ} {xs : List RecentFileEntry} → Run t xs → Run t (clear_recent_files xs)
  cleaned :
      {t : ℕ} {xs : List RecentFileEntry} (shares : List ShareHistoryItem)
      (connections : List ConnectionHistoryItem)
      → Run t xs
      → Run t (cleanup_recent_files shares connections xs)

later :
    (t now : ℕ) (xs : List RecentFileEntry)
    → t ≤ now
    → All (λ e. e.accessed_at ≤ t) xs
    → All (λ e. e.accessed_at ≤ now) xs
later t now [] h k = tt
later t now (x ∷ xs) h k = (omega arith, later t now xs h k.1)

move_to_front-past :
    (file : RecentFile) (id : String) (now : ℕ) (xs : List RecentFileEntry)
    → All (λ e. e.accessed_at ≤ now) xs
    → All (λ e. e.accessed_at ≤ now) (move_to_front file id now xs)
move_to_front-past file id now xs h =
    All-take (λ e. e.accessed_at ≤ now) max_recent_files (in_front file id now xs)
      (
        omega (arith, stamped_time file id now (find (has_key (λ f. f.path) file.path) xs)),
        All-filter (λ e. e.accessed_at ≤ now) _ xs h,
      )

filter-IsWindow :
    (p : RecentFileEntry → Bool) (xs : List RecentFileEntry) → IsWindow xs → IsWindow (filter p xs)
filter-IsWindow p xs v = record {
  bounded = omega (arith, v.bounded, length-filter-le p xs);
  distinct = Distinct-filter (λ f. f.path) p xs v.distinct;
  newest_first = filter-NewestFirst p xs v.newest_first;
}

-- However the hook is used from the empty list while the clock does not go back, the list has at
-- most 100 entries, no path twice, its newest entry first, and no entry later than the last
-- reading of the clock.
pub Run-IsWindow :
    {t : ℕ} {xs : List RecentFileEntry} → Run t xs → IsWindow xs × All (λ e. e.accessed_at ≤ t) xs
unfolding remove_recent_file clear_recent_files cleanup_recent_files
Run-IsWindow (start t) = (record { bounded = omega arith; distinct = tt; newest_first = tt }, tt)
Run-IsWindow (added {t = t} {xs = xs} file id now r h) =
    let (v, past) = Run-IsWindow r in
    let past' = later t now xs h past in
    (
      add_recent_file-IsWindow file id now xs past' v,
      rw (add_recent_file-move_to_front file id now xs v.distinct)
          (move_to_front-past file id now xs past'),
    )
Run-IsWindow (removed {xs = xs} id r) =
    let (v, past) = Run-IsWindow r in
    (filter-IsWindow _ xs v, All-filter (λ e. e.accessed_at ≤ _) _ xs past)
Run-IsWindow (cleared r) = (record { bounded = omega arith; distinct = tt; newest_first = tt }, tt)
Run-IsWindow (cleaned {xs = xs} shares connections r) =
    let (v, past) = Run-IsWindow r in
    rw filter_if_changed-eq-filter
      (filter-IsWindow _ xs v, All-filter (λ e. e.accessed_at ≤ _) _ xs past)
