-- ===== src/Favorites/Membership.antt =====
-- useFavorites.ts: which paths are favorites after an operation.
use wormhole.Favorites.{
  FavoriteEntry, FavoriteFile, cleanup_favorites, add_favorite, remove_favorite, toggle_favorite,
  clear_favorites, is_favorite,
}
use wormhole.History.{ShareHistoryItem, ConnectionHistoryItem}
use wormhole.Sources.{is_valid_source, filter_if_changed-eq-filter}
use wormhole.Common.{
  ℕ, String, ◌≡◌, inl, inr, Bool, false, not, some, List, [], ◌∷◌, arith, ◌==◌, eq_iff, eq_refl,
  if◌then◌else◌, Bool-cases, Option-cases, filter, find_index, erase_idx, filter-All, filter_of_All,
  has_key, has, Distinct, Absent-of_has, has_of_Absent, Absent-of_find_index, Distinct-filter,
  Distinct-erase_idx, find_index_cases, find_index_of_Absent, has_of_find_index,
}

abbrev pub HasDistinctPaths : List FavoriteEntry → Type 0
HasDistinctPaths = Distinct (λ f. f.path)

-- Removing the entry at the index that the search gives.
has-erase_idx :
    (k q : String) (xs : List FavoriteEntry) (i : ℕ)
    → HasDistinctPaths xs
    → find_index (has_key (λ f. f.path) k) xs ≡ some i
    → is_favorite (erase_idx xs i) q ≡ (if k == q then not (is_favorite xs q) else is_favorite xs q)
unfolding is_favorite
has-erase_idx k q [] i v e = cc
has-erase_idx k q (x ∷ xs) i v e = elim (find_index_cases (λ f. f.path) k x xs i e) [
  | inl (p, z) ↦
      rw z (ground (arith, eq_iff k q, eq_iff x.path q, has_of_Absent (λ f. f.path) x.path xs v.0))
  | inr (ne, j, z, w) ↦ rw w (
      ground (
        arith,
        eq_iff k q,
        eq_iff x.path q,
        eq_iff x.path k,
        has-erase_idx k q xs j v.1 z,
        has_of_find_index (λ f. f.path) k xs j z,
      ))
]

-- Toggling a file flips whether its path is a favorite and no other path, if no path is listed
-- twice.
pub is_favorite-toggle_favorite :
    (file : FavoriteFile) (id : String) (now : ℕ) (prev : List FavoriteEntry) (q : String)
    → HasDistinctPaths prev
    → is_favorite (toggle_favorite file id now prev) q
      ≡ (if file.path == q then not (is_favorite prev q) else is_favorite prev q)
unfolding toggle_favorite
is_favorite-toggle_favorite file id now prev q v =
    elim (Option-cases (find_index (has_key (λ f. f.path) file.path) prev)) [
      | inl e ↦
          rw (e, toggle_favorite)
            (unfold is_favorite in
              ground (
                arith,
                eq_iff file.path q,
                has_of_Absent (λ f. f.path) file.path prev
                    (Absent-of_find_index (λ f. f.path) file.path prev e),
              ))
      | inr (i, e) ↦ rw (e, toggle_favorite) (has-erase_idx file.path q prev i v e)
    ]

-- Toggling an absent file on and off again gives the list back.
toggle_favorite_twice :
    (file : FavoriteFile) (id id' : String) (now now' : ℕ) (prev : List FavoriteEntry)
    → is_favorite prev file.path ≡ false
    → toggle_favorite file id' now' (toggle_favorite file id now prev) ≡ prev
unfolding toggle_favorite is_favorite
toggle_favorite_twice file id id' now now' prev h = ground (
  arith,
  eq_refl file.path,
  find_index_of_Absent (λ f. f.path) file.path prev (Absent-of_has (λ f. f.path) file.path prev h),
)

toggle_favorite-HasDistinctPaths :
    (file : FavoriteFile) (id : String) (now : ℕ) (prev : List FavoriteEntry)
    → HasDistinctPaths prev
    → HasDistinctPaths (toggle_favorite file id now prev)
unfolding toggle_favorite
toggle_favorite-HasDistinctPaths file id now prev v =
    elim (Option-cases (find_index (has_key (λ f. f.path) file.path) prev)) [
      | inl e ↦ rw (e, toggle_favorite) (Absent-of_find_index (λ f. f.path) file.path prev e, v)
      | inr (i, e) ↦ rw (e, toggle_favorite) (Distinct-erase_idx (λ f. f.path) prev i v)
    ]

add_favorite-HasDistinctPaths :
    (file : FavoriteFile) (id : String) (now : ℕ) (prev : List FavoriteEntry)
    → HasDistinctPaths prev
    → HasDistinctPaths (add_favorite file id now prev)
unfolding add_favorite
add_favorite-HasDistinctPaths file id now prev v =
    elim (Bool-cases (has (λ f. f.path) file.path prev)) [
      | inl e ↦ rw (e, add_favorite) v
      | inr e ↦ rw (e, add_favorite) (Absent-of_has (λ f. f.path) file.path prev e, v)
    ]

-- A call of the hook, with the identifier and the time that it reads.
pub data Call : Type 0 where
  add toggle : FavoriteFile → String → ℕ → Call
  remove : String → Call
  clear : Call
  cleanup : List ShareHistoryItem → List ConnectionHistoryItem → Call

pub run_call : Call → List FavoriteEntry → List FavoriteEntry
run_call (add file id now) prev = add_favorite file id now prev
run_call (toggle file id now) prev = toggle_favorite file id now prev
run_call (remove id) prev = remove_favorite id prev
run_call clear prev = clear_favorites prev
run_call (cleanup shares connections) prev = cleanup_favorites shares connections prev

pub run : List Call → List FavoriteEntry → List FavoriteEntry
run [] prev = prev
run (c ∷ cs) prev = run cs (run_call c prev)

run_call-HasDistinctPaths :
    (c : Call) (prev : List FavoriteEntry)
    → HasDistinctPaths prev
    → HasDistinctPaths (run_call c prev)
unfolding run_call remove_favorite clear_favorites cleanup_favorites
run_call-HasDistinctPaths (add file id now) prev v =
    add_favorite-HasDistinctPaths file id now prev v
run_call-HasDistinctPaths (toggle file id now) prev v =
    toggle_favorite-HasDistinctPaths file id now prev v
run_call-HasDistinctPaths (remove id) prev v = Distinct-filter (λ f. f.path) _ prev v
run_call-HasDistinctPaths clear prev v = tt
run_call-HasDistinctPaths (cleanup shares connections) prev v =
    rw filter_if_changed-eq-filter (Distinct-filter (λ f. f.path) _ prev v)

-- From a list without a repeated path, no sequence of calls lists a path twice.
run-HasDistinctPaths :
    (cs : List Call) (prev : List FavoriteEntry)
    → HasDistinctPaths prev
    → HasDistinctPaths (run cs prev)
unfolding run
run-HasDistinctPaths [] prev v = v
run-HasDistinctPaths (c ∷ cs) prev v =
    run-HasDistinctPaths cs (run_call c prev) (run_call-HasDistinctPaths c prev v)

-- The clean-up keeps, in order, the entries whose source is a remembered share or connection, and
-- doing it again changes nothing.
cleanup_favorites-eq-filter :
    (shares : List ShareHistoryItem) (connections : List ConnectionHistoryItem)
    (prev : List FavoriteEntry)
    → (cleanup_favorites shares connections prev
        ≡ filter (λ e. is_valid_source shares connections e.source_id) prev)
      × (cleanup_favorites shares connections (cleanup_favorites shares connections prev)
          ≡ cleanup_favorites shares connections prev)
unfolding cleanup_favorites
cleanup_favorites-eq-filter shares connections prev =
    let p : FavoriteEntry → Bool = λ e. is_valid_source shares connections e.source_id in
    (
      filter_if_changed-eq-filter p prev,
      simp filter_if_changed-eq-filter (filter_of_All p (filter p prev) (filter-All p prev)),
    )
