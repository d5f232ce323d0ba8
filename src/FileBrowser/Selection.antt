-- ===== src/FileBrowser/Selection.antt =====
-- App.tsx: what the file browser lists and what is selected in it.
use wormhole.Paths.{text_length, get_parent_path}
use wormhole.FileBrowser.Runs.{
  Run, start, root_changes, loads, fails, clicks, opens, goes_up, goes_to_root, goes_to,
  asks_delete, cancels_delete, deletes, searches, All-get_elem?,
}
use wormhole.FileBrowser.{
  FileEntry, Browser, answered, threw, first_render, load_directory, root_path_effect,
  directory_loaded, set_has, toggle_in, handle_file_click, go_up, file_deleted, filtered_files,
}
use wormhole.Common.{
  ℕ, ◌||◌, String, ◌≡◌, refl, ap, ◌∙◌, Bool, true, false, Bool-cases, ◌⊎◌, inl, inr, Option, none,
  some, leb, List, [], ◌∷◌, ◌++◌, get_elem?, has, not, if◌then◌else◌, All, All-append, All-filter,
  filter, eq_iff, eq_refl, arith, ◌==◌,
}

set_has-filter :
    (a b : String) (s : List String)
    → set_has b (filter (λ x. not (x == a)) s) ≡ (if a == b then false else set_has b s)
set_has-filter a b [] = ground arith
set_has-filter a b (x ∷ s) =
    ground (arith, eq_iff x a, eq_iff x b, eq_iff a b, set_has-filter a b s)

set_has-snoc :
    (a b : String) (s : List String) → set_has b (s ++ a ∷ []) ≡ (set_has b s || (a == b))
set_has-snoc a b [] = ground arith
set_has-snoc a b (x ∷ s) = ground (arith, set_has-snoc a b s)

-- What a click does to the set of the selected paths.
toggle_in_lem :
    (a b : String) (s : List String)
    → set_has b (toggle_in a s) ≡ (if a == b then not (set_has a s) else set_has b s)
toggle_in_lem a b s = elim (Bool-cases (set_has a s)) [
  | inl e ↦ rw e (set_has-filter a b s)
  | inr e ↦ rw e (set_has-snoc a b s ∙ ground arith)
]

-- A click selects a file that is not selected and takes a selected one out; no other path changes,
-- and neither does anything else.
handle_file_click-set_has :
    (file : FileEntry) (path : String) (s : Browser)
    → (set_has path (handle_file_click file false s).0.selected_files ≡ (
        if file.path == path
        then not (set_has file.path s.selected_files)
        else set_has path s.selected_files))
      × ((handle_file_click file false s).1 ≡ none)
      × (record (handle_file_click file false s).0 { selected_files = s.selected_files } ≡ s)
unfolding handle_file_click
handle_file_click-set_has file path s = (toggle_in_lem file.path path s.selected_files, refl, refl)

-- The listing is empty or what the backend has answered for the folder that is shown.
abbrev pub IsListing : (String → List FileEntry → Type 0) → Browser → Type 0
IsListing lists s = (s.files ≡ []) ⊎ lists s.current_path s.files

-- Unless a folder is loading or an error is shown, every selected path is that of a listed file.
abbrev pub SelectsListed : Browser → Type 0
SelectsListed s =
    s.loading ≡ false
    → s.error ≡ none
    → All (λ p. has (λ e. e.path) p s.files ≡ true) s.selected_files

All-toggle_in :
    (P : String → Type 0) (a : String) (s : List String) → P a → All P s → All P (toggle_in a s)
All-toggle_in P a s h k = elim (Bool-cases (set_has a s)) [
  | inl e ↦ rw e (All-filter P _ s k)
  | inr e ↦ rw e (All-append P s (a ∷ []) k (h, tt))
]

All-has :
    (xs ys : List FileEntry)
    → ((k : String) → has (λ e. e.path) k ys ≡ true → has (λ e. e.path) k xs ≡ true)
    → All (λ e. has (λ e. e.path) e.path xs ≡ true) ys
All-has xs [] w = tt
All-has xs (y ∷ ys) w = (
  w y.path (ap (λ b. b || has (λ e. e.path) y.path ys) (eq_refl y.path)),
  All-has xs ys (λ k h. w k (ground (arith, h))),
)

shown_has :
    (lower : String → String) (s : Browser) (i : ℕ) (file : FileEntry)
    → get_elem? (filtered_files lower s) i ≡ some file
    → has (λ e. e.path) file.path s.files ≡ true
unfolding filtered_files
shown_has lower s i file =
    All-get_elem? (λ e. has (λ e. e.path) e.path s.files ≡ true) (filtered_files lower s) i file
      (All-filter (λ e. has (λ e. e.path) e.path s.files ≡ true) _ s.files
        (All-has s.files s.files (λ k h. h)))

-- What the browser shows when it shows a listing.
abbrev pub ShowsListing : (String → List FileEntry → Type 0) → Browser → Type 0
ShowsListing lists s = IsListing lists s × SelectsListed s

module _ (lists : String → List FileEntry → Type 0) (s : Browser) (h : ShowsListing lists s) where
  load_directory-ShowsListing : ShowsListing lists (load_directory s)
  unfolding load_directory
  load_directory-ShowsListing = (h.0, λ l e. cc)

  loaded-ShowsListing :
      (path : String) (entries : List FileEntry)
      → lists path entries
      → ShowsListing lists (directory_loaded path (answered entries) s)
  unfolding directory_loaded
  loaded-ShowsListing path entries l = (inr l, λ _ _. tt)

  failed-ShowsListing :
      (path message : String) → ShowsListing lists (directory_loaded path (threw message) s)
  unfolding directory_loaded
  failed-ShowsListing path message = (inl refl, λ l e. cc)

  click-ShowsListing :
      (file : FileEntry) (twice : Bool)
      → has (λ e. e.path) file.path s.files ≡ true
      → ShowsListing lists (handle_file_click file twice s).0
  unfolding handle_file_click load_directory
  click-ShowsListing file false listed =
      (h.0, λ l e. All-toggle_in _ file.path s.selected_files listed (h.1 l e))
  click-ShowsListing file true listed = elim (Bool-cases file.is_dir) [
    | inl dir ↦ rw dir load_directory-ShowsListing
    | inr plain ↦ rw plain h
  ]

  up-ShowsListing : (root : String) → ShowsListing lists (go_up root s).0
  unfolding go_up load_directory
  up-ShowsListing root =
      elim (Bool-cases
        (leb (text_length root) (text_length (get_parent_path s.current_path root)))) [
          | inl long ↦ rw long load_directory-ShowsListing
          | inr short ↦ rw short h
        ]

  delete-ShowsListing :
      (path : String) (thrown : Option String) → ShowsListing lists (file_deleted path thrown s).0
  unfolding file_deleted load_directory
  delete-ShowsListing path none = (h.0, λ l e. cc)
  delete-ShowsListing path (some message) = (h.0, λ l e. cc)

root-ShowsListing :
    (lists : String → List FileEntry → Type 0) (root : String) (s : Browser)
    → ShowsListing lists s
    → ShowsListing lists (root_path_effect root s).0
unfolding root_path_effect
root-ShowsListing lists root s h = elim (Bool-cases (root == "")) [
  | inl none_given ↦ rw none_given h
  | inr given ↦ rw given (load_directory-ShowsListing lists s h)
]

-- In every run of a file browser the listing is empty or is what the backend answered for the very
-- folder that is shown, in whatever order overlapping requests are answered and whenever the browser
-- is given another root; and while a listing is shown, neither loading nor with an error, only listed
-- files are selected.
pub Run-ShowsListing :
    (lower : String → String) (given : String → Type 0) (lists : String → List FileEntry → Type 0)
    (root : String) (asked : List String) (s : Browser)
    → Run lower given lists root asked s
    → ShowsListing lists s
Run-ShowsListing lower given lists _ _ _ (start {root} ok) =
    root-ShowsListing lists root (first_render root) (inl refl, λ _ _. tt)
Run-ShowsListing lower given lists _ _ _ (root_changes {before} {asked} {s} {root} ok run) =
    root-ShowsListing lists root s (Run-ShowsListing lower given lists before asked s run)
Run-ShowsListing lower given lists _ _ _ (loads {root} {asked} {s} path entries run has l) =
    loaded-ShowsListing lists s (Run-ShowsListing lower given lists root asked s run) path entries l
Run-ShowsListing lower given lists _ _ _ (fails {root} {asked} {s} path message run has) =
    failed-ShowsListing lists s (Run-ShowsListing lower given lists root asked s run) path message
Run-ShowsListing lower given lists _ _ _ (clicks {root} {asked} {s} file twice i run at) =
    click-ShowsListing lists s (Run-ShowsListing lower given lists root asked s run) file twice
      (shown_has lower s i file at)
Run-ShowsListing lower given lists _ _ _ (opens {root} {asked} {s} file i run at dir) =
    load_directory-ShowsListing lists s (Run-ShowsListing lower given lists root asked s run)
Run-ShowsListing lower given lists _ _ _ (goes_up {root} {asked} {s} run) =
    up-ShowsListing lists s (Run-ShowsListing lower given lists root asked s run) root
Run-ShowsListing lower given lists _ _ _ (goes_to_root {root} {asked} {s} run) =
    load_directory-ShowsListing lists s (Run-ShowsListing lower given lists root asked s run)
Run-ShowsListing lower given lists _ _ _ (goes_to {root} {asked} {s} n run) =
    load_directory-ShowsListing lists s (Run-ShowsListing lower given lists root asked s run)
Run-ShowsListing lower given lists _ _ _ (asks_delete {root} {asked} {s} file i run at) =
    Run-ShowsListing lower given lists root asked s run
Run-ShowsListing lower given lists _ _ _ (cancels_delete {root} {asked} {s} run) =
    Run-ShowsListing lower given lists root asked s run
Run-ShowsListing lower given lists _ _ _ (deletes {root} {asked} {s} path thrown run has) =
    delete-ShowsListing lists s (Run-ShowsListing lower given lists root asked s run) path thrown
Run-ShowsListing lower given lists _ _ _ (searches {root} {asked} {s} query run) =
    Run-ShowsListing lower given lists root asked s run
