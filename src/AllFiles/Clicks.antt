-- ===== src/AllFiles/Clicks.antt =====
-- App.tsx: what is open after a click in the view of all files, and what becomes of a file that is
-- starred there.
use mathlib.Core.Option
use wormhole.History.{ShareHistoryItem, ConnectionHistoryItem}
use wormhole.HistoryHook.{is_active, is_connected}
use wormhole.Sources.{SourceType, share, connection, is_valid_source, filter_if_changed-eq-filter}
use wormhole.FileBrowser.{FileEntry}
use wormhole.FileIndex.{IndexEntry}
use wormhole.Favorites.{
  FavoriteEntry, FavoriteFile, new_favorite, toggle_favorite, cleanup_favorites, is_favorite,
}
use wormhole.Session.{Session, SourceRef, source_or}
use wormhole.AllFiles.{
  RootFolder, share_folder, connection_folder, all_root_folders, handle_root_folder_click,
  handle_search_result_click, source_id_of, starred_file,
}
use wormhole.FileBrowser.Runs.{All-get_elem?}
use wormhole.Common.{
  ℕ, String, ◌≡◌, refl, ap, ◌∙◌, Bool, true, false, ◌||◌, none, some, List, [], ◌∷◌, eq_iff,
  eq_refl, arith, find, has_key, has, filter, get_elem?, All, All-append, All-filter, All-map,
  Distinct, Absent, find_index_of_Absent, Absent-of_has,
}

-- Where no key is twice, each record is what its key leads to.
find_self :
    {A : Type 0} (key : A → String) (xs : List A)
    → Distinct key xs
    → All (λ x. find (has_key key (key x)) xs ≡ some x) xs
find_self key [] h = tt
find_self {A} key (x ∷ xs) h =
    (ground (arith, eq_refl (key x)), further xs (find_self key xs h.1) h.0)
  where
    further :
        (ys : List A)
        → All (λ y. find (has_key key (key y)) xs ≡ some y) ys
        → Absent key (key x) ys
        → All (λ y. find (has_key key (key y)) (x ∷ xs) ≡ some y) ys
    further [] f a = tt
    further (y ∷ ys) f a = (ground (arith, eq_iff (key x) (key y), f.0, a.0), further ys f.1 a.1)

-- The folder is open with its own source.
abbrev pub Opens : Session → RootFolder → Type 0
Opens s folder =
    ((handle_root_folder_click folder s).current_folder ≡ folder.path)
    × ((handle_root_folder_click folder s).current_folder_source
        ≡ some (record { id = folder.id; source_type = folder.root_type }))

share_Opens :
    (s : Session) (t : ShareHistoryItem)
    → find (has_key (λ t. t.path) t.path) s.history.shares ≡ some t
    → Opens s (share_folder t)
unfolding handle_root_folder_click
share_Opens s t found = rw found (refl, refl)

connection_Opens :
    (s : Session) (c : ConnectionHistoryItem)
    → find (has_key (λ c. c.mount_point) c.mount_point) s.history.connections ≡ some c
    → Opens s (connection_folder c)
unfolding handle_root_folder_click
connection_Opens s c found = rw found (refl, refl)

-- A click on any of the listed root folders opens it with the share or connection that it belongs to
-- as its source, if no path of a share and no mount point is remembered twice.
pub handle_root_folder_click-Opens :
    (s : Session) (i : ℕ) (folder : RootFolder)
    → Distinct (λ t. t.path) s.history.shares
    → Distinct (λ c. c.mount_point) s.history.connections
    → get_elem? (all_root_folders s.history.shares s.history.connections) i ≡ some folder
    → Opens s folder
unfolding all_root_folders
handle_root_folder_click-Opens s i folder paths mounts =
    All-get_elem? (Opens s) (all_root_folders s.history.shares s.history.connections) i folder (
      All-append (Opens s) _ _
        (All-map _ (Opens s) share_folder _ (share_Opens s) (
          All-filter _ (λ t. is_active t.status) s.history.shares
            (find_self (λ t. t.path) s.history.shares paths)))
        (All-map _ (Opens s) connection_folder _ (connection_Opens s) (
          All-filter _ (λ c. is_connected c.status) s.history.connections
            (find_self (λ c. c.mount_point) s.history.connections mounts))))

has-filter :
    {A : Type 0} (key : A → String) (k : String) (p : A → Bool) (xs : List A)
    → has key k xs ≡ false
    → has key k (filter p xs) ≡ false
has-filter key k p [] h = refl
has-filter key k p (x ∷ xs) h = ground (arith, has-filter key k p xs)

no_source :
    {A : Type 0} (key : A → String) (k : String) (f : A → SourceRef) (xs : List A)
    → has key k xs ≡ false
    → source_or (Option.map f (find (has_key key k) xs)) none ≡ none
no_source key k f [] h = refl
no_source key k f (x ∷ xs) h = ground (arith, no_source key k f xs)

-- A folder among the search results that is no root opens without a source.
sourceless :
    (s : Session) (entry : IndexEntry) (r : SourceType)
    → entry.root_type ≡ r
    → s.current_folder_source ≡ none
    → entry.is_dir ≡ true
    → has (λ t. t.path) entry.path s.history.shares ≡ false
    → has (λ c. c.mount_point) entry.path s.history.connections ≡ false
    → ((handle_search_result_click entry s).current_folder_source ≡ none)
      × ((handle_search_result_click entry s).current_folder ≡ entry.path)
unfolding handle_search_result_click
sourceless s entry share e none_open dir no_share no_connection =
    rw (dir, e, none_open) (no_source (λ t. t.path) entry.path _ s.history.shares no_share, refl)
sourceless s entry connection e none_open dir no_share no_connection =
    rw (dir, e, none_open)
      (no_source (λ c. c.mount_point) entry.path _ s.history.connections no_connection, refl)

added :
    (file : FavoriteFile) (id : String) (now : ℕ) (favorites : List FavoriteEntry)
    → has (λ f. f.path) file.path favorites ≡ false
    → toggle_favorite file id now favorites ≡ new_favorite file id now ∷ favorites
unfolding toggle_favorite
added file id now favorites absent =
    rw
      (
        find_index_of_Absent (λ f. f.path) file.path favorites
            (Absent-of_has (λ f. f.path) file.path favorites absent),
        toggle_favorite,
      )
      refl

sourceless_lost :
    (file : FavoriteFile) (id : String) (now : ℕ) (favorites : List FavoriteEntry)
    (shares : List ShareHistoryItem) (connections : List ConnectionHistoryItem)
    → file.source_id ≡ ""
    → is_valid_source shares connections "" ≡ false
    → has (λ f. f.path) file.path favorites ≡ false
    → is_favorite
        (cleanup_favorites shares connections (toggle_favorite file id now favorites))
        file.path
      ≡ false
unfolding is_favorite cleanup_favorites
sourceless_lost file id now favorites shares connections lost nameless absent =
    let valid = λ (e : FavoriteEntry). is_valid_source shares connections e.source_id in
    ap (λ xs. has (λ f. f.path) file.path xs)
      (filter_if_changed-eq-filter valid _ ∙ ap (filter valid) (added file id now favorites absent))
    ∙ rw (lost, nameless) (has-filter (λ f. f.path) file.path valid favorites absent)

-- A file that is starred in a folder which was opened from the search results, and which is not itself
-- a share or a mount, becomes a favorite that belongs to no source, so the next clean-up takes it out.
-- No source was open before, the file was no favorite, and no share or connection that the clean-up
-- looks at has the empty identifier.
pub starred_file-cleanup :
    (s : Session) (entry : IndexEntry) (file : FileEntry) (id : String) (now : ℕ)
    (favorites : List FavoriteEntry) (shares : List ShareHistoryItem)
    (connections : List ConnectionHistoryItem)
    → s.current_folder_source ≡ none
    → entry.is_dir ≡ true
    → has (λ t. t.path) entry.path s.history.shares ≡ false
    → has (λ c. c.mount_point) entry.path s.history.connections ≡ false
    → is_valid_source shares connections "" ≡ false
    → is_favorite favorites file.path ≡ false
    → ((handle_search_result_click entry s).current_folder ≡ entry.path)
      × (is_favorite
            (toggle_favorite
              (starred_file (handle_search_result_click entry s) file)
              id
              now
              favorites)
            file.path
          ≡ true)
      × (is_favorite
            (cleanup_favorites shares connections (
              toggle_favorite
                (starred_file (handle_search_result_click entry s) file)
                id
                now
                favorites))
            file.path
          ≡ false)
unfolding is_favorite starred_file
starred_file-cleanup s entry file id now favorites shares connections none_open dir no_share
      no_connection nameless absent =
    let (lost, opened) =
      sourceless s entry entry.root_type refl none_open dir no_share no_connection in
    let starred = starred_file (handle_search_result_click entry s) file in
    (
      opened,
      ap (λ xs. has (λ f. f.path) file.path xs) (added starred id now favorites absent)
          ∙ ap (λ b. b || has (λ f. f.path) file.path favorites) (eq_refl file.path),
      sourceless_lost starred id now favorites shares connections (ap source_id_of lost) nameless
          absent,
    )
