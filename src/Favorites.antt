-- ===== src/Favorites.antt =====
-- apps/desktop/src/types/favorites.ts and apps/desktop/src/hooks/useFavorites.ts: the starred files,
-- as the state of a hook. Fresh identifiers and readings of the clock are arguments.
pub mod Membership
use wormhole.History.{ShareHistoryItem, ConnectionHistoryItem}
use wormhole.Storage.{LocalStorage, Json, load_json, save_json}
use wormhole.Sources.{SourceType, is_valid_source, filter_if_changed}
use wormhole.Common.{
  ℕ, String, Bool, Option, none, some, List, [], ◌∷◌, if◌then◌else◌, find, find_index, erase_idx,
  has_key, remove_where, has,
}

pub record FavoriteEntry : Type 0 where
  pub id : String
  pub path : String
  pub name : String
  pub source_id : String
  pub source_type : SourceType
  pub added_at : ℕ
  pub is_dir : Bool
  pub size : Option ℕ

-- `Omit<FavoriteEntry, "id" | "addedAt">`
pub record FavoriteFile : Type 0 where
  pub path : String
  pub name : String
  pub source_id : String
  pub source_type : SourceType
  pub is_dir : Bool
  pub size : Option ℕ

abbrev pub favorites_storage_key : String
favorites_storage_key = "wormhole_favorites"

module _ {Text : Type 0} (storage : LocalStorage Text) (json : Json Text (List FavoriteEntry)) where
  open storage use {Store}

  unfoldable pub load_favorites : Store → List FavoriteEntry
  load_favorites s = load_json storage json favorites_storage_key s []

  unfoldable pub save_favorites : Store → List FavoriteEntry → Store
  save_favorites = save_json storage json favorites_storage_key

-- The effect on a change of the shares or connections: entries of removed sources go.
unfoldable pub cleanup_favorites :
    List ShareHistoryItem → List ConnectionHistoryItem → List FavoriteEntry → List FavoriteEntry
cleanup_favorites shares connections =
    filter_if_changed (λ e. is_valid_source shares connections e.source_id)

-- `{ ...file, id: generateFavoriteId(), addedAt: Date.now() }`
abbrev pub new_favorite : FavoriteFile → String → ℕ → FavoriteEntry
new_favorite file id now = record {
  id = id;
  path = file.path;
  name = file.name;
  source_id = file.source_id;
  source_type = file.source_type;
  added_at = now;
  is_dir = file.is_dir;
  size = file.size;
}

unfoldable pub add_favorite : FavoriteFile → String → ℕ → List FavoriteEntry → List FavoriteEntry
add_favorite file id now prev =
    if has (λ f. f.path) file.path prev then prev else new_favorite file id now ∷ prev

unfoldable pub remove_favorite : String → List FavoriteEntry → List FavoriteEntry
remove_favorite = remove_where (λ f. f.id)

-- The first entry of the path goes; without one, a new entry goes to the front.
unfoldable pub toggle_favorite : FavoriteFile → String → ℕ → List FavoriteEntry → List FavoriteEntry
toggle_favorite file id now prev = elim (find_index (has_key (λ f. f.path) file.path) prev) [
  | none ↦ new_favorite file id now ∷ prev
  | some i ↦ erase_idx prev i
]

unfoldable pub clear_favorites : List FavoriteEntry → List FavoriteEntry
clear_favorites prev = []

unfoldable pub is_favorite : List FavoriteEntry → String → Bool
is_favorite favorites path = has (λ f. f.path) path favorites

unfoldable pub get_favorite_by_path : List FavoriteEntry → String → Option FavoriteEntry
get_favorite_by_path favorites path = find (has_key (λ f. f.path) path) favorites
