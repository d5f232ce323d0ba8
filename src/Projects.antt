-- ===== src/Projects.antt =====
-- apps/desktop/src/types/projects.ts and apps/desktop/src/hooks/useProjects.ts: groups of shares and
-- connections, as the state of a hook. Fresh identifiers, random colors and readings of the clock
-- are arguments.
pub mod Members
use wormhole.History.{ShareHistoryItem, ConnectionHistoryItem}
use wormhole.Storage.{LocalStorage, Json, load_json, save_json}
use wormhole.Common.{
  ℕ, String, Bool, not, ◌&&◌, ◌||◌, Option, none, some, List, [], ◌∷◌, ◌++◌, map, ◌==◌, nat_eq,
  if◌then◌else◌, option_or_default, overwrite, length, filter, any, find, get_elem?, has_key,
  update_where, remove_where, has,
}

pub record Project : Type 0 where
  pub id : String
  pub name : String
  pub share_ids : List String
  pub connection_ids : List String
  pub created_at : ℕ
  pub color : Option String

-- `Partial<Omit<Project, "id">>`
pub record ProjectPatch : Type 0 where
  pub name : Option String
  pub share_ids : Option (List String)
  pub connection_ids : Option (List String)
  pub created_at : Option ℕ
  pub color : Option (Option String)

abbrev pub projects_storage_key : String
projects_storage_key = "wormhole_projects"

abbrev pub project_colors : List String
project_colors =
    "#355E3B" ∷ "#3B82F6" ∷ "#10B981" ∷ "#F59E0B" ∷ "#EF4444" ∷ "#EC4899" ∷ "#06B6D4" ∷ "#4A7C59"
    ∷ []

-- `Math.floor(Math.random() * n)` is a random index below `n`, given here.
unfoldable pub get_random_project_color : ℕ → Option String
get_random_project_color index = get_elem? project_colors index

module _ {Text : Type 0} (storage : LocalStorage Text) (json : Json Text (List Project)) where
  open storage use {Store}

  unfoldable pub load_projects : Store → List Project
  load_projects s = load_json storage json projects_storage_key s []

  unfoldable pub save_projects : Store → List Project → Store
  save_projects = save_json storage json projects_storage_key

-- `ids.includes(id)`
abbrev pub includes : List String → String → Bool
includes ids id = any (λ i. i == id) ids

abbrev pub valid_shares : List ShareHistoryItem → Project → List String
valid_shares shares p = filter (λ id. has (λ s. s.id) id shares) p.share_ids

abbrev pub valid_connections : List ConnectionHistoryItem → Project → List String
valid_connections connections p = filter (λ id. has (λ c. c.id) id connections) p.connection_ids

-- Whether a clean-up of a project removes something.
unfoldable pub project_changes : List ShareHistoryItem → List ConnectionHistoryItem → Project → Bool
project_changes shares connections p =
    not (nat_eq (length (valid_shares shares p)) (length p.share_ids))
    || not (nat_eq (length (valid_connections connections p)) (length p.connection_ids))

unfoldable pub cleanup_project :
    List ShareHistoryItem → List ConnectionHistoryItem → Project → Project
cleanup_project shares connections p =
    if project_changes shares connections p
    then record p {
      share_ids = valid_shares shares p;
      connection_ids = valid_connections connections p;
    }
    else p

-- The effect on a change of the shares or connections; `prev` is kept if no project changed.
unfoldable pub cleanup_projects :
    List ShareHistoryItem → List ConnectionHistoryItem → List Project → List Project
cleanup_projects shares connections prev =
    if any (project_changes shares connections) prev
    then map (cleanup_project shares connections) prev
    else prev

-- `color || getRandomProjectColor()`
unfoldable pub new_project :
    (name : String) (color : Option String) (id random_color : String) → ℕ → Project
new_project name color id random_color now = record {
  id = id;
  name = name;
  share_ids = [];
  connection_ids = [];
  created_at = now;
  color = some (option_or_default color random_color);
}

unfoldable pub create_project : Project → List Project → List Project × Project
create_project project prev = (project ∷ prev, project)

unfoldable pub patch_project : ProjectPatch → Project → Project
patch_project u p = record {
  id = p.id;
  name = overwrite u.name p.name;
  share_ids = overwrite u.share_ids p.share_ids;
  connection_ids = overwrite u.connection_ids p.connection_ids;
  created_at = overwrite u.created_at p.created_at;
  color = overwrite u.color p.color;
}

unfoldable pub update_project : String → ProjectPatch → List Project → List Project
update_project id updates = update_where (λ p. p.id) id (patch_project updates)

unfoldable pub delete_project : String → List Project → List Project
delete_project = remove_where (λ p. p.id)

unfoldable pub rename_project : String → String → List Project → List Project
rename_project id name = update_where (λ p. p.id) id (λ p. record p { name = name })

-- One round of `prev.map` in `addShareToProject`.
unfoldable pub add_share_in : String → String → Project → Project
add_share_in project_id share_id p =
    if p.id == project_id && not (includes p.share_ids share_id)
    then record p { share_ids = p.share_ids ++ share_id ∷ [] }
    else p

unfoldable pub add_share_to_project : String → String → List Project → List Project
add_share_to_project project_id share_id = map (add_share_in project_id share_id)

unfoldable pub remove_share_from_project : String → String → List Project → List Project
remove_share_from_project project_id share_id =
    update_where (λ p. p.id) project_id
      (λ p. record p { share_ids = filter (λ id. not (id == share_id)) p.share_ids })

unfoldable pub add_connection_in : String → String → Project → Project
add_connection_in project_id connection_id p =
    if p.id == project_id && not (includes p.connection_ids connection_id)
    then record p { connection_ids = p.connection_ids ++ connection_id ∷ [] }
    else p

unfoldable pub add_connection_to_project : String → String → List Project → List Project
add_connection_to_project project_id connection_id =
    map (add_connection_in project_id connection_id)

unfoldable pub remove_connection_from_project : String → String → List Project → List Project
remove_connection_from_project project_id connection_id =
    update_where (λ p. p.id) project_id
      (λ p. record p { connection_ids = filter (λ id. not (id == connection_id)) p.connection_ids })

unfoldable pub get_project_by_id : List Project → String → Option Project
get_project_by_id projects id = find (has_key (λ p. p.id) id) projects

unfoldable pub get_project_for_share : List Project → String → Option Project
get_project_for_share projects share_id = find (λ p. includes p.share_ids share_id) projects

unfoldable pub get_project_for_connection : List Project → String → Option Project
get_project_for_connection projects connection_id =
    find (λ p. includes p.connection_ids connection_id) projects

unfoldable pub get_shares_in_project :
    List Project → String → List ShareHistoryItem → List ShareHistoryItem
get_shares_in_project projects project_id all_shares =
    elim (find (has_key (λ p. p.id) project_id) projects) [
      | none ↦ []
      | some project ↦ filter (λ s. includes project.share_ids s.id) all_shares
    ]

unfoldable pub get_connections_in_project :
    List Project → String → List ConnectionHistoryItem → List ConnectionHistoryItem
get_connections_in_project projects project_id all_connections =
    elim (find (has_key (λ p. p.id) project_id) projects) [
      | none ↦ []
      | some project ↦ filter (λ c. includes project.connection_ids c.id) all_connections
    ]
