-- ===== src/Sidebar.antt =====
-- The component `Sidebar` of apps/desktop/src/App.tsx: the views, the quick filters, the projects with the
-- prompt for a new one, and the running transfers.
pub mod Clicks
use wormhole.Texts.{trim}
use wormhole.Projects.{Project, new_project, create_project}
use wormhole.Session.{
  Session, NavigationView, all_files, shared_with_me, my_shares, recent, favorites, on_view_change,
}
use wormhole.AllFiles.{MediaFilter, all, media_eq}
use wormhole.Transfers.Sidebar.{SidebarTransfer}
use wormhole.Common.{
  ℕ, ◌+◌, ◌-◌, suc, zero, String, ◌≡◌, ◌≢◌, refl, Bool, true, false, Bool-cases, inl, inr, Option,
  none, some, List, [], ◌∷◌, ◌==◌, eq_iff, ltb, length, take, if◌then◌else◌, All, arith,
}

-- What the sidebar shows and changes.
pub record Sidebar : Type 0 where
  pub session : Session
  pub media_filter : MediaFilter
  pub projects : List Project

-- The entries with the numbers beside them; a number above 0 is shown.
pub record NavItem : Type 0 where
  pub id : NavigationView
  pub label : String
  pub count : ℕ

unfoldable pub main_nav_items : (share_count connection_count : ℕ) → List NavItem
main_nav_items share_count connection_count =
    record { id = all_files; label = "All Files"; count = 0 }
    ∷ record { id = my_shares; label = "My Shares"; count = share_count }
    ∷ record { id = shared_with_me; label = "Shared with Me"; count = connection_count }
    ∷ []

unfoldable pub library_items : (recent_count favorites_count : ℕ) → List NavItem
library_items recent_count favorites_count =
    record { id = recent; label = "Recent"; count = recent_count }
    ∷ record { id = favorites; label = "Favorites"; count = favorites_count }
    ∷ []

unfoldable pub view_clicked : NavigationView → Sidebar → Sidebar
unfolding on_view_change
view_clicked view s = record s { session = on_view_change view s.session }

-- A quick filter that is on is taken back.
unfoldable pub filter_clicked : MediaFilter → Sidebar → Sidebar
unfolding on_view_change
filter_clicked filter s = record s {
  media_filter = if media_eq s.media_filter filter then all else filter;
  session = on_view_change all_files s.session;
}

-- What `prompt` gives, with the identifier, the color and the time for `createProject`.
abbrev pub project_named : String → (id color : String) → ℕ → Sidebar → Sidebar
project_named name id color now s =
    if name == ""
    then s
    else record s { projects = (create_project (new_project name none id color now) s.projects).0 }

unfoldable pub create_clicked : Option String → (id color : String) → ℕ → Sidebar → Sidebar
unfolding create_project new_project
create_clicked none id color now s = s
create_clicked (some name) id color now s = project_named (trim name) id color now s

abbrev pub shown_projects : Sidebar → List Project
shown_projects s = take 5 s.projects

-- Three transfers are shown, and how many more there are.
abbrev pub shown_transfers : List SidebarTransfer → List SidebarTransfer
shown_transfers transfers = take 3 transfers

unfoldable pub more_transfers : List SidebarTransfer → Option ℕ
more_transfers transfers = if ltb 3 (length transfers) then some (length transfers - 3) else none
