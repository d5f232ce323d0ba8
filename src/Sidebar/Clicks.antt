-- ===== src/Sidebar/Clicks.antt =====
-- App.tsx: what every sequence of clicks in the sidebar keeps, and what it shows of the transfers.
use wormhole.Sidebar.{
  Sidebar, view_clicked, filter_clicked, project_named, create_clicked, shown_transfers,
  more_transfers,
}
use wormhole.Texts.{trim}
use wormhole.Projects.{new_project, create_project}
use wormhole.Session.{NavigationView}
use wormhole.AllFiles.{MediaFilter}
use wormhole.Transfers.Sidebar.{SidebarTransfer}
use wormhole.Common.{
  ℕ, ◌+◌, String, ◌≡◌, ◌≢◌, refl, Bool-cases, inl, inr, Option, none, some, List, [], ◌∷◌, ◌==◌,
  eq_iff, length, All, arith,
}

pub data Click : Type 0 where
  views : NavigationView → Click
  filters : MediaFilter → Click
  creates : Option String → (id color : String) → ℕ → Click

abbrev pub act : Click → Sidebar → Sidebar
act (views view) s = view_clicked view s
act (filters filter) s = filter_clicked filter s
act (creates name id color now) s = create_clicked name id color now s

abbrev pub run : List Click → Sidebar → Sidebar
run [] s = s
run (c ∷ clicks) s = run clicks (act c s)

abbrev HasNames : Sidebar → Type 0
HasNames s = All (λ p. p.name ≢ "") s.projects

project_named-HasNames :
    (name id color : String) (now : ℕ) (s : Sidebar)
    → HasNames s
    → HasNames (project_named name id color now s)
unfolding create_project new_project
project_named-HasNames name id color now s h = elim (Bool-cases (name == "")) [
  | inl e ↦ rw e h
  | inr e ↦ rw e (ground (arith, eq_iff name ""), h)
]

act-HasNames : (c : Click) (s : Sidebar) → HasNames s → HasNames (act c s)
unfolding view_clicked filter_clicked create_clicked
act-HasNames (views view) s h = h
act-HasNames (filters filter) s h = h
act-HasNames (creates none id color now) s h = h
act-HasNames (creates (some name) id color now) s h =
    project_named-HasNames (trim name) id color now s h

-- Whatever is clicked and entered, every project in the sidebar has a name, if each one had at first.
run-HasNames : (clicks : List Click) (s : Sidebar) → HasNames s → HasNames (run clicks s)
run-HasNames [] s h = h
run-HasNames (c ∷ clicks) s h = run-HasNames clicks (act c s) (act-HasNames c s h)

hidden : Option ℕ → ℕ
hidden none = 0
hidden (some n) = n

-- The transfers that are shown and the number of the others account for all of them.
shown_transfers-more :
    (transfers : List SidebarTransfer)
    → length (shown_transfers transfers) + hidden (more_transfers transfers) ≡ length transfers
unfolding more_transfers hidden
shown_transfers-more [] = refl
shown_transfers-more (a ∷ []) = refl
shown_transfers-more (a ∷ b ∷ []) = refl
shown_transfers-more (a ∷ b ∷ c ∷ []) = refl
shown_transfers-more (a ∷ b ∷ c ∷ d ∷ transfers) = ground arith
