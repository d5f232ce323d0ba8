-- ===== src/Projects/Members.antt =====
-- useProjects.ts: which shares and connections are in which projects.
use wormhole.Projects.{
  Project, includes, project_changes, cleanup_project, cleanup_projects, add_share_in,
  add_share_to_project, remove_share_from_project, get_project_by_id, valid_shares,
  valid_connections,
}
use wormhole.History.{ShareHistoryItem, ConnectionHistoryItem}
use mathlib.Core.Path.{ap₂}
use wormhole.Common.{
  String, ◌≡◌, refl, sym, ap, ◌∙◌, inl, inr, Bool, false, not, ◌&&◌, ◌||◌, none, some, List, [],
  ◌∷◌, ◌++◌, map, arith, ◌==◌, eq_iff, Bool-cases, is_some, filter, any, filter_of_length, has,
}

-- Whether the project of the identifier is there and lists the share.
abbrev pub in_project : List Project → String → String → Bool
in_project projects project_id share_id = elim (get_project_by_id projects project_id) [
  | none ↦ false
  | some p ↦ includes p.share_ids share_id
]

includes-append :
    (xs : List String) (x y : String) → includes (xs ++ x ∷ []) y ≡ (includes xs y || x == y)
includes-append [] x y = ground arith
includes-append (z ∷ xs) x y = ground (arith, includes-append xs x y)

includes-filter :
    (xs : List String) (x y : String)
    → includes (filter (λ id. not (id == x)) xs) y ≡ (includes xs y && not (x == y))
includes-filter [] x y = refl
includes-filter (z ∷ xs) x y =
    ground (arith, eq_iff z x, eq_iff z y, eq_iff x y, includes-filter xs x y)

-- Adding a share to a project that is there puts that share into that project, and changes the
-- membership of no other share and of no other project.
in_project-add_share_to_project :
    (project_id share_id k s : String) (projects : List Project)
    → in_project (add_share_to_project project_id share_id projects) k s ≡ (
        in_project projects k s
        || (project_id == k && share_id == s && is_some (get_project_by_id projects project_id)))
unfolding add_share_to_project add_share_in get_project_by_id
in_project-add_share_to_project project_id share_id k s [] = ground arith
in_project-add_share_to_project project_id share_id k s (p ∷ projects) = ground (
  arith,
  eq_iff p.id project_id,
  eq_iff p.id k,
  eq_iff project_id k,
  eq_iff share_id s,
  includes-append p.share_ids share_id s,
  in_project-add_share_to_project project_id share_id k s projects,
)

-- Removing a share from a project takes that share out of that project, and changes the membership
-- of no other share and of no other project.
in_project-remove_share_from_project :
    (project_id share_id k s : String) (projects : List Project)
    → in_project (remove_share_from_project project_id share_id projects) k s
      ≡ (in_project projects k s && not (project_id == k && share_id == s))
unfolding remove_share_from_project get_project_by_id
in_project-remove_share_from_project project_id share_id k s [] = refl
in_project-remove_share_from_project project_id share_id k s (p ∷ projects) = ground (
  arith,
  eq_iff p.id project_id,
  eq_iff p.id k,
  eq_iff project_id k,
  includes-filter p.share_ids share_id s,
  in_project-remove_share_from_project project_id share_id k s projects,
)

cleaned : List ShareHistoryItem → List ConnectionHistoryItem → Project → Project
cleaned shares connections p = record p {
  share_ids = valid_shares shares p;
  connection_ids = valid_connections connections p;
}

cleanup_project-cleaned :
    (shares : List ShareHistoryItem) (connections : List ConnectionHistoryItem) (p : Project)
    → cleanup_project shares connections p ≡ cleaned shares connections p
unfolding cleanup_project project_changes cleaned
cleanup_project-cleaned shares connections p = ground (
  arith,
  filter_of_length (λ id. has (λ s. s.id) id shares) p.share_ids,
  filter_of_length (λ id. has (λ c. c.id) id connections) p.connection_ids,
)

map-cleanup_project :
    (shares : List ShareHistoryItem) (connections : List ConnectionHistoryItem) (ps : List Project)
    → map (cleanup_project shares connections) ps ≡ map (cleaned shares connections) ps
map-cleanup_project shares connections [] = refl
map-cleanup_project shares connections (p ∷ ps) =
    ap₂ ◌∷◌ (cleanup_project-cleaned shares connections p)
      (map-cleanup_project shares connections ps)

cleanup_project_unchanged :
    (shares : List ShareHistoryItem) (connections : List ConnectionHistoryItem) (p : Project)
    → project_changes shares connections p ≡ false
    → cleanup_project shares connections p ≡ p
unfolding cleanup_project
cleanup_project_unchanged shares connections p e = rw e refl

unchanged :
    (shares : List ShareHistoryItem) (connections : List ConnectionHistoryItem) (ps : List Project)
    → any (project_changes shares connections) ps ≡ false
    → map (cleanup_project shares connections) ps ≡ ps
unchanged shares connections [] h = refl
unchanged shares connections (p ∷ ps) h =
    ap₂ ◌∷◌ (cleanup_project_unchanged shares connections p (ground arith))
      (unchanged shares connections ps (ground arith))

cleanup_projects-eq-map :
    (shares : List ShareHistoryItem) (connections : List ConnectionHistoryItem) (ps : List Project)
    → cleanup_projects shares connections ps ≡ map (cleaned shares connections) ps
unfolding cleanup_projects
cleanup_projects-eq-map shares connections ps =
    elim (Bool-cases (any (project_changes shares connections) ps)) [
      | inl e ↦ rw e (map-cleanup_project shares connections ps)
      | inr e ↦
          rw e (sym (unchanged shares connections ps e) ∙ map-cleanup_project shares connections ps)
    ]

includes-filter_has :
    (p : String → Bool) (xs : List String) (y : String)
    → includes (filter p xs) y ≡ (includes xs y && p y)
includes-filter_has p [] y = refl
includes-filter_has p (z ∷ xs) y = ground (arith, eq_iff z y, ap p, includes-filter_has p xs y)

in_project-map-cleaned :
    (shares : List ShareHistoryItem) (connections : List ConnectionHistoryItem) (k s : String)
    (ps : List Project)
    → in_project (map (cleaned shares connections) ps) k s
      ≡ (in_project ps k s && has (λ t. t.id) s shares)
unfolding get_project_by_id cleaned
in_project-map-cleaned shares connections k s [] = refl
in_project-map-cleaned shares connections k s (p ∷ ps) = ground (
  arith,
  eq_iff p.id k,
  includes-filter_has (λ id. has (λ t. t.id) id shares) p.share_ids s,
  in_project-map-cleaned shares connections k s ps,
)

-- After the clean-up a share is in a project exactly if it was and is still in the history.
pub in_project-cleanup_projects :
    (shares : List ShareHistoryItem) (connections : List ConnectionHistoryItem) (k s : String)
    (ps : List Project)
    → in_project (cleanup_projects shares connections ps) k s
      ≡ (in_project ps k s && has (λ t. t.id) s shares)
in_project-cleanup_projects shares connections k s ps =
    rw (cleanup_projects-eq-map shares connections ps)
      (in_project-map-cleaned shares connections k s ps)
