-- ===== src/Tests/ProjectTests.antt =====
-- Projects on small inputs.
use wormhole.Projects.{
  Project, add_share_in, add_share_to_project, cleanup_projects, project_changes, cleanup_project,
  get_shares_in_project,
}
use wormhole.Projects.Members.{in_project, in_project-cleanup_projects}
use wormhole.Tests.Data.{docs, music}
use wormhole.Common.{◌≡◌, refl, ◌&&◌, some, List, [], ◌∷◌, has}

abbrev film : Project
film = record {
  id = "p1";
  name = "film";
  share_ids = "s1" ∷ "gone" ∷ [];
  connection_ids = [];
  created_at = 1;
  color = some "#355E3B";
}

abbrev board : List Project
board = film ∷ []

shares_found :
    get_shares_in_project (add_share_to_project "p1" "s2" board) "p1" (music ∷ docs ∷ [])
    ≡ music ∷ docs ∷ []
unfolding get_shares_in_project add_share_to_project add_share_in
shares_found = refl

cleaned : cleanup_projects (docs ∷ []) [] board ≡ record film { share_ids = "s1" ∷ [] } ∷ []
unfolding cleanup_projects project_changes cleanup_project
cleaned = refl

in_project-cleanup_projects_example :
    in_project (cleanup_projects (docs ∷ []) [] board) "p1" "gone"
    ≡ (in_project board "p1" "gone" && has (λ t. t.id) "gone" (docs ∷ []))
in_project-cleanup_projects_example = in_project-cleanup_projects (docs ∷ []) [] "p1" "gone" board
