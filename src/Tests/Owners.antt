-- ===== src/Tests/Owners.antt =====
-- An example on the indexes.
use terrakojo.Prelude.{◌≡◌, ◌↔◌, pos, [], ◌∷◌}
use terrakojo.Api.{Workflow, blank_meta}
use terrakojo.Owners.{index_by_owner_branch_uid, index_by_owner_repository_uid}
use terrakojo.Owners.Exact.{FirstController, index_exact}
use terrakojo.Tests.Fixtures.{feature, owner}

-- owned by a repository, and by no branch
abbrev stray : Workflow
stray = record {
  meta = record blank_meta { name = "w"; owner_references = owner ∷ [] };
  spec = record {
    owner = "o";
    repository = "repo";
    branch = "feature";
    sha = "c0ffee";
    template = "plan";
    path = ".";
    parameters = [];
  };
  status = record {
    conditions = [];
    phase = "";
    jobs = [];
    check_run_id = pos 0;
    check_run_name = "";
  };
}

index_exact_example :
    (index_by_owner_repository_uid feature ≡ "u1" ∷ []
      ↔ FirstController "Repository" (owner ∷ []) "u1")
    × (index_by_owner_branch_uid stray ≡ "u1" ∷ [] ↔ FirstController "Branch" (owner ∷ []) "u1")
index_exact_example = index_exact feature stray "u1"
