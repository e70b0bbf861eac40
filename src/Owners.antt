-- ===== src/Owners.antt =====
-- internal/controller: the keys under which the manager indexes Workflow and Branch objects
-- (branch_controller.go, repository_controller.go).
pub mod Exact
use terrakojo.Prelude.{
  String, Bool, true, false, ◌&&◌, Option, none, some, List, [], ◌∷◌, ◌==◌, if◌then◌else◌,
}
use terrakojo.Api.{OwnerReference, Branch, Workflow}

abbrev pub is_true : Option Bool → Bool
is_true none = false
is_true (some b) = b

-- whether the reference is to a controller of the kind
abbrev pub controls : String → OwnerReference → Bool
controls kind ref = is_true ref.controller && ref.kind == kind

-- the loop of both index functions
unfoldable pub controller_uid : String → List OwnerReference → List String
controller_uid kind [] = []
controller_uid kind (ref ∷ refs) =
    let rest = controller_uid kind refs in if controls kind ref then ref.uid ∷ [] else rest

unfoldable pub index_by_owner_branch_uid : Workflow → List String
unfolding controller_uid
index_by_owner_branch_uid workflow = controller_uid "Branch" workflow.meta.owner_references

unfoldable pub index_by_owner_repository_uid : Branch → List String
unfolding controller_uid
index_by_owner_repository_uid branch = controller_uid "Repository" branch.meta.owner_references
