-- ===== src/Workflows/RuntimeEnv.antt =====
-- internal/controller/workflow_controller.go: the environment that every container of a job gets.
pub mod Merging
use terrakojo.Prelude.{
  String, Bool, false, ◌||◌, ◌==◌, List, [], ◌∷◌, ◌++◌, map, is_zero, if◌then◌else◌,
}
use terrakojo.Prelude.Dictionary.{at}
use terrakojo.Api.{Workflow, Branch}
use terrakojo.Api.Batch.{EnvVar, Container, JobSpec}
use terrakojo.Text.Decimal.{itoa}

abbrev var : String → String → EnvVar
var name value = record { name = name; value = value }

unfoldable pub reserved_runtime_env : Workflow → Branch → List EnvVar
unfolding at itoa
reserved_runtime_env workflow branch =
    var "TERRAKOJO_OWNER" workflow.spec.owner
    ∷ var "TERRAKOJO_REPOSITORY" workflow.spec.repository
    ∷ var "TERRAKOJO_WORKFLOW_NAME" workflow.meta.name
    ∷ var "TERRAKOJO_WORKFLOW_NAMESPACE" workflow.meta.namespace
    ∷ var "TERRAKOJO_WORKFLOW_TEMPLATE" workflow.spec.template
    ∷ var "TERRAKOJO_WORKFLOW_PATH" workflow.spec.path
    ∷ var "TERRAKOJO_SHA" workflow.spec.sha
    ∷ var "TERRAKOJO_BRANCH_RESOURCE" workflow.spec.branch
    ∷ var "TERRAKOJO_REF_NAME" branch.spec.name
    ∷ var "TERRAKOJO_PR_NUMBER"
        (if is_zero branch.spec.pr_number then "" else itoa branch.spec.pr_number)
    ∷ var "TERRAKOJO_EXECUTION_UNIT" (at "executionUnit" workflow.spec.parameters)
    ∷ var "TERRAKOJO_IS_DEFAULT_BRANCH" (at "isDefaultBranch" workflow.spec.parameters)
    ∷ []

-- whether a variable of the name is in the list
unfoldable pub has_var : String → List EnvVar → Bool
has_var name [] = false
has_var name (v ∷ vars) = v.name == name || has_var name vars

-- the variables whose names are not reserved
unfoldable pub without : List EnvVar → List EnvVar → List EnvVar
unfolding has_var
without reserved [] = []
without reserved (v ∷ existing) =
    let rest = without reserved existing in if has_var v.name reserved then rest else v ∷ rest

unfoldable pub merge_env_with_reserved : List EnvVar → List EnvVar → List EnvVar
unfolding without
merge_env_with_reserved existing reserved = without reserved existing ++ reserved

abbrev pub with_reserved : List EnvVar → Container → Container
with_reserved reserved c = record c { env = merge_env_with_reserved c.env reserved }

unfoldable pub inject_reserved_runtime_env : JobSpec → Workflow → Branch → JobSpec
unfolding reserved_runtime_env merge_env_with_reserved
inject_reserved_runtime_env spec workflow branch =
    let reserved = reserved_runtime_env workflow branch in
    record spec {
      pod_spec = record (spec.pod_spec) {
        containers = map (with_reserved reserved) spec.pod_spec.containers;
        init_containers = map (with_reserved reserved) spec.pod_spec.init_containers;
      };
    }
