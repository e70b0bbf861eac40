-- ===== src/Control/Environment.antt =====
-- What the controllers use and do not implement: the API server, GitHub, the clock, and the library
-- functions of client-go, controller-runtime, apimachinery and doublestar. A field that takes the calls is the
-- answer to the newest of them.
use terrakojo.Prelude.{ℕ, ℤ, String, Bool, Option, List}
use terrakojo.Api.{
  ObjectMeta, OwnerReference, Condition, Repository, Branch, Workflow, WorkflowTemplate, Job,
  Secret,
}
use terrakojo.Api.Github.{Commit, GithubBranch, PullRequest, CompareResult}
use terrakojo.Control.Errors.{Error, Result}
use terrakojo.Control.Calls.{Call, GithubClient}

pub record Env : Type 0 where
  -- objects that the API server returns; for an update, the object that the caller then holds
  pub repository : List Call → Result Repository
  pub branch : List Call → Result Branch
  pub workflow : List Call → Result Workflow
  pub workflow_template : List Call → Result WorkflowTemplate
  pub job : List Call → Result Job
  pub secret : List Call → Result Secret
  pub repositories : List Call → Result (List Repository)
  pub branches : List Call → Result (List Branch)
  pub workflows : List Call → Result (List Workflow)
  pub workflow_templates : List Call → Result (List WorkflowTemplate)
  -- success or failure of a call that returns no object
  pub done : List Call → Result (Unit {0})
  -- GitHub, through a client
  pub github_client : List Call → Result GithubClient
  pub changed_files : List Call → Result (List String)
  pub commit : List Call → Result Commit
  pub github_branch : List Call → Result (Option GithubBranch)
  pub github_branches : List Call → Result (List (Option GithubBranch))
  pub pull_requests : List Call → Result (List (Option PullRequest))
  pub comparison : List Call → Result CompareResult
  pub check_run_id : List Call → Result ℤ
  -- the clock, and fresh identifiers
  pub now : List Call → ℕ
  pub new_uuid : List Call → String
  -- k8s.io/apimachinery: errors and conditions
  pub error_text : Error → String
  pub is_not_found : Error → Bool
  pub is_already_exists : Error → Bool
  pub is_invalid : Error → Bool
  pub is_forbidden : Error → Bool
  pub set_status_condition : ℕ → List Condition → Condition → List Condition × Bool
  pub get_controller_of : ObjectMeta → Option OwnerReference
  -- controller-runtime's controllerutil, on the metadata of an object
  pub contains_finalizer : ObjectMeta → String → Bool
  pub add_finalizer : ObjectMeta → String → ObjectMeta
  pub remove_finalizer : ObjectMeta → String → ObjectMeta
  -- the owner's kind and metadata, and the metadata of the object that gets the reference
  pub set_controller_reference : String → ObjectMeta → ObjectMeta → Result ObjectMeta
  -- client-go's `retry.RetryOnConflict(retry.DefaultRetry, …)`
  pub retry_on_conflict :
      (List Call → Result (Unit {0}) × List Call) → List Call → Result (Unit {0}) × List Call
  -- doublestar's `Match` of a pattern and a name; false where the pattern is malformed
  pub matches : String → String → Bool
  -- the hexadecimal SHA-256 digest of a text
  pub sha256_hex : String → String
