-- ===== src/Control/Calls.antt =====
-- The calls that the controllers make. A call of GitHub names the client that it goes through.
use terrakojo.Prelude.{ℕ, ℤ, String, List}
use terrakojo.Prelude.Dictionary.{Dictionary}
use terrakojo.Api.{ObjectKey, Repository, Branch, Workflow, Job}

-- a handle on a GitHub client with its credentials
abbrev pub GithubClient : Type 0
GithubClient = ℕ

pub data Call : Type 0 where
  get_repository : ObjectKey → Call
  get_branch : ObjectKey → Call
  get_workflow : ObjectKey → Call
  get_workflow_template : ObjectKey → Call
  get_job : ObjectKey → Call
  get_secret : ObjectKey → Call
  -- by namespace and the UID of the controlling object
  list_branches : String → String → Call
  list_workflows : String → String → Call
  -- by namespace
  list_workflow_templates : String → Call
  -- by namespace, if one is given, and labels
  list_repositories : List String → Dictionary String → Call
  update_repository : Repository → Call
  update_branch : Branch → Call
  update_workflow : Workflow → Call
  update_repository_status : Repository → Call
  update_branch_status : Branch → Call
  update_workflow_status : Workflow → Call
  create_branch : Branch → Call
  create_workflow : Workflow → Call
  create_job : Job → Call
  delete_branch : ObjectKey → Call
  delete_workflow : ObjectKey → Call
  client_for_repository : Repository → Call
  client_for_branch : Branch → Call
  -- client, owner, repository, and what is asked for
  get_changed_files : GithubClient → String → String → ℤ → Call
  get_changed_files_for_commit : GithubClient → String → String → String → Call
  get_commit : GithubClient → String → String → String → Call
  get_github_branch : GithubClient → String → String → String → Call
  list_github_branches : GithubClient → String → String → Call
  list_open_pull_requests : GithubClient → String → String → Call
  -- base and head
  compare_commits : GithubClient → String → String → String → String → Call
  -- commit and name
  create_check_run : GithubClient → String → String → String → String → Call
  -- number, name, status and conclusion
  update_check_run : GithubClient → String → String → ℤ → String → String → String → Call
