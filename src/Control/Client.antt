-- ===== src/Control/Client.antt =====
-- The operations of `client.Client`, of `GitHubClientManagerInterface` and of `ClientInterface`, each
-- one call.
use terrakojo.Prelude.{ℤ, String, Option, List}
use terrakojo.Prelude.Dictionary.{Dictionary}
use terrakojo.Api.{ObjectKey, Repository, Branch, Workflow, WorkflowTemplate, Job, Secret}
use terrakojo.Api.Github.{Commit, GithubBranch, PullRequest, CompareResult}
use terrakojo.Control.Calls.{Call, GithubClient}
use terrakojo.Control.{Ctl, ask}

unfoldable pub get_repository : ObjectKey → Ctl Repository
unfolding ask
get_repository key = ask (Call.get_repository key) (λ env. env.repository)

unfoldable pub get_branch : ObjectKey → Ctl Branch
unfolding ask
get_branch key = ask (Call.get_branch key) (λ env. env.branch)

unfoldable pub get_workflow : ObjectKey → Ctl Workflow
unfolding ask
get_workflow key = ask (Call.get_workflow key) (λ env. env.workflow)

unfoldable pub get_workflow_template : ObjectKey → Ctl WorkflowTemplate
unfolding ask
get_workflow_template key = ask (Call.get_workflow_template key) (λ env. env.workflow_template)

unfoldable pub get_job : ObjectKey → Ctl Job
unfolding ask
get_job key = ask (Call.get_job key) (λ env. env.job)

unfoldable pub get_secret : ObjectKey → Ctl Secret
unfolding ask
get_secret key = ask (Call.get_secret key) (λ env. env.secret)

-- in the namespaces, or in all if there is none, with the labels
unfoldable pub list_repositories : List String → Dictionary String → Ctl (List Repository)
unfolding ask
list_repositories namespaces labels =
    ask (Call.list_repositories namespaces labels) (λ env. env.repositories)

unfoldable pub list_branches : String → String → Ctl (List Branch)
unfolding ask
list_branches namespace uid = ask (Call.list_branches namespace uid) (λ env. env.branches)

unfoldable pub list_workflows : String → String → Ctl (List Workflow)
unfolding ask
list_workflows namespace uid = ask (Call.list_workflows namespace uid) (λ env. env.workflows)

unfoldable pub list_workflow_templates : String → Ctl (List WorkflowTemplate)
unfolding ask
list_workflow_templates namespace =
    ask (Call.list_workflow_templates namespace) (λ env. env.workflow_templates)

unfoldable pub update_repository : Repository → Ctl Repository
unfolding ask
update_repository repo = ask (Call.update_repository repo) (λ env. env.repository)

unfoldable pub update_branch : Branch → Ctl Branch
unfolding ask
update_branch branch = ask (Call.update_branch branch) (λ env. env.branch)

unfoldable pub update_workflow : Workflow → Ctl Workflow
unfolding ask
update_workflow workflow = ask (Call.update_workflow workflow) (λ env. env.workflow)

unfoldable pub update_repository_status : Repository → Ctl Repository
unfolding ask
update_repository_status repo = ask (Call.update_repository_status repo) (λ env. env.repository)

unfoldable pub update_branch_status : Branch → Ctl Branch
unfolding ask
update_branch_status branch = ask (Call.update_branch_status branch) (λ env. env.branch)

unfoldable pub update_workflow_status : Workflow → Ctl Workflow
unfolding ask
update_workflow_status workflow = ask (Call.update_workflow_status workflow) (λ env. env.workflow)

unfoldable pub create_branch : Branch → Ctl Branch
unfolding ask
create_branch branch = ask (Call.create_branch branch) (λ env. env.branch)

unfoldable pub create_workflow : Workflow → Ctl Workflow
unfolding ask
create_workflow workflow = ask (Call.create_workflow workflow) (λ env. env.workflow)

unfoldable pub create_job : Job → Ctl Job
unfolding ask
create_job job = ask (Call.create_job job) (λ env. env.job)

unfoldable pub delete_branch : ObjectKey → Ctl (Unit {0})
unfolding ask
delete_branch key = ask (Call.delete_branch key) (λ env. env.done)

unfoldable pub delete_workflow : ObjectKey → Ctl (Unit {0})
unfolding ask
delete_workflow key = ask (Call.delete_workflow key) (λ env. env.done)

unfoldable pub client_for_repository : Repository → Ctl GithubClient
unfolding ask
client_for_repository repo = ask (Call.client_for_repository repo) (λ env. env.github_client)

unfoldable pub client_for_branch : Branch → Ctl GithubClient
unfolding ask
client_for_branch branch = ask (Call.client_for_branch branch) (λ env. env.github_client)

unfoldable pub get_changed_files : GithubClient → String → String → ℤ → Ctl (List String)
unfolding ask
get_changed_files gh owner repo number =
    ask (Call.get_changed_files gh owner repo number) (λ env. env.changed_files)

unfoldable pub get_changed_files_for_commit :
    GithubClient → String → String → String → Ctl (List String)
unfolding ask
get_changed_files_for_commit gh owner repo sha =
    ask (Call.get_changed_files_for_commit gh owner repo sha) (λ env. env.changed_files)

unfoldable pub get_commit : GithubClient → String → String → String → Ctl Commit
unfolding ask
get_commit gh owner repo sha = ask (Call.get_commit gh owner repo sha) (λ env. env.commit)

unfoldable pub get_github_branch :
    GithubClient → String → String → String → Ctl (Option GithubBranch)
unfolding ask
get_github_branch gh owner repo name =
    ask (Call.get_github_branch gh owner repo name) (λ env. env.github_branch)

unfoldable pub list_github_branches :
    GithubClient → String → String → Ctl (List (Option GithubBranch))
unfolding ask
list_github_branches gh owner repo =
    ask (Call.list_github_branches gh owner repo) (λ env. env.github_branches)

unfoldable pub list_open_pull_requests :
    GithubClient → String → String → Ctl (List (Option PullRequest))
unfolding ask
list_open_pull_requests gh owner repo =
    ask (Call.list_open_pull_requests gh owner repo) (λ env. env.pull_requests)

unfoldable pub compare_commits :
    GithubClient → String → String → String → String → Ctl CompareResult
unfolding ask
compare_commits gh owner repo base head =
    ask (Call.compare_commits gh owner repo base head) (λ env. env.comparison)

unfoldable pub create_check_run : GithubClient → String → String → String → String → Ctl ℤ
unfolding ask
create_check_run gh owner repo sha name =
    ask (Call.create_check_run gh owner repo sha name) (λ env. env.check_run_id)

unfoldable pub update_check_run :
    GithubClient → String → String → ℤ → String → String → String → Ctl (Unit {0})
unfolding ask
update_check_run gh owner repo id name status conclusion =
    ask (Call.update_check_run gh owner repo id name status conclusion) (λ env. env.done)
