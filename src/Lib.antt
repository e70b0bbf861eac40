-- ===== src/Lib.antt =====
-- A model of terrakojo, a Kubernetes operator that runs Terraform jobs for the branches of GitHub
-- repositories, and of what its reconcilers, its webhook and its clients guarantee.
--
-- A Repository object is synced with GitHub: for each head (a branch or an open pull request), and
-- for each new commit of the default branch, there is a Branch object. A Branch is reconciled once for each commit:
-- the changed files are matched against the WorkflowTemplates, and each match gives Workflow objects, one for
-- each target. A Workflow runs one Job and reports its phase to GitHub as a check run. Finalizers
-- make the deletion of an object wait for what it owns.
--
-- Parts:
--   Api            api/v1alpha1/*_types.go, and the fields of Kubernetes' and go-github's types that
--                  the code uses (Api.Batch, Api.Github)
--   Branches       internal/controller/branch_controller.go: `reconcile` is Reconcile, which is taken
--                  apart at its branches; Branches.Targets is matchTemplates and workflowTargets
--   Conditions     setCondition, which the branch and the workflow reconcilers share
--   Workflows      internal/controller/workflow_controller.go; Workflows.Phases is
--                  determineWorkflowPhase and checkRunStatus, Workflows.Ordering what must come before
--                  each call of a reconcile, Workflows.RuntimeEnv the reserved variables,
--                  Workflows.JobDefaults applyJobDefaults
--   Repositories   internal/controller/repository_controller.go; Repositories.Bootstrap is the
--                  cutover of the default branch, Repositories.Requests the steps that a request
--                  goes through, Repositories.Outcome what one sync makes of the object, Repositories.Heads syncBranchHeads and its helpers, Repositories.Idle the
--                  state in which a sync has nothing to do
--   Owners         the index functions of the branch and the repository reconciler
--   Sync           internal/repository/sync: the snapshot of GitHub's heads and the new commits;
--                  Sync.Latest is which head a key has, written independently of the code
--   Github         internal/github/client.go: how a client is made; Github.Paging is the loop over pages
--                  that GetChangedFiles, ListBranches and ListOpenPullRequests each write out,
--                  Github.Operations the methods of Client
--   Kubernetes     internal/kubernetes: GetClientForRepository and GetClientForBranch, with
--                  findRepositoryForBranch and parseCredentialsFromSecret; Kubernetes.Lookups is what is read
--                  for the client of a Branch
--   Webhook        internal/webhook/webhook.go and internal/github/parser.go: `serve_http` is ServeHTTP, a
--                  response together with what is done after it
--   Config         internal/config/config.go
--   Programs       cmd/main.go with SetupWithManager of the reconcilers, and cmd/server/main.go with NewClient
--                  and NewHandler: each a sequence of steps, of which each may fail
--   Control        how a reconciler runs: a function from an environment and the calls made so far
--                  to a result or an error and the calls then made, the newest first
--   Text           path.Dir, sort.Strings, strconv.ParseInt and decimal numbers, strings.EqualFold,
--                  strings.TrimSpace and strings.TrimPrefix
--   Prelude        Go's maps, Boolean tests and numbers
--
-- The API server, GitHub and the library functions of client-go, controller-runtime, apimachinery and
-- doublestar are the fields of `Control.Environment.Env`. The answer to a call may depend on all calls made before
-- it, so it can show what other processes did in between. `Ctl` is a state monad on the list of calls
-- with errors: `m env calls` is the result with the later list.
--
-- Other code that is not the repository's is a parameter: `Github.ClientLibrary` (the environment,
-- ghinstallation, the check of the enterprise URLs), `Github.Operations.GithubApi` (the requests of
-- go-github), `Webhook.WebhookLibrary` (the parser of events, with its signature check, and the reads that it
-- makes). The reconcilers reach the client by the calls of `Control.Client`, one for each method. In Programs a
-- function says which step fails.
--
-- Every loop of the code is over a finite list and is structural recursion here, but for the loops over pages,
-- which run on fuel, one unit for each page: `none` says that it ran out. One more than the largest page
-- number that the service names is enough. The retry on a conflict is the library's, and is a field
-- of `Env`.
--
-- What differs from Go: a text is a sequence of characters; a map is an association list, and a loop
-- over a map goes in that list's order, which stands for any order; integers are not bounded where they
-- are only compared, and are those of an int64 where they are read from a text; strings.EqualFold folds
-- ASCII letters only, and strings.TrimSpace takes off ASCII spaces only; logs are left out; a pointer that
-- is changed in place is a returned value.
--
-- Not modelled: the flag package and logs in cmd, the group's name in groupversion_info.go, and generated code.
mod Prelude
pub mod Api
pub mod Control
pub mod Text
pub mod Conditions
pub mod Branches
pub mod Workflows
pub mod Sync
pub mod Repositories
pub mod Github
pub mod Kubernetes
pub mod Config
pub mod Webhook
pub mod Owners
pub mod Programs
mod Tests
