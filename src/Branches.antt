-- ===== src/Branches.antt =====
-- internal/controller/branch_controller.go: the reconciler of Branch objects.
pub mod Targets
pub mod Finalizing
pub mod Live
pub mod Seen
pub mod Plan
pub mod Marking
use terrakojo.Prelude.{
  ℕ, pos, String, Bool, true, false, ◌||◌, ◌&&◌, not, Option, none, some, List, [], ◌∷◌, ◌++◌, ◌⊕◌,
  contains, is_empty, is_zero, ◌==◌, if◌then◌else◌,
}
use terrakojo.Prelude.Dictionary.{Dictionary, lookup, insert, at, keys}
use terrakojo.Api.{
  ObjectKey, OwnerReference, ObjectMeta, blank_meta, key_of, Condition, ConditionStatus,
  condition_true, condition_false, is_deleted, Branch, Workflow, WorkflowTemplate, Repository,
}
use terrakojo.Conditions.{set_condition}
use terrakojo.Control.{
  Ctl, pure, raise, gets, attempt, lift, wrapping, ignore_not_found, ◌>>=◌, ◌>>◌, Next, finished,
  after_seconds,
}
use terrakojo.Control.Errors.{Error, Result, ok, err, message}
use terrakojo.Control.Calls.{GithubClient}
use terrakojo.Control.Client.{
  get_branch, get_repository, list_workflows, list_workflow_templates, update_branch,
  update_branch_status, create_workflow, delete_branch, delete_workflow, client_for_branch,
  get_changed_files, get_changed_files_for_commit,
}
use terrakojo.Text.Sort.{sort_strings}
use Targets.{
  MatchedTemplate, WorkflowTarget, normalize_execution_unit, workflow_targets, match_templates,
}

abbrev pub branch_finalizer : String
branch_finalizer = "terrakojo.io/cleanup-workflows"

abbrev pub last_sha : String
last_sha = "terrakojo.io/last-sha"

abbrev pub finished_phases : List String
finished_phases = "Succeeded" ∷ "Failed" ∷ "Cancelled" ∷ []

-- the loop of `allWorkflowsCompleted`
unfoldable pub all_in : List String → List Workflow → Bool
all_in phases [] = true
all_in phases (w ∷ workflows) = contains w.status.phase phases && all_in phases workflows

pub all_workflows_completed : List Workflow → Bool
unfolding all_in
all_workflows_completed workflows = not (is_empty workflows) && all_in finished_phases workflows

pub delete_each : List Workflow → Ctl (Unit {0})
delete_each [] = pure tt
delete_each (w ∷ workflows) = do
  wrapping ("failed to delete workflow " ⊕ w.meta.name)
      (ignore_not_found (delete_workflow (key_of w.meta)))
  delete_each workflows

-- returns the branch, whose status the Go code writes in place
pub delete_workflows_for_branch : Branch → Ctl Branch
unfolding delete_each
delete_workflows_for_branch branch = do
  workflows ←
      wrapping "failed to list workflows for branch"
        (list_workflows branch.meta.namespace branch.meta.uid)
  delete_each workflows
  pure (record branch { status = record branch.status { workflows = [] } })

-- the finalizer goes if no workflow is left
pub release : Branch → List Workflow → Ctl Next
release branch remaining = if not (is_empty remaining) then pure (after_seconds 5) else do
  meta ← gets (λ env calls. env.remove_finalizer branch.meta branch_finalizer)
  update_branch (record branch { meta = meta })
  pure finished

-- the branch is being deleted and has the finalizer
pub finalize : Branch → Ctl Next
unfolding delete_workflows_for_branch release
finalize branch = do
  branch' ← delete_workflows_for_branch branch
  remaining ← list_workflows branch'.meta.namespace branch'.meta.uid
  release branch' remaining

-- `r.Delete(ctx, &branch)`, where it is fine that the branch is gone already
pub discard : Branch → Ctl Next
discard branch = do ignore_not_found (delete_branch (key_of branch.meta)); pure finished

-- the first owner that is a named Repository
unfoldable pub repository_owner : List OwnerReference → Option OwnerReference
repository_owner [] = none
repository_owner (ref ∷ refs) =
    if not (ref.kind == "Repository") || ref.name == "" then repository_owner refs else some ref

-- a Repository that is not found is no error
abbrev pub found_repository : Result Repository → Ctl (Option Repository)
found_repository (ok repo) env calls = (ok (some repo), calls)
found_repository (err e) env calls = (if env.is_not_found e then ok none else err e, calls)

abbrev pub look_up : String → Option OwnerReference → Ctl (Option Repository)
look_up namespace none = pure none
look_up namespace (some ref) = do
  answer ← attempt (get_repository (record { name = ref.name; namespace = namespace }))
  found_repository answer

pub get_repository_for_branch : Branch → Ctl (Option Repository)
unfolding repository_owner
get_repository_for_branch branch =
    look_up branch.meta.namespace (repository_owner branch.meta.owner_references)

abbrev pub annotated : Branch → Branch
annotated branch = record branch {
  meta = record (branch.meta) {
    annotations = insert last_sha branch.spec.sha branch.meta.annotations;
  };
}

pub mark_branch_sha : Branch → Ctl (Unit {0})
mark_branch_sha branch =
    if at last_sha branch.meta.annotations == branch.spec.sha
    then pure tt
    else do update_branch (annotated branch); pure tt

-- the commit was handled before: on the default branch the object goes once nothing runs for it
pub keep_or_discard : Bool → List Workflow → Branch → Ctl Next
unfolding discard
keep_or_discard is_default workflows branch =
    if is_empty workflows
    then (if is_default then discard branch else pure finished)
    else if all_workflows_completed workflows
    then (if is_default then discard branch else pure finished)
    else pure finished

-- nothing is to run for the commit
pub nothing_to_run : Bool → Branch → Ctl Next
unfolding discard mark_branch_sha
nothing_to_run is_default branch =
    if is_default then discard branch else do mark_branch_sha branch; pure finished

pub changed_files_of : GithubClient → Branch → Ctl (List String)
changed_files_of gh branch =
    if not (is_zero branch.spec.pr_number)
    then get_changed_files gh branch.spec.owner branch.spec.repository branch.spec.pr_number
    else get_changed_files_for_commit gh branch.spec.owner branch.spec.repository branch.spec.sha

abbrev pub bool_text : Bool → String
bool_text b = if b then "true" else "false"

-- the Workflow before it has its owner reference
abbrev pub workflow_for : Branch → String → Bool → WorkflowTarget → Workflow
workflow_for branch template is_default target = record {
  meta = record blank_meta {
    generate_name = template ⊕ "-";
    namespace = branch.meta.namespace;
    labels = ("terrakojo.io/owner-uid", branch.meta.uid) ∷ [];
  };
  spec = record {
    owner = branch.spec.owner;
    repository = branch.spec.repository;
    branch = branch.meta.name;
    sha = branch.spec.sha;
    template = template;
    path = target.path;
    parameters =
        ("isDefaultBranch", bool_text is_default)
        ∷ ("executionUnit", normalize_execution_unit target.execution_unit)
        ∷ [];
  };
  status = record {
    conditions = [];
    phase = "";
    jobs = [];
    check_run_id = pos 0;
    check_run_name = "";
  };
}

pub create_workflow_for_branch : Branch → String → Bool → WorkflowTarget → Ctl String
create_workflow_for_branch branch template is_default target = do
  let workflow = workflow_for branch template is_default target
  reference ← gets (λ env calls. env.set_controller_reference "Branch" branch.meta workflow.meta)
  meta ← lift reference
  created ← create_workflow (record workflow { meta = meta })
  pure created.meta.name

pub create_targets : Branch → String → Bool → List WorkflowTarget → Ctl (List String)
unfolding create_workflow_for_branch
create_targets branch template is_default [] = pure []
create_targets branch template is_default (target ∷ targets) = do
  name ← create_workflow_for_branch branch template is_default target
  names ← create_targets branch template is_default targets
  pure (name ∷ names)

-- a key that is missing would give the zero group, which has no targets
abbrev pub targets_of : Option MatchedTemplate → List WorkflowTarget
targets_of none = []
targets_of (some group) = workflow_targets group.match.execution_unit group.files

pub create_templates : Branch → Bool → Dictionary MatchedTemplate → List String → Ctl (List String)
unfolding create_targets
create_templates branch is_default groups [] = pure []
create_templates branch is_default groups (template ∷ templates) = do
  names ← create_targets branch template is_default (targets_of (lookup template groups))
  more ← create_templates branch is_default groups templates
  pure (names ++ more)

abbrev pub with_condition : ℕ → String → ConditionStatus → String → String → Branch → Branch
with_condition now type status reason text branch = record branch {
  status = record (branch.status) {
    conditions = set_condition now type status reason text branch.status.conditions;
  };
}

-- the templates could not be listed: the condition is written on a best effort
pub template_list_failed : Branch → Error → Ctl Next
template_list_failed branch e = do
  now ← gets (λ env. env.now)
  attempt (
      update_branch_status (
        with_condition now "WorkflowCreateFailed" condition_false "TemplateListFailed"
          "Failed to list WorkflowTemplates" branch))
  ignored ← gets (λ env calls. env.is_not_found e)
  if ignored then pure finished else raise e

-- the object that is written once the workflows are there
abbrev pub as_created : ℕ → Branch → List String → List String → Branch
as_created now branch names files =
    let listed : Branch = record branch {
      status = record (branch.status) { workflows = names; changed_files = files };
    } in
    annotated (
      with_condition now "WorkflowReady" condition_true "WorkflowCreated"
        ("Workflow created successfully for SHA " ⊕ branch.spec.sha) listed)

-- the status is set on the local object, the update of the annotation answers with the object that
-- the caller then holds, and that object's status is written
pub record_created : Branch → List String → List String → Ctl Next
record_created branch names files = do
  now ← gets (λ env. env.now)
  stored ← update_branch (as_created now branch names files)
  update_branch_status stored
  pure finished

-- the workflows of the groups, in the order of the template names
pub create_groups : Bool → Branch → List String → Dictionary MatchedTemplate → Ctl Next
unfolding create_templates record_created
create_groups is_default branch files groups = do
  names ← create_templates branch is_default groups (sort_strings (keys groups))
  record_created branch names files

unfoldable pub run_templates : Bool → Branch → List String → List WorkflowTemplate → Ctl Next
unfolding create_groups nothing_to_run
run_templates is_default branch files templates = do
  groups ← gets (λ env calls. match_templates env.matches templates files)
  (if is_empty groups
      then nothing_to_run is_default branch
      else create_groups is_default branch files groups)

abbrev pub with_templates : Bool → Branch → List String → Result (List WorkflowTemplate) → Ctl Next
with_templates is_default branch files (ok templates) =
    run_templates is_default branch files templates
with_templates is_default branch files (err e) = template_list_failed branch e

-- from the GitHub client on
pub run_workflows : Bool → Bool → Branch → Ctl Next
unfolding changed_files_of nothing_to_run run_templates template_list_failed
run_workflows manager is_default branch =
    if not manager then raise (message "GitHubClientManager not initialized") else do
      gh ← client_for_branch branch
      files ← changed_files_of gh branch
      if is_empty files then nothing_to_run is_default branch else do
        templates ← attempt (list_workflow_templates branch.meta.namespace)
        with_templates is_default branch files templates

-- the branch's repository is there
pub reconcile_in : Bool → Branch → Repository → Ctl Next
unfolding keep_or_discard delete_workflows_for_branch run_workflows
reconcile_in manager branch repo = do
  let is_default = branch.spec.name == repo.spec.default_branch
  let seen = at last_sha branch.meta.annotations
  workflows ← list_workflows branch.meta.namespace branch.meta.uid
  if seen == branch.spec.sha
      then keep_or_discard is_default workflows branch
      else if not (seen == "")
      then (do
        branch' ← delete_workflows_for_branch branch
        run_workflows manager is_default branch')
      else run_workflows manager is_default branch

abbrev pub in_repository : Bool → Branch → Option Repository → Ctl Next
in_repository manager branch none = discard branch
in_repository manager branch (some repo) = reconcile_in manager branch repo

pub mark : Branch → Ctl Next
mark branch = do
  meta ← gets (λ env calls. env.add_finalizer branch.meta branch_finalizer)
  update_branch (record branch { meta = meta })
  pure finished

-- the object has the finalizer and is not being deleted
pub reconcile_live : Bool → Branch → Ctl Next
unfolding get_repository_for_branch discard reconcile_in
reconcile_live manager branch = do
  repo ← get_repository_for_branch branch
  in_repository manager branch repo

-- the object was read; `manager` says whether the reconciler has a GitHubClientManager
pub reconcile_branch : Bool → Branch → Ctl Next
unfolding finalize mark reconcile_live
reconcile_branch manager branch = do
  marked ← gets (λ env calls. env.contains_finalizer branch.meta branch_finalizer)
  (if is_deleted branch.meta
      then (if marked then finalize branch else pure finished)
      else if marked
      then reconcile_live manager branch
      else mark branch)

abbrev pub with_branch : Bool → Result Branch → Ctl Next
with_branch manager (ok branch) env calls = reconcile_branch manager branch env calls
with_branch manager (err e) env calls = (if env.is_not_found e then ok finished else err e, calls)

unfoldable pub reconcile : Bool → ObjectKey → Ctl Next
unfolding reconcile_branch
reconcile manager key = do answer ← attempt (get_branch key); with_branch manager answer
