-- ===== src/Workflows.antt =====
-- internal/controller/workflow_controller.go: the reconciler of Workflow objects.
pub mod Phases
pub mod Adoption
pub mod RuntimeEnv
pub mod JobDefaults
pub mod Ordering
use terrakojo.Prelude.{
  ℕ, ℤ, pos, String, Bool, true, false, ◌||◌, not, Option, none, some, List, [], ◌∷◌, ◌⊕◌, is_zero,
  is_pos, ◌==◌, if◌then◌else◌,
}
use terrakojo.Api.{
  ObjectKey, OwnerReference, blank_meta, key_of, is_deleted, condition_true, Branch, Workflow,
  WorkflowTemplate, Job,
}
use terrakojo.Conditions.{set_condition}
use terrakojo.Control.{
  Ctl, pure, raise, gets, lift, attempt, ignore_not_found, ◌>>=◌, ◌>>◌, Next, finished,
}
use terrakojo.Control.Errors.{Error, Result, ok, err, message}
use terrakojo.Control.Calls.{GithubClient}
use terrakojo.Control.Client.{
  get_branch, get_workflow, get_workflow_template, get_job, update_workflow, update_workflow_status,
  create_job, delete_workflow, client_for_branch, create_check_run, update_check_run,
}
use Phases.{determine_workflow_phase, check_run_status, phase_failed, phase_cancelled}
use RuntimeEnv.{inject_reserved_runtime_env}
use JobDefaults.{apply_job_defaults}

abbrev pub workflow_finalizer : String
workflow_finalizer = "terrakojo.io/cleanup-checkrun"

-- one attempt to change the status; `mutate` is given the time
pub attempt_status : ObjectKey → (ℕ → Workflow → Workflow) → Ctl (Unit {0})
attempt_status key mutate = do
  latest ← get_workflow key
  now ← gets (λ env. env.now)
  update_workflow_status (mutate now latest)
  pure tt

pub update_workflow_status_with_retry : Workflow → (ℕ → Workflow → Workflow) → Ctl (Unit {0})
unfolding attempt_status
update_workflow_status_with_retry workflow mutate env calls =
    env.retry_on_conflict (attempt_status (key_of workflow.meta) mutate env) calls

abbrev pub in_phase : String → ℕ → Workflow → Workflow
in_phase phase now w = record w {
  status = record (w.status) {
    phase = phase;
    conditions =
        set_condition now "JobStatus" condition_true phase ("Job is in " ⊕ phase ⊕ " state")
          w.status.conditions;
  };
}

pub update_phase : Workflow → String → Ctl (Unit {0})
unfolding update_workflow_status_with_retry
update_phase workflow phase = update_workflow_status_with_retry workflow (in_phase phase)

-- tells GitHub, and then the status where the phase has changed
pub report : GithubClient → Workflow → Job → ℤ → String → Ctl Next
unfolding determine_workflow_phase check_run_status update_phase
report gh workflow job id name = do
  let (phase, changed) = determine_workflow_phase workflow job
  let (status, conclusion) = check_run_status phase
  update_check_run gh workflow.spec.owner workflow.spec.repository id name status conclusion
  if not changed then pure finished else do update_phase workflow phase; pure finished

-- whether there is no run to cancel: a job that is gone counts as completed
abbrev pub job_completed : Result Job → Ctl Bool
job_completed (ok job) env calls =
    (ok (is_pos job.status.succeeded || is_pos job.status.failed), calls)
job_completed (err e) env calls = (if env.is_not_found e then ok true else err e, calls)

abbrev pub job_key : Workflow → ObjectKey
job_key workflow = record { name = workflow.meta.name; namespace = workflow.meta.namespace }

pub handle_workflow_deletion : GithubClient → Workflow → Ctl (Unit {0})
unfolding check_run_status
handle_workflow_deletion gh workflow = if is_zero workflow.status.check_run_id then pure tt else do
  answer ← attempt (get_job (job_key workflow))
  completed ← job_completed answer
  if completed
      then pure tt
      else let (status, conclusion) = check_run_status phase_cancelled in
        update_check_run gh workflow.spec.owner workflow.spec.repository
          workflow.status.check_run_id workflow.status.check_run_name status conclusion

pub drop_finalizer : Workflow → Ctl Next
drop_finalizer workflow = do
  meta ← gets (λ env calls. env.remove_finalizer workflow.meta workflow_finalizer)
  update_workflow (record workflow { meta = meta })
  pure finished

pub mark : Workflow → Ctl Next
mark workflow = do
  meta ← gets (λ env calls. env.add_finalizer workflow.meta workflow_finalizer)
  update_workflow (record workflow { meta = meta })
  pure finished

-- the branch with the client for its repository; none where the branch is gone
abbrev pub Context : Type 0
Context = Option (Branch × GithubClient)

pub finalize : Context → Workflow → Ctl Next
unfolding handle_workflow_deletion drop_finalizer
finalize none workflow = drop_finalizer workflow
finalize (some (branch, gh)) workflow = do
  handle_workflow_deletion gh workflow
  drop_finalizer workflow

-- a failure to delete is only logged
pub discard : Workflow → Ctl Next
discard workflow = do attempt (delete_workflow (key_of workflow.meta)); pure finished

abbrev pub named : String → ℤ → ℕ → Workflow → Workflow
named name id now w = record w {
  status = record (w.status) { check_run_name = name; check_run_id = id };
}

abbrev pub named_if_empty : String → ℕ → Workflow → Workflow
named_if_empty name now w = record w {
  status = record (w.status) {
    check_run_name = if w.status.check_run_name == "" then name else w.status.check_run_name;
  };
}

-- a workflow that was deleted meanwhile ends the reconcile: `none`
abbrev pub unless_deleted {ℓ} :
    {A : Type ℓ} → A → Result (Unit {0}) → (Error → Bool) → Result (Option A)
unless_deleted a (ok u) gone = ok (some a)
unless_deleted a (err e) gone = if gone e then ok none else err e

-- saves the check run's name or number, and goes on with both
pub save_check_run : Workflow → ℤ → String → (ℕ → Workflow → Workflow) → Ctl (Option (ℤ × String))
unfolding update_workflow_status_with_retry
save_check_run workflow id name mutate = do
  saved ← attempt (update_workflow_status_with_retry workflow mutate)
  outcome ← gets (λ env calls. unless_deleted (id, name) saved env.is_not_found)
  lift outcome

-- the check run of the workflow, made where there is none
pub ensure_check_run : GithubClient → Workflow → String → Ctl (Option (ℤ × String))
unfolding save_check_run
ensure_check_run gh workflow default_name =
    if is_zero workflow.status.check_run_id
    then (do
      id ←
          create_check_run gh workflow.spec.owner workflow.spec.repository workflow.spec.sha
            default_name
      save_check_run workflow id default_name (named default_name id))
    else if workflow.status.check_run_name == ""
    then save_check_run workflow workflow.status.check_run_id default_name
        (named_if_empty default_name)
    else pure (some (workflow.status.check_run_id, workflow.status.check_run_name))

pub create_job_from_template : String → String → WorkflowTemplate → Job
unfolding apply_job_defaults
create_job_from_template name namespace template = record {
  meta = record blank_meta { name = name; namespace = namespace };
  spec = apply_job_defaults template.spec.job;
  status = record { active = pos 0; succeeded = pos 0; failed = pos 0 };
}

-- whether the workflow is the controller of the job
abbrev pub is_controlled_by : Workflow → Option OwnerReference → Bool
is_controlled_by workflow none = false
is_controlled_by workflow (some ref) = ref.uid == workflow.meta.uid

abbrev pub not_controlled : Job → Workflow → Error
not_controlled job workflow = message (
    "existing Job " ⊕ job.meta.namespace ⊕ "/" ⊕ job.meta.name ⊕ " is not controlled by Workflow "
    ⊕ workflow.meta.namespace ⊕ "/" ⊕ workflow.meta.name)

-- a job of the name is there already: it is used if the workflow controls it
pub adopt : GithubClient → Workflow → ℤ → String → Result Job → Ctl Next
unfolding report
adopt gh workflow id name (ok job) = do
  ref ← gets (λ env calls. env.get_controller_of job.meta)
  (if is_controlled_by workflow ref
      then report gh workflow job id name
      else raise (not_controlled job workflow))
adopt gh workflow id name (err e) = do
  gone ← gets (λ env calls. env.is_not_found e)
  if gone then pure (record { requeue = true; requeue_after = 0 }) else raise e

-- the job could not be made: GitHub and the status are told on a best effort
pub job_failed : GithubClient → Workflow → ℤ → String → Error → Ctl Next
unfolding check_run_status update_phase
job_failed gh workflow id name e = do
  let (status, conclusion) = check_run_status phase_failed
  attempt
      (update_check_run gh workflow.spec.owner workflow.spec.repository id name status conclusion)
  attempt (update_phase workflow phase_failed)
  final ← gets (λ env calls. env.is_invalid e || env.is_forbidden e)
  if final then pure finished else raise e

pub with_job : GithubClient → Workflow → ℤ → String → Result Job → Ctl Next
unfolding report adopt job_failed
with_job gh workflow id name (ok job) = report gh workflow job id name
with_job gh workflow id name (err e) = do
  exists ← gets (λ env calls. env.is_already_exists e)
  if not exists
      then job_failed gh workflow id name e
      else do answer ← attempt (get_job (job_key workflow)); adopt gh workflow id name answer

pub start_job : GithubClient → Branch → Workflow → WorkflowTemplate → ℤ → String → Ctl Next
unfolding create_job_from_template inject_reserved_runtime_env with_job
start_job gh branch workflow template id name = do
  let blank = create_job_from_template workflow.meta.name workflow.meta.namespace template
  reference ← gets (λ env calls. env.set_controller_reference "Workflow" workflow.meta blank.meta)
  meta ← lift reference
  answer ← attempt (
      create_job (record blank {
        meta = meta;
        spec = inject_reserved_runtime_env blank.spec workflow branch;
      }))
  with_job gh workflow id name answer

abbrev pub check_run_title : WorkflowTemplate → Workflow → String
check_run_title template workflow = template.spec.display_name ⊕ "(" ⊕ workflow.spec.path ⊕ ")"

pub with_check_run :
    GithubClient → Branch → Workflow → WorkflowTemplate → Option (ℤ × String) → Ctl Next
unfolding start_job
with_check_run gh branch workflow template none = pure finished
with_check_run gh branch workflow template (some (id, name)) =
    start_job gh branch workflow template id name

pub with_template : GithubClient → Branch → Workflow → Result WorkflowTemplate → Ctl Next
unfolding ensure_check_run with_check_run
with_template gh branch workflow (ok template) = do
  run ← ensure_check_run gh workflow (check_run_title template workflow)
  with_check_run gh branch workflow template run
with_template gh branch workflow (err e) = do
  gone ← gets (λ env calls. env.is_not_found e)
  if gone then pure finished else raise e

pub with_existing_job : GithubClient → Branch → Workflow → Result Job → Ctl Next
unfolding report with_template
with_existing_job gh branch workflow (ok job) =
    report gh workflow job workflow.status.check_run_id workflow.status.check_run_name
with_existing_job gh branch workflow (err e) = do
  gone ← gets (λ env calls. env.is_not_found e)
  if not gone then raise e else do
    template ← attempt (
        get_workflow_template
          (record { name = workflow.spec.template; namespace = workflow.meta.namespace }))
    with_template gh branch workflow template

-- the workflow has the finalizer and is not being deleted
pub reconcile_live : Context → Workflow → Ctl Next
unfolding discard with_existing_job
reconcile_live none workflow = discard workflow
reconcile_live (some (branch, gh)) workflow = do
  answer ← attempt (get_job (job_key workflow))
  with_existing_job gh branch workflow answer

pub reconcile_in : Context → Workflow → Ctl Next
unfolding finalize mark reconcile_live
reconcile_in context workflow = do
  marked ← gets (λ env calls. env.contains_finalizer workflow.meta workflow_finalizer)
  (if is_deleted workflow.meta
      then (if marked then finalize context workflow else pure finished)
      else if marked
      then reconcile_live context workflow
      else mark workflow)

-- a branch that is not found is no error
abbrev pub found_branch : Result Branch → Ctl (Option Branch)
found_branch (ok branch) env calls = (ok (some branch), calls)
found_branch (err e) env calls = (if env.is_not_found e then ok none else err e, calls)

pub context_of : Option Branch → Ctl Context
context_of none = pure none
context_of (some branch) = do gh ← client_for_branch branch; pure (some (branch, gh))

-- the object was read; `manager` says whether the reconciler has a GitHubClientManager
pub reconcile_workflow : Bool → Workflow → Ctl Next
unfolding context_of reconcile_in
reconcile_workflow manager workflow = do
  answer ←
      attempt
        (get_branch (record { name = workflow.spec.branch; namespace = workflow.meta.namespace }))
  branch ← found_branch answer
  if not manager
      then raise (message "GitHubClientManager not initialized")
      else do context ← context_of branch; reconcile_in context workflow

abbrev pub with_workflow : Bool → Result Workflow → Ctl Next
with_workflow manager (ok workflow) env calls = reconcile_workflow manager workflow env calls
with_workflow manager (err e) env calls = (if env.is_not_found e then ok finished else err e, calls)

pub reconcile : Bool → ObjectKey → Ctl Next
unfolding reconcile_workflow
reconcile manager key = do answer ← attempt (get_workflow key); with_workflow manager answer
