-- ===== src/Tests/Workflows.antt =====
-- Examples on the reconciler of Workflow objects.
use terrakojo.Prelude.{refl, ◌≡◌, pos, true, false, List, [], ◌∷◌, ◌==◌}
use terrakojo.Api.{Workflow, Job, blank_meta}
use terrakojo.Api.Batch.{EnvVar}
use terrakojo.Workflows.Phases.{check_run_status, phase_of, status_completed}
use terrakojo.Workflows.Phases.Reports.{completed_iff_final, job_reported}
use terrakojo.Workflows.RuntimeEnv.{has_var, merge_env_with_reserved}
use terrakojo.Workflows.RuntimeEnv.Merging.{merge_exact, values}
use terrakojo.Workflows.JobDefaults.{apply_job_defaults}
use terrakojo.Workflows.JobDefaults.Hardening.{
  IsExplicit, apply_job_defaults-IsExplicit, explicit_unchanged,
}
use terrakojo.Tests.Fixtures.{quiet, job_spec, feature, template, key}
use terrakojo.Control.Histories.{Always, EndsWithRun}
use terrakojo.Workflows.Ordering.{Ready}
use terrakojo.Workflows.Ordering.Reconciling.{reconcile-InOrder}
use terrakojo.Control.Calls.{Call}
use terrakojo.Control.Errors.{Result, ok, err, foreign}
use terrakojo.Control.Environment.{Env}
use terrakojo.Workflows.{reconcile, with_job, job_key}
use terrakojo.Workflows.Adoption.{Comes, existing_job-Comes}

completed_iff_final_example :
    (((check_run_status "Failed").0 == status_completed) ≡ true)
    × (((check_run_status "Failed").1 == "") ≡ false)
completed_iff_final_example = completed_iff_final "Failed"

abbrev failed_job : Job
failed_job = record {
  meta = blank_meta;
  spec = job_spec;
  status = record { active = pos 1; succeeded = pos 0; failed = pos 1 };
}

job_reported_example :
    (((check_run_status (phase_of failed_job)).0 == status_completed) ≡ true)
    × (((check_run_status (phase_of failed_job)).1 == "success") ≡ false)
job_reported_example = job_reported failed_job

abbrev own : List EnvVar
own = record { name = "A"; value = "1" } ∷ record { name = "SHA"; value = "forged" } ∷ []

abbrev reserved : List EnvVar
reserved = record { name = "SHA"; value = "c0ffee" } ∷ []

merge_exact_example : values "SHA" (merge_env_with_reserved own reserved) ≡ "c0ffee" ∷ []
unfolding has_var
merge_exact_example = merge_exact own reserved "SHA"

apply_job_defaults-IsExplicit_example : IsExplicit (apply_job_defaults job_spec)
apply_job_defaults-IsExplicit_example = apply_job_defaults-IsExplicit job_spec

explicit_unchanged_example :
    apply_job_defaults (apply_job_defaults job_spec) ≡ apply_job_defaults job_spec
explicit_unchanged_example =
    explicit_unchanged (apply_job_defaults job_spec) (apply_job_defaults-IsExplicit job_spec)

abbrev plan : Workflow
plan = record {
  meta = record blank_meta { name = "plan"; namespace = "ns"; uid = "w1" };
  spec = record {
    owner = "o";
    repository = "repo";
    branch = "feature";
    sha = "c0ffee";
    template = "plan";
    path = "src";
    parameters = [];
  };
  status = record {
    conditions = [];
    phase = "";
    jobs = [];
    check_run_id = pos 3;
    check_run_name = "Plan(src)";
  };
}

abbrev taken : Env
taken = record quiet { is_already_exists = λ e. true; job = λ calls. ok failed_job }

existing_job-Comes_example :
    Comes taken 1 plan
      (pos 3)
      "Plan(src)"
      (Call.get_job (job_key plan) ∷ [])
      (with_job 1 plan (pos 3) "Plan(src)" (err (foreign 409)) taken [])
existing_job-Comes_example =
    existing_job-Comes taken 1 plan (pos 3) "Plan(src)" (foreign 409) [] refl

-- a workflow without a check run, and no job yet: the reconcile makes both
abbrev fresh : Workflow
fresh = record plan { status = record (plan.status) { check_run_id = pos 0; check_run_name = "" } }

abbrev job_made : List Call → Result Job
job_made (Call.create_job job ∷ calls) = ok job
job_made _ = err (foreign 404)

abbrev working : Env
working = record quiet {
  workflow = λ calls. ok fresh;
  branch = λ calls. ok feature;
  github_client = λ calls. ok 1;
  workflow_template = λ calls. ok template;
  check_run_id = λ calls. ok (pos 3);
  job = job_made;
}

working-EndsWithRun : EndsWithRun working
working-EndsWithRun P body keeps calls h = (calls, h, refl)

reconcile-InOrder_example : Always (Ready working fresh) (reconcile true key working []).1
reconcile-InOrder_example = reconcile-InOrder working true key fresh working-EndsWithRun refl
