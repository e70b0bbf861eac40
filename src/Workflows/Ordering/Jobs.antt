-- ===== src/Workflows/Ordering/Jobs.antt =====
-- internal/controller/workflow_controller.go: what comes before the creation of a Job and its reports.
use terrakojo.Prelude.{
  ◌∙◌, ◌≡◌, refl, ap, inl, inr, ℤ, String, Bool-cases, ◌||◌, Option, none, some, List, ◌∷◌,
}
use terrakojo.Api.{Branch, Workflow, WorkflowTemplate, Job}
use terrakojo.Control.{pure, raise, ask, gets, lift, attempt, ◌>>=◌}
use terrakojo.Control.Errors.{Error, Result, ok, err}
use terrakojo.Control.Calls.{Call, GithubClient, get_job, create_job}
use terrakojo.Control.Environment.{Env}
use terrakojo.Control.Histories.{EndsWithRun, continue-keeps}
use terrakojo.Control.Client
use terrakojo.Workflows.Phases.{phase_failed}
use terrakojo.Workflows.RuntimeEnv.{inject_reserved_runtime_env}
use terrakojo.Workflows.{
  in_phase, update_phase, job_key, ensure_check_run, adopt, job_failed, with_job, start_job,
  with_check_run, with_template, with_existing_job, is_controlled_by, check_run_title,
  create_job_from_template,
}
use terrakojo.Workflows.Ordering.{InOrder, Known, later-Known, retried-InOrder, report-InOrder}
use terrakojo.Workflows.Ordering.CheckRuns.{
  HasRun, ensure_check_run-InOrder, ensure_check_run-Known,
}

module _ (env : Env) (w : Workflow) (retry : EndsWithRun env) where
  adopt-InOrder :
      (gh : GithubClient) (id : ℤ) (name : String) (answer : Result Job) (calls : List Call)
      → Known env w id calls
      → InOrder env w calls
      → InOrder env w (adopt gh w id name answer env calls).1
  unfolding adopt ◌>>=◌ gets pure raise
  adopt-InOrder gh id name (ok job) calls known h =
      elim (Bool-cases (is_controlled_by w (env.get_controller_of job.meta))) [
        | inl controlled ↦ rw controlled (report-InOrder env w retry gh job id name calls known h)
        | inr foreign ↦ rw foreign h
      ]
  adopt-InOrder gh id name (err e) calls known h = elim (Bool-cases (env.is_not_found e)) [
    | inl gone ↦ rw gone h
    | inr other ↦ rw other h
  ]

  job_failed-InOrder :
      (gh : GithubClient) (id : ℤ) (name : String) (e : Error) (calls : List Call)
      → Known env w id calls
      → InOrder env w calls
      → InOrder env w (job_failed gh w id name e env calls).1
  unfolding job_failed update_phase ◌>>=◌ attempt ask gets pure raise Client.update_check_run
  job_failed-InOrder gh id name e calls known h =
      let told = retried-InOrder env w retry (in_phase phase_failed) _ (known, h) in
      elim (Bool-cases (env.is_invalid e || env.is_forbidden e)) [
        | inl final ↦ rw final told
        | inr again ↦ rw again told
      ]

  with_job-InOrder :
      (gh : GithubClient) (id : ℤ) (name : String) (answer : Result Job) (calls : List Call)
      → Known env w id calls
      → InOrder env w calls
      → InOrder env w (with_job gh w id name answer env calls).1
  unfolding with_job ◌>>=◌ attempt ask gets Client.get_job
  with_job-InOrder gh id name (ok job) calls known h =
      report-InOrder env w retry gh job id name calls known h
  with_job-InOrder gh id name (err e) calls known h = elim (Bool-cases (env.is_already_exists e)) [
    | inl exists ↦
        let asked = get_job (job_key w) ∷ calls in
        rw exists (
          adopt-InOrder gh id name (env.job asked) asked
            (later-Known env w (get_job (job_key w)) calls id known) (tt, h))
    | inr other ↦ rw other (job_failed-InOrder gh id name e calls known h)
  ]

  start_job-InOrder :
      (gh : GithubClient) (branch : Branch) (template : WorkflowTemplate) (id : ℤ) (name : String)
      (calls : List Call)
      → Known env w id calls
      → HasRun env w calls
      → InOrder env w calls
      → InOrder env w (start_job gh branch w template id name env calls).1
  unfolding start_job ◌>>=◌ attempt ask gets lift Client.create_job
  start_job-InOrder gh branch template id name calls known has h =
      let blank = create_job_from_template w.meta.name w.meta.namespace template in
      continue-keeps (InOrder env w) env (env.set_controller_reference "Workflow" w.meta blank.meta)
        _ calls
        (λ meta referred.
          let job : Job = record blank {
            meta = meta;
            spec = inject_reserved_runtime_env blank.spec w branch;
          } in
          let creating = create_job job ∷ calls in
          with_job-InOrder gh id name (env.job creating) creating
            (later-Known env w (create_job job) calls id known) (has, h))
        h

  with_check_run-InOrder :
      (gh : GithubClient) (branch : Branch) (template : WorkflowTemplate)
      (run : Option (ℤ × String)) (calls : List Call)
      → ((id : ℤ) (name : String)
          → run ≡ some (id, name)
          → Known env w id calls × HasRun env w calls)
      → InOrder env w calls
      → InOrder env w (with_check_run gh branch w template run env calls).1
  unfolding with_check_run pure
  with_check_run-InOrder gh branch template none calls known h = h
  with_check_run-InOrder gh branch template (some (id, name)) calls known h =
      let (is_known, has) = known id name refl in
      start_job-InOrder gh branch template id name calls is_known has h

  with_template-InOrder :
      (gh : GithubClient) (branch : Branch) (answer : Result WorkflowTemplate) (calls : List Call)
      → InOrder env w calls
      → InOrder env w (with_template gh branch w answer env calls).1
  unfolding with_template ◌>>=◌ gets pure raise
  with_template-InOrder gh branch (ok template) calls h =
      let title = check_run_title template w in
      let ensured = ensure_check_run gh w title env calls in
      let kept = ensure_check_run-InOrder env w retry gh title calls h in
      continue-keeps (InOrder env w) env ensured.0 _ ensured.1
        (λ run e.
          with_check_run-InOrder gh branch template run ensured.1
            (λ id name is_run.
              ensure_check_run-Known env w retry gh id title name calls h (e ∙ ap ok is_run))
            kept)
        kept
  with_template-InOrder gh branch (err e) calls h = elim (Bool-cases (env.is_not_found e)) [
    | inl gone ↦ rw gone h
    | inr other ↦ rw other h
  ]

  pub with_existing_job-InOrder :
      (gh : GithubClient) (branch : Branch) (answer : Result Job) (calls : List Call)
      → InOrder env w calls
      → InOrder env w (with_existing_job gh branch w answer env calls).1
  unfolding with_existing_job ◌>>=◌ attempt ask gets raise Client.get_workflow_template
  with_existing_job-InOrder gh branch (ok job) calls h =
      report-InOrder env w retry gh job w.status.check_run_id w.status.check_run_name calls
        (inl refl) h
  with_existing_job-InOrder gh branch (err e) calls h = elim (Bool-cases (env.is_not_found e)) [
    | inl gone ↦ rw gone (with_template-InOrder gh branch _ _ (tt, h))
    | inr other ↦ rw other h
  ]
