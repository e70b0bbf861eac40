-- ===== src/Workflows/Ordering.antt =====
-- internal/controller/workflow_controller.go: what has to be done before a call of a reconcile.
pub mod CheckRuns
pub mod Jobs
pub mod Deletion
pub mod Reconciling
use terrakojo.Prelude.{
  ◌≡◌, refl, sym, ap, subst, ◌⊎◌, inl, inr, ℕ, ℤ, String, Bool, true, false, Bool-cases, arith,
  ◌||◌, Option, none, some, List, [], ◌∷◌, ◌==◌, is_zero, is_pos, if◌then◌else◌,
}
use terrakojo.Api.{ObjectKey, Branch, Workflow, WorkflowTemplate, Job, key_of, is_deleted}
use terrakojo.Control.{Ctl, Next, pure, raise, ask, gets, lift, attempt, continue, ◌>>=◌}
use terrakojo.Control.Errors.{Error, Result, ok, err}
use terrakojo.Control.Calls.{
  Call, GithubClient, get_branch, get_job, get_workflow, get_workflow_template, create_job,
  create_check_run, update_check_run, update_workflow, update_workflow_status, delete_workflow,
}
use terrakojo.Control.Environment.{Env}
use terrakojo.Control.Histories.{Always, Sometime, EndsWithRun, continue-keeps, continue-then}
use terrakojo.Control.Client
use terrakojo.Workflows.Phases.{check_run_status, phase_cancelled, determine_workflow_phase}
use terrakojo.Workflows.{
  attempt_status, update_workflow_status_with_retry, in_phase, update_phase, report, job_key,
  job_completed, handle_workflow_deletion, drop_finalizer, mark, Context, finalize, discard, named,
  named_if_empty, unless_deleted, save_check_run, ensure_check_run, adopt, job_failed, with_job,
  start_job, with_check_run, with_template, with_existing_job, reconcile_live, reconcile_in,
  found_branch, context_of, reconcile_workflow, with_workflow, reconcile, is_controlled_by,
  check_run_title,
}

-- the workflow's branch is not there
abbrev pub NotThere : Env → Workflow → Call → List Call → Type 0
NotThere env w (get_branch key) earlier =
    (key ≡ (record { name = w.spec.branch; namespace = w.meta.namespace }))
    × ((e : Error) × (env.branch (get_branch key ∷ earlier) ≡ err e) × (env.is_not_found e ≡ true))
NotThere env w _ earlier = ⊥

-- GitHub makes a check run with the number for the workflow's commit
abbrev pub MakesRun : Env → Workflow → ℤ → Call → List Call → Type 0
MakesRun env w id (create_check_run gh owner repo sha name) earlier =
    (sha ≡ w.spec.sha)
    × (env.check_run_id (create_check_run gh owner repo sha name ∷ earlier) ≡ ok id)
MakesRun env w id _ earlier = ⊥

-- the number is written into the status of a workflow, and the API server accepts it
abbrev pub StoresRun : Env → ℤ → Call → List Call → Type 0
StoresRun env id (update_workflow_status w) earlier =
    (w.status.check_run_id ≡ id)
    × ((w' : Workflow) × (env.workflow (update_workflow_status w ∷ earlier) ≡ ok w'))
StoresRun env id _ earlier = ⊥

-- the job is read, and it is complete or there is none
abbrev pub FindsCompleted : Env → Workflow → Call → List Call → Type 0
FindsCompleted env w (get_job key) earlier =
    (key ≡ job_key w)
    × (((job : Job) × (env.job (get_job key ∷ earlier) ≡ ok job)
          × ((is_pos job.status.succeeded || is_pos job.status.failed) ≡ true))
        ⊎ ((e : Error) × (env.job (get_job key ∷ earlier) ≡ err e) × (env.is_not_found e ≡ true)))
FindsCompleted env w _ earlier = ⊥

-- the workflow's check run is cancelled, and GitHub accepts it
abbrev pub Cancels : Env → Workflow → Call → List Call → Type 0
Cancels env w (update_check_run gh owner repo id name status conclusion) earlier =
    (id ≡ w.status.check_run_id)
    × (status ≡ "completed")
    × (conclusion ≡ "cancelled")
    × (env.done (update_check_run gh owner repo id name status conclusion ∷ earlier) ≡ ok tt)
Cancels env w _ earlier = ⊥

-- the check run was made by this reconcile, and its number is in the stored status
abbrev pub SavedRun : Env → Workflow → ℤ → List Call → Type 0
SavedRun env w id calls = Sometime (MakesRun env w id) calls × Sometime (StoresRun env id) calls

-- the reasons for which a check run needs no cancellation any more
abbrev pub Released : Env → Workflow → List Call → Type 0
Released env w calls =
    Sometime (NotThere env w) calls
    ⊎ (is_zero w.status.check_run_id ≡ true)
    ⊎ Sometime (FindsCompleted env w) calls
    ⊎ Sometime (Cancels env w) calls

-- What has come before a call of a reconcile of `w`: a check run is made for the commit of a workflow that has
-- none; a Job is created when the workflow has a check run, from before or made and stored by this
-- reconcile; GitHub is told of no other check run; a deleted workflow is updated, which removes its finalizer,
-- when its check run needs no cancellation; and a workflow is deleted when its branch is not there.
abbrev pub Ready : Env → Workflow → Call → List Call → Type 0
Ready env w (create_check_run gh owner repo sha name) earlier =
    (is_zero w.status.check_run_id ≡ true) × (sha ≡ w.spec.sha)
Ready env w (create_job job) earlier =
    (is_zero w.status.check_run_id ≡ false) ⊎ ((id : ℤ) × SavedRun env w id earlier)
Ready env w (update_check_run gh owner repo id name status conclusion) earlier =
    (id ≡ w.status.check_run_id) ⊎ SavedRun env w id earlier
Ready env w (update_workflow w') earlier = (is_deleted w.meta ≡ false) ⊎ Released env w earlier
Ready env w (delete_workflow key) earlier =
    (key ≡ key_of w.meta) × Sometime (NotThere env w) earlier
Ready env w _ earlier = Unit {0}

module _ (env : Env) (w : Workflow) where
  abbrev pub InOrder : List Call → Type 0
  InOrder = Always (Ready env w)

  -- the number is the workflow's, or that of a check run that was made and stored
  abbrev pub Known : ℤ → List Call → Type 0
  Known id calls = (id ≡ w.status.check_run_id) ⊎ SavedRun env w id calls

  pub later-Known :
      (call : Call) (calls : List Call) (id : ℤ) → Known id calls → Known id (call ∷ calls)
  later-Known call calls id (inl same) = inl same
  later-Known call calls id (inr (made, stored)) = inr (inr made, inr stored)

  pub attempt_status-InOrder :
      (key : ObjectKey) (mutate : ℕ → Workflow → Workflow) (calls : List Call)
      → InOrder calls
      → InOrder (attempt_status key mutate env calls).1
  unfolding attempt_status ◌>>=◌ ask gets pure Client.get_workflow Client.update_workflow_status
  attempt_status-InOrder key mutate calls h =
      let asked = get_workflow key ∷ calls in
      continue-keeps InOrder env (env.workflow asked) _ asked
        (λ latest found.
          let stored = update_workflow_status (mutate (env.now asked) latest) ∷ asked in
          continue-keeps InOrder env (env.workflow stored) _ stored (λ u e. (tt, (tt, h)))
            (tt, (tt, h)))
        (tt, h)

module _ (env : Env) (w : Workflow) (retry : EndsWithRun env) where
  pub retried-InOrder :
      (mutate : ℕ → Workflow → Workflow) (calls : List Call)
      → InOrder env w calls
      → InOrder env w (update_workflow_status_with_retry w mutate env calls).1
  unfolding update_workflow_status_with_retry
  retried-InOrder mutate calls h =
      let body = attempt_status (key_of w.meta) mutate env in
      let (last, kept, same) =
        retry (InOrder env w) body (attempt_status-InOrder env w (key_of w.meta) mutate) calls h in
      subst (λ r. InOrder env w r.1) (sym same)
        (attempt_status-InOrder env w (key_of w.meta) mutate last kept)

  pub report-InOrder :
      (gh : GithubClient) (job : Job) (id : ℤ) (name : String) (calls : List Call)
      → Known env w id calls
      → InOrder env w calls
      → InOrder env w (report gh w job id name env calls).1
  unfolding report update_phase ◌>>=◌ ask pure Client.update_check_run
  report-InOrder gh job id name calls known h =
      let phase = determine_workflow_phase w job in
      let told =
        update_check_run gh w.spec.owner w.spec.repository id name (check_run_status phase.0).0
          (check_run_status phase.0).1
        ∷ calls in
      continue-keeps (InOrder env w) env (env.done told) _ told
        (λ u e. elim (Bool-cases phase.1) [
          | inl changed ↦ rw changed (
              continue-keeps (InOrder env w) env
                (update_workflow_status_with_retry w (in_phase phase.0) env told).0 _
                (update_workflow_status_with_retry w (in_phase phase.0) env told).1
                (λ u e. retried-InOrder (in_phase phase.0) told (known, h))
                (retried-InOrder (in_phase phase.0) told (known, h)))
          | inr same ↦ rw same (known, h)
        ])
        (known, h)
