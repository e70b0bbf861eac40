-- ===== src/Workflows/Ordering/Deletion.antt =====
-- internal/controller/workflow_controller.go: what comes before the finalizer is removed.
use terrakojo.Prelude.{
  ◌∙◌, ◌≡◌, refl, ap, ◌⊎◌, inl, inr, Bool, true, false, Bool-cases, arith, List, ◌∷◌, is_zero,
  if◌then◌else◌,
}
use terrakojo.Api.{Workflow, Job}
use terrakojo.Control.{Ctl, pure, ask, gets, attempt, ◌>>=◌}
use terrakojo.Control.Errors.{Result, ok, err}
use terrakojo.Control.Calls.{Call, GithubClient, get_job, update_workflow}
use terrakojo.Control.Environment.{Env}
use terrakojo.Control.Histories.{Sometime, continue-keeps, continue-then}
use terrakojo.Control.Client
use terrakojo.Workflows.Phases.{check_run_status, phase_cancelled}
use terrakojo.Workflows.{
  job_key, job_completed, handle_workflow_deletion, drop_finalizer, workflow_finalizer,
}
use terrakojo.Workflows.Ordering.{FindsCompleted, Cancels, Released, InOrder}

module _ (env : Env) (w : Workflow) where
  -- the look at the job itself makes no further call
  job_completed-keeps :
      (Q : List Call → Type 0) (answer : Result Job) (calls : List Call)
      → Q calls
      → Q (job_completed answer env calls).1
  job_completed-keeps Q (ok job) calls h = h
  job_completed-keeps Q (err e) calls h = h

  job_completed-Finds :
      (answer : Result Job) (earlier : List Call)
      → env.job (get_job (job_key w) ∷ earlier) ≡ answer
      → (job_completed answer env (get_job (job_key w) ∷ earlier)).0 ≡ ok true
      → FindsCompleted env w (get_job (job_key w)) earlier
  job_completed-Finds (ok job) earlier found e = (refl, inl (job, found, cc))
  job_completed-Finds (err x) earlier found e = elim (Bool-cases (env.is_not_found x)) [
    | inl gone ↦ (refl, inr (x, found, gone))
    | inr other ↦ ground arith
  ]

  -- the check run is cancelled unless it is completed
  abbrev cancel_unless : GithubClient → Bool → Ctl (Unit {0})
  cancel_unless gh completed =
      if completed
      then pure tt
      else Client.update_check_run gh w.spec.owner w.spec.repository w.status.check_run_id
          w.status.check_run_name (check_run_status phase_cancelled).0
          (check_run_status phase_cancelled).1

  cancel_unless-InOrder :
      (gh : GithubClient) (completed : Bool) (calls : List Call)
      → InOrder env w calls
      → InOrder env w (cancel_unless gh completed env calls).1
  unfolding pure ask Client.update_check_run
  cancel_unless-InOrder gh true calls h = h
  cancel_unless-InOrder gh false calls h = (inl refl, h)

  -- the workflow's check run needs no cancellation, by the calls
  abbrev Settled : List Call → Type 0
  Settled calls = Sometime (FindsCompleted env w) calls ⊎ Sometime (Cancels env w) calls

  cancel_unless-Settled :
      (gh : GithubClient) (completed : Bool) (calls : List Call)
      → (completed ≡ true → Sometime (FindsCompleted env w) calls)
      → (cancel_unless gh completed env calls).0 ≡ ok tt
      → Settled (cancel_unless gh completed env calls).1
  unfolding pure ask Client.update_check_run check_run_status
  cancel_unless-Settled gh true calls finds e = inl (finds refl)
  cancel_unless-Settled gh false calls finds e = inr (inl (refl, refl, refl, e))

  pub handle_workflow_deletion-InOrder :
      (gh : GithubClient) (calls : List Call)
      → InOrder env w calls
      → InOrder env w (handle_workflow_deletion gh w env calls).1
  unfolding handle_workflow_deletion ◌>>=◌ attempt ask pure Client.get_job
  handle_workflow_deletion-InOrder gh calls h = elim (Bool-cases (is_zero w.status.check_run_id)) [
    | inl zero ↦ rw zero h
    | inr nonzero ↦
        let asked = get_job (job_key w) ∷ calls in
        let kept = job_completed-keeps (InOrder env w) (env.job asked) asked (tt, h) in
        rw nonzero (
          continue-keeps (InOrder env w) env (job_completed (env.job asked) env asked).0 _
            (job_completed (env.job asked) env asked).1
            (λ completed e. cancel_unless-InOrder gh completed _ kept) kept)
  ]

  pub handle_workflow_deletion-Released :
      (gh : GithubClient) (calls : List Call)
      → (handle_workflow_deletion gh w env calls).0 ≡ ok tt
      → Released env w (handle_workflow_deletion gh w env calls).1
  unfolding handle_workflow_deletion ◌>>=◌ attempt ask pure Client.get_job
  handle_workflow_deletion-Released gh calls = elim (Bool-cases (is_zero w.status.check_run_id)) [
    | inl zero ↦ rw zero λ e. inr (inl refl)
    | inr nonzero ↦ rw nonzero λ e.
        let asked = get_job (job_key w) ∷ calls in
        let settled =
          continue-then Settled env (job_completed (env.job asked) env asked).0 (cancel_unless gh)
            (job_completed (env.job asked) env asked).1 tt
            (λ completed is_completed. cancel_unless-Settled gh completed _ (λ done.
              job_completed-keeps (Sometime (FindsCompleted env w)) (env.job asked) asked
                (inl (job_completed-Finds (env.job asked) calls refl (is_completed ∙ ap ok done)))))
            e in
        elim settled [ inl finds ↦ inr (inr (inl finds)) | inr cancels ↦ inr (inr (inr cancels)) ]
  ]

  pub drop_finalizer-InOrder :
      (calls : List Call)
      → Released env w calls
      → InOrder env w calls
      → InOrder env w (drop_finalizer w env calls).1
  unfolding drop_finalizer ◌>>=◌ gets ask pure Client.update_workflow
  drop_finalizer-InOrder calls released h =
      let meta = env.remove_finalizer w.meta workflow_finalizer in
      let dropped = update_workflow (record w { meta = meta }) ∷ calls in
      continue-keeps (InOrder env w) env (env.workflow dropped) _ dropped (λ u e. (inr released, h))
        (inr released, h)
