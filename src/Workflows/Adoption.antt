-- ===== src/Workflows/Adoption.antt =====
-- A Job of the workflow's name that is there already (internal/controller/workflow_controller.go).
use terrakojo.Prelude.{
  String, ℤ, ◌≡◌, ◌∙◌, refl, ap, inl, inr, true, Bool-cases, eq_iff, Option, none, some, List, ◌∷◌,
  if◌then◌else◌,
}
use terrakojo.Api.{Job, OwnerReference, Workflow}
use terrakojo.Control.{Next, gets, attempt, pure, raise, ◌>>=◌}
use terrakojo.Control.Errors.{Error, Result, ok, err}
use terrakojo.Control.Calls.{Call, GithubClient}
use terrakojo.Control.Environment.{Env}
use terrakojo.Control.Client.{get_job}
use terrakojo.Workflows.{job_key, is_controlled_by, not_controlled, report, adopt, with_job}

-- the controller that the Job names has the workflow's UID
abbrev pub IsOwned : Env → Workflow → Job → Type 0
IsOwned env workflow job =
    (ref : OwnerReference) × (env.get_controller_of job.meta ≡ some ref)
    × (ref.uid ≡ workflow.meta.uid)

-- What comes of a Job of the name: the workflow's own is reported; of another's, and where there is none that can
-- be read, the read is the last call, and the run ends with an error, or is to be tried again where the
-- Job is gone.
pub data Comes (env : Env) (gh : GithubClient) (workflow : Workflow) (id : ℤ) (name : String)
    (asked : List Call) (run : Result Next × List Call) : Type 0 where
  adopted :
      (job : Job)
      → env.job asked ≡ ok job
      → IsOwned env workflow job
      → run ≡ report gh workflow job id name env asked
      → Comes env gh workflow id name asked run
  refused :
      (job : Job)
      → env.job asked ≡ ok job
      → (IsOwned env workflow job → ⊥)
      → run ≡ (err (not_controlled job workflow), asked)
      → Comes env gh workflow id name asked run
  unread :
      (e : Error)
      → env.job asked ≡ err e
      → run ≡ (
        if env.is_not_found e then ok (record { requeue = true; requeue_after = 0 }) else err e,
        asked,
      )
      → Comes env gh workflow id name asked run

controlled-IsOwned :
    (env : Env) (workflow : Workflow) (job : Job)
    → is_controlled_by workflow (env.get_controller_of job.meta) ≡ true
    → IsOwned env workflow job
controlled-IsOwned env workflow job h = by_ref (env.get_controller_of job.meta) refl h
  where
    by_ref :
        (o : Option OwnerReference)
        → env.get_controller_of job.meta ≡ o
        → is_controlled_by workflow o ≡ true
        → IsOwned env workflow job
    by_ref none e h = cc
    by_ref (some ref) e h = (ref, e, (eq_iff ref.uid workflow.meta.uid).0 h)

IsOwned-controlled :
    (env : Env) (workflow : Workflow) (job : Job)
    → IsOwned env workflow job
    → is_controlled_by workflow (env.get_controller_of job.meta) ≡ true
IsOwned-controlled env workflow job (ref, e, same) =
    ap (is_controlled_by workflow) e ∙ (eq_iff ref.uid workflow.meta.uid).1 same

module _ (env : Env) (gh : GithubClient) (workflow : Workflow) (id : ℤ) (name : String) where
  adopt-Comes :
      (asked : List Call) (answer : Result Job)
      → env.job asked ≡ answer
      → Comes env gh workflow id name asked (adopt gh workflow id name answer env asked)
  unfolding adopt gets pure raise ◌>>=◌
  adopt-Comes asked (ok job) read =
      elim (Bool-cases (is_controlled_by workflow (env.get_controller_of job.meta))) [
        | inl controlled ↦
            adopted job read (controlled-IsOwned env workflow job controlled) (rw controlled refl)
        | inr other ↦
            refused job read
              (λ owned. let controlled = IsOwned-controlled env workflow job owned in cc)
              (rw other refl)
      ]
  adopt-Comes asked (err e) read = elim (Bool-cases (env.is_not_found e)) [
    | inl gone ↦ unread e read (rw gone refl)
    | inr other ↦ unread e read (rw other refl)
  ]

  -- Where the Job cannot be created because one of the name exists, that one is read. If its controller has the
  -- workflow's UID, it is reported as the workflow's own; if it is read and its controller does not, the run ends
  -- with an error that says so; if it cannot be read, the run ends with that error, or, where the Job is
  -- gone, is to be tried again. In the last three cases the read is the last call: neither GitHub nor any object
  -- is written.
  pub existing_job-Comes :
      (e : Error) (calls : List Call)
      → env.is_already_exists e ≡ true
      → Comes env gh workflow id name
          (Call.get_job (job_key workflow) ∷ calls)
          (with_job gh workflow id name (err e) env calls)
  unfolding with_job get_job gets attempt ◌>>=◌
  existing_job-Comes e calls exists =
      rw exists (adopt-Comes (Call.get_job (job_key workflow) ∷ calls) _ refl)
