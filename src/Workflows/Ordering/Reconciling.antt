-- ===== src/Workflows/Ordering/Reconciling.antt =====
-- internal/controller/workflow_controller.go: the calls of a reconcile in their order.
use terrakojo.Prelude.{
  ◌≡◌, refl, inl, inr, Bool, false, Bool-cases, arith, Option, none, some, List, [], ◌∷◌,
}
use terrakojo.Api.{ObjectKey, Branch, Workflow, is_deleted}
use terrakojo.Control.{pure, raise, ask, gets, attempt, ◌>>=◌}
use terrakojo.Control.Errors.{Result, ok, err}
use terrakojo.Control.Calls.{
  Call, GithubClient, get_branch, get_job, get_workflow, update_workflow, client_for_branch,
}
use terrakojo.Control.Environment.{Env}
use terrakojo.Control.Histories.{Always, Sometime, EndsWithRun, continue-keeps, continue-then}
use terrakojo.Control.Client
use terrakojo.Workflows.{
  job_key, handle_workflow_deletion, mark, Context, finalize, discard, reconcile_live, reconcile_in,
  found_branch, context_of, reconcile_workflow, reconcile, workflow_finalizer,
}
use terrakojo.Workflows.Ordering.{NotThere, Ready, InOrder}
use terrakojo.Workflows.Ordering.Jobs.{with_existing_job-InOrder}
use terrakojo.Workflows.Ordering.Deletion.{
  handle_workflow_deletion-InOrder, handle_workflow_deletion-Released, drop_finalizer-InOrder,
}

module _ (env : Env) (w : Workflow) (retry : EndsWithRun env) where
  -- without a context the branch was found to be gone
  abbrev Gone : {A : Type 0} → Option A → List Call → Type 0
  Gone none calls = Sometime (NotThere env w) calls
  Gone (some a) calls = Unit {0}

  reconcile_live-InOrder :
      (context : Context) (calls : List Call)
      → Gone context calls
      → InOrder env w calls
      → InOrder env w (reconcile_live context w env calls).1
  unfolding reconcile_live discard ◌>>=◌ attempt ask pure Client.delete_workflow Client.get_job
  reconcile_live-InOrder none calls gone h = ((refl, gone), h)
  reconcile_live-InOrder (some (branch, gh)) calls gone h =
      with_existing_job-InOrder env w retry gh branch (env.job (get_job (job_key w) ∷ calls)) _
        (tt, h)

  mark-InOrder :
      (calls : List Call)
      → is_deleted w.meta ≡ false
      → InOrder env w calls
      → InOrder env w (mark w env calls).1
  unfolding mark ◌>>=◌ gets ask pure Client.update_workflow
  mark-InOrder calls live h =
      let meta = env.add_finalizer w.meta workflow_finalizer in
      let marked = update_workflow (record w { meta = meta }) ∷ calls in
      continue-keeps (InOrder env w) env (env.workflow marked) _ marked (λ u e. (inl live, h))
        (inl live, h)

  finalize-InOrder :
      (context : Context) (calls : List Call)
      → Gone context calls
      → InOrder env w calls
      → InOrder env w (finalize context w env calls).1
  unfolding finalize ◌>>=◌
  finalize-InOrder none calls gone h = drop_finalizer-InOrder env w calls (inl gone) h
  finalize-InOrder (some (branch, gh)) calls gone h =
      let handled = handle_workflow_deletion gh w env calls in
      let kept = handle_workflow_deletion-InOrder env w gh calls h in
      continue-keeps (InOrder env w) env handled.0 _ handled.1
        (λ u e.
          drop_finalizer-InOrder env w handled.1
            (handle_workflow_deletion-Released env w gh calls e) kept)
        kept

  reconcile_in-InOrder :
      (context : Context) (calls : List Call)
      → Gone context calls
      → InOrder env w calls
      → InOrder env w (reconcile_in context w env calls).1
  unfolding reconcile_in ◌>>=◌ gets pure
  reconcile_in-InOrder context calls gone h =
      elim (Bool-cases (env.contains_finalizer w.meta workflow_finalizer)) [
        | inl marked ↦ elim (Bool-cases (is_deleted w.meta)) [
          | inl deleted ↦ rw (marked, deleted) (finalize-InOrder context calls gone h)
          | inr live ↦ rw (marked, live) (reconcile_live-InOrder context calls gone h)
        ]
        | inr unmarked ↦ elim (Bool-cases (is_deleted w.meta)) [
          | inl deleted ↦ rw (unmarked, deleted) h
          | inr live ↦ rw (unmarked, live) (mark-InOrder calls live h)
        ]
      ]

  found_branch-keeps :
      (Q : List Call → Type 0) (answer : Result Branch) (calls : List Call)
      → Q calls
      → Q (found_branch answer env calls).1
  found_branch-keeps Q (ok branch) calls h = h
  found_branch-keeps Q (err e) calls h = h

  abbrev branch_key : ObjectKey
  branch_key = record { name = w.spec.branch; namespace = w.meta.namespace }

  found_branch-Gone :
      (answer : Result Branch) (earlier : List Call) (branch : Option Branch)
      → env.branch (get_branch branch_key ∷ earlier) ≡ answer
      → (found_branch answer env (get_branch branch_key ∷ earlier)).0 ≡ ok branch
      → Gone branch (found_branch answer env (get_branch branch_key ∷ earlier)).1
  found_branch-Gone (ok b) earlier none found e = cc
  found_branch-Gone answer earlier (some b) found e = tt
  found_branch-Gone (err x) earlier none found e = elim (Bool-cases (env.is_not_found x)) [
    | inl gone ↦ inl (refl, (x, found, gone))
    | inr other ↦ ground arith
  ]

  context_of-Gone :
      (branch : Option Branch) (calls : List Call) (context : Context)
      → Gone branch calls
      → (context_of branch env calls).0 ≡ ok context
      → Gone context (context_of branch env calls).1
  unfolding context_of ◌>>=◌ ask pure Client.client_for_branch
  context_of-Gone branch calls (some c) gone e = tt
  context_of-Gone none calls none gone e = gone
  context_of-Gone (some branch) calls none gone e =
      let asked = client_for_branch branch ∷ calls in
      continue-then (Gone {A = Branch × GithubClient} none) env (env.github_client asked) _ asked
        none (λ gh found h. cc) e

  context_of-InOrder :
      (branch : Option Branch) (calls : List Call)
      → InOrder env w calls
      → InOrder env w (context_of branch env calls).1
  unfolding context_of ◌>>=◌ ask pure Client.client_for_branch
  context_of-InOrder none calls h = h
  context_of-InOrder (some branch) calls h =
      let asked = client_for_branch branch ∷ calls in
      continue-keeps (InOrder env w) env (env.github_client asked) _ asked (λ gh e. (tt, h)) (tt, h)

  in_branch-InOrder :
      (branch : Option Branch) (calls : List Call)
      → Gone branch calls
      → InOrder env w calls
      → InOrder env w ((context_of branch >>= λ context. reconcile_in context w) env calls).1
  unfolding ◌>>=◌
  in_branch-InOrder branch calls gone h =
      let made = context_of branch env calls in
      let kept = context_of-InOrder branch calls h in
      continue-keeps (InOrder env w) env made.0 _ made.1
        (λ context e.
          reconcile_in-InOrder context made.1 (context_of-Gone branch calls context gone e) kept)
        kept

  reconcile_workflow-InOrder :
      (manager : Bool) (calls : List Call)
      → InOrder env w calls
      → InOrder env w (reconcile_workflow manager w env calls).1
  unfolding reconcile_workflow ◌>>=◌ attempt ask raise Client.get_branch
  reconcile_workflow-InOrder manager calls h =
      let asked = get_branch branch_key ∷ calls in
      let answer = env.branch asked in
      let kept = found_branch-keeps (InOrder env w) answer asked (tt, h) in
      continue-keeps (InOrder env w) env (found_branch answer env asked).0 _
        (found_branch answer env asked).1
        (λ branch e. elim (Bool-cases manager) [
          | inl ready ↦
              rw ready
                (in_branch-InOrder branch _ (found_branch-Gone answer calls branch refl e) kept)
          | inr missing ↦ rw missing kept
        ])
        kept

-- Where the retry on a conflict ends with a run of the update, a reconcile of a workflow that is there makes a check
-- run only for the workflow's commit and when the workflow has no number of one; creates a Job only when
-- the workflow has a number of a check run, or one was made before and its number stored in the status; tells
-- GitHub only of that check run; updates a deleted workflow only when its branch was found to be gone, the
-- workflow has no number of a check run, its job was found complete or gone, or its check run was
-- cancelled; and deletes the workflow only when its branch was found to be gone.
pub reconcile-InOrder :
    (env : Env) (manager : Bool) (key : ObjectKey) (w : Workflow)
    → EndsWithRun env
    → env.workflow (get_workflow key ∷ []) ≡ ok w
    → Always (Ready env w) (reconcile manager key env []).1
unfolding reconcile ◌>>=◌ attempt ask Client.get_workflow
reconcile-InOrder env manager key w retry found =
    rw found (reconcile_workflow-InOrder env w retry manager (get_workflow key ∷ []) (tt, tt))
