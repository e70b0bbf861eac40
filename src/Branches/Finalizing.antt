-- ===== src/Branches/Finalizing.antt =====
-- The end of a run for a branch that is being deleted (internal/controller/branch_controller.go).
use terrakojo.Prelude.{String, ◌≡◌, refl, subst, sym, Bool, true, List, [], ◌∷◌, is_empty, arith}
use terrakojo.Api.{ObjectKey, Branch, Workflow, is_deleted}
use terrakojo.Control.{finished, pure, gets, attempt, ◌>>=◌}
use terrakojo.Control.Errors.{ok}
use terrakojo.Control.Calls.{Call}
use terrakojo.Control.Environment.{Env}
use terrakojo.Control.Runs.{Returns, bind-Returns, pure-Returns}
use terrakojo.Control.Client.{list_workflows, update_branch, get_branch}
use terrakojo.Branches.{
  branch_finalizer, finalize, delete_workflows_for_branch, reconcile, reconcile_branch, with_branch,
  release, reconcile_branch,
}

-- `deleted` is the branch with the list of its workflows emptied in the status.
abbrev pub emptied : Branch → Branch
emptied branch = record branch { status = record (branch.status) { workflows = [] } }

-- The newest call wrote the branch without its finalizer, and the call before it listed the
-- branch's workflows and found none.
abbrev pub EndsFinalized : Env → Branch → List Call → Type 0
EndsFinalized env branch calls =
    (earlier : List Call) × (calls
      ≡ Call.update_branch
          (record branch { meta = env.remove_finalizer branch.meta branch_finalizer })
        ∷ Call.list_workflows branch.meta.namespace branch.meta.uid
        ∷ earlier)
    × (env.workflows (Call.list_workflows branch.meta.namespace branch.meta.uid ∷ earlier) ≡ ok [])

delete_workflows_for_branch-emptied :
    (env : Env) (branch branch' : Branch) (calls : List Call) {later : List Call}
    → Returns (delete_workflows_for_branch branch) env calls branch' later
    → emptied branch ≡ branch'
unfolding delete_workflows_for_branch
delete_workflows_for_branch-emptied env branch branch' calls e =
    bind-Returns env _ _ e λ ws mid listed rest.
      bind-Returns env _ _ rest λ u mid' deleted last. (pure-Returns env _ last).0

eq-nil_of_is_empty : (ws : List Workflow) → is_empty ws ≡ true → ws ≡ []
eq-nil_of_is_empty [] e = refl
eq-nil_of_is_empty (w ∷ ws) e = cc

release_ends :
    (env : Env) (branch : Branch) (remaining : List Workflow) (calls : List Call)
    {later : List Call}
    → Returns (release branch remaining) env calls finished later
    → (remaining ≡ [])
      × (Call.update_branch
              (record branch { meta = env.remove_finalizer branch.meta branch_finalizer })
            ∷ calls
          ≡ later)
unfolding release pure gets update_branch ◌>>=◌
release_ends env branch [] calls e = (refl, ground arith)
release_ends env branch (w ∷ ws) calls e = absurd (ground arith)

list_workflows-Returns :
    (env : Env) (namespace uid : String) (calls : List Call) {later : List Call}
    {ws : List Workflow}
    → Returns (list_workflows namespace uid) env calls ws later
    → (env.workflows (Call.list_workflows namespace uid ∷ calls) ≡ ok ws)
      × (Call.list_workflows namespace uid ∷ calls ≡ later)
unfolding list_workflows
list_workflows-Returns env namespace uid calls e = (cc, cc)

finalize_ends :
    (env : Env) (branch : Branch) (calls : List Call) {later : List Call}
    → Returns (finalize branch) env calls finished later
    → EndsFinalized env (emptied branch) later
unfolding finalize
finalize_ends env branch calls {later} e = bind-Returns env _ _ e λ branch' mid emptied_it rest.
    bind-Returns env _ _ rest λ ws mid' listed last.
      let same = delete_workflows_for_branch-emptied env branch branch' calls emptied_it in
      let (answer, asked) = list_workflows-Returns env _ _ mid listed in
      let (none', written) = release_ends env branch' ws mid' last in
      subst (λ b. EndsFinalized env b later) (sym same) (mid, cc, cc)

-- Where the branch that was read is being deleted and has the finalizer, a run that finishes has
-- written the branch without its finalizer in its last call, directly after a list of the branch's workflows that
-- came back empty.
pub finalizer_last :
    (env : Env) (manager : Bool) (key : ObjectKey) (branch : Branch) {later : List Call}
    → env.branch (Call.get_branch key ∷ []) ≡ ok branch
    → is_deleted branch.meta ≡ true
    → env.contains_finalizer branch.meta branch_finalizer ≡ true
    → reconcile manager key env [] ≡ (ok finished, later)
    → EndsFinalized env (emptied branch) later
unfolding reconcile reconcile_branch get_branch ◌>>=◌ attempt gets
finalizer_last env manager key branch read deleted marked e =
    finalize_ends env branch (Call.get_branch key ∷ [])
      (rw (read, with_branch, deleted, marked) at e)
