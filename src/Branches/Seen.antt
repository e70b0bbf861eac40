-- ===== src/Branches/Seen.antt =====
-- A run for a commit that was handled before (internal/controller/branch_controller.go).
use terrakojo.Prelude.{◌≡◌, Bool, ◌&&◌, ◌==◌, List, [], ◌∷◌, if◌then◌else◌, arith, eq_refl}
use terrakojo.Prelude.Dictionary.{at}
use terrakojo.Api.{ObjectKey, Branch, Repository, Workflow, key_of}
use terrakojo.Control.{pure, ignore_not_found, ◌>>=◌}
use terrakojo.Control.Errors.{ok}
use terrakojo.Control.Calls.{Call}
use terrakojo.Control.Environment.{Env}
use terrakojo.Control.Client.{list_workflows, delete_branch}
use terrakojo.Branches.{
  last_sha, finished_phases, all_in, all_workflows_completed, discard, keep_or_discard, reconcile,
  reconcile_in,
}
use terrakojo.Branches.Live.{Reads, first_calls, reconcile-reads}

-- Deleting the branch is one call, whatever the answer.
discard_calls :
    (branch : Branch) (env : Env) (calls : List Call)
    → (discard branch env calls).1 ≡ Call.delete_branch (key_of branch.meta) ∷ calls
unfolding discard ignore_not_found delete_branch pure ◌>>=◌
discard_calls branch env calls = ground arith

keep_or_discard_calls :
    (is_default : Bool) (workflows : List Workflow) (branch : Branch) (env : Env)
    (calls : List Call)
    → (keep_or_discard is_default workflows branch env calls).1 ≡ (
        if is_default && all_in finished_phases workflows
        then Call.delete_branch (key_of branch.meta) ∷ calls
        else calls)
unfolding keep_or_discard all_workflows_completed pure
keep_or_discard_calls is_default [] branch env calls =
    ground (arith, discard_calls branch env calls)
keep_or_discard_calls is_default (w ∷ ws) branch env calls =
    ground (arith, discard_calls branch env calls)

abbrev pub list_call : Branch → Call
list_call branch = Call.list_workflows branch.meta.namespace branch.meta.uid

-- Where the branch carries the mark of its own commit, the run makes no call after the list of its
-- workflows but this one: on the default branch, once every workflow is in a final phase (none is left, or all are
-- done), the Branch is deleted.
pub seen_commit_calls :
    (env : Env) (manager : Bool) (key : ObjectKey) (branch : Branch) (repo : Repository)
    (workflows : List Workflow) (r : Reads env key branch repo)
    → at last_sha branch.meta.annotations ≡ branch.spec.sha
    → env.workflows (list_call branch ∷ first_calls key branch r.owner) ≡ ok workflows
    → (reconcile manager key env []).1 ≡ (
        if (branch.spec.name == repo.spec.default_branch) && all_in finished_phases workflows
        then Call.delete_branch (key_of branch.meta)
          ∷ list_call branch
          ∷ first_calls key branch r.owner
        else list_call branch ∷ first_calls key branch r.owner)
unfolding reconcile_in list_workflows ◌>>=◌
seen_commit_calls env manager key branch repo workflows r seen listed =
    rw (reconcile-reads env manager key branch repo r) (
      rw (listed, seen, eq_refl)
        (keep_or_discard_calls (branch.spec.name == repo.spec.default_branch) workflows branch env
          _))
