-- ===== src/Branches/Live.antt =====
-- A branch that is not being deleted and has its finalizer: how a run comes to the commit.
use terrakojo.Prelude.{◌≡◌, Bool, true, false, some, List, [], ◌∷◌}
use terrakojo.Api.{ObjectKey, OwnerReference, Branch, Repository, is_deleted}
use terrakojo.Control.{attempt, gets, ◌>>=◌}
use terrakojo.Control.Errors.{ok}
use terrakojo.Control.Calls.{Call}
use terrakojo.Control.Environment.{Env}
use terrakojo.Control.Client.{get_branch, get_repository}
use terrakojo.Branches.{
  branch_finalizer, reconcile, reconcile_branch, reconcile_live, reconcile_in, with_branch,
  get_repository_for_branch, repository_owner, look_up, found_repository,
}

-- The run reads the branch `branch`, which is not being deleted and has the finalizer, and then its
-- repository `repo`, by the first owner reference that names a Repository.
abbrev pub repository_call : Branch → OwnerReference → Call
repository_call branch owner =
    Call.get_repository (record { name = owner.name; namespace = branch.meta.namespace })

pub record Reads (env : Env) (key : ObjectKey) (branch : Branch) (repo : Repository) : Type 0 where
  pub read : env.branch (Call.get_branch key ∷ []) ≡ ok branch
  pub live : is_deleted branch.meta ≡ false
  pub marked : env.contains_finalizer branch.meta branch_finalizer ≡ true
  pub owner : OwnerReference
  pub owned : repository_owner branch.meta.owner_references ≡ some owner
  pub found : env.repository (repository_call branch owner ∷ Call.get_branch key ∷ []) ≡ ok repo

-- the calls made so far
abbrev pub first_calls : ObjectKey → Branch → OwnerReference → List Call
first_calls key branch owner = repository_call branch owner ∷ Call.get_branch key ∷ []

pub reconcile-reads :
    (env : Env) (manager : Bool) (key : ObjectKey) (branch : Branch) (repo : Repository)
    (r : Reads env key branch repo)
    → reconcile manager key env []
      ≡ reconcile_in manager branch repo env (first_calls key branch r.owner)
unfolding reconcile reconcile_branch reconcile_live get_repository_for_branch get_branch
    get_repository ◌>>=◌ attempt gets
reconcile-reads env manager key branch repo r =
    rw (r.read, with_branch, r.live, r.marked, r.owned, look_up, r.found, found_repository)
