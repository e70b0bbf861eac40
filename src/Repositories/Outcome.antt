-- ===== src/Repositories/Outcome.antt =====
-- internal/controller/repository_controller.go: what a sync that returns has made of the Repository.
pub mod Decisions
pub mod Steps
pub mod Syncing
use terrakojo.Prelude.{
  ◌≡◌, ◌≢◌, refl, sym, ap, subst, ◌∙◌, ◌⊎◌, inl, inr, String, Bool, true, false, Bool-cases, not,
  ◌&&◌, Option, List, [], ◌∷◌, ◌++◌, ◌==◌, if◌then◌else◌, arith, eq_iff,
}
use terrakojo.Prelude.Dictionary.{Dictionary, at, at-insert, at-remove}
use terrakojo.Api.{Repository, Branch, Condition}
use terrakojo.Api.Github.{GithubBranch}
use terrakojo.Control.{pure, raise, gets, attempt}
use terrakojo.Control.Calls.{Call, GithubClient}
use terrakojo.Control.Environment.{Env}
use terrakojo.Control.Errors.{Result, ok, err}
use terrakojo.Control.Runs.{
  Returns, ask-Returns, bind-Returns, pure-Returns, gets-Returns, wrapping-Returns,
}
use terrakojo.Control.Client.{update_repository, update_repository_status, get_github_branch}
use terrakojo.Sync.{head_sha, fetch_default_branch_head_sha, collect_default_branch_commits}
use terrakojo.Repositories.Bootstrap.{
  reset, reset_id, is_bootstrap_reset_requested, should_bootstrap_from_head, has_matching_id,
  with_matching_id, ensure_bootstrap_reset_id, cut_over, bootstrap_default_branch_from_current_head,
}
use terrakojo.Repositories.Lifecycle.{with_matching_id_matches}
use terrakojo.Repositories.Settled.{
  Stores, with_conditions, condition_Returns, failure_raises, status_Returns,
}
use terrakojo.Repositories.{
  process_head, process_commits, advance_head, last_of, or_bootstrap_failure, sync_from_github,
  empty_head,
}

abbrev pub annotation : String → Repository → String
annotation key repo = at key repo.meta.annotations

abbrev pub IsRequested : Repository → Type 0
IsRequested repo = annotation "terrakojo.io/bootstrap-reset" repo ≡ "true"

abbrev pub request_id : Repository → String
request_id = annotation "terrakojo.io/bootstrap-reset-id"

-- `r` is the object with the identifier of its request: a request has one, and keeps it if it had one; where there
-- is no request there is none. Nothing but annotations is changed, and the request is as it was.
abbrev pub IsIdentified : Repository → Repository → Type 0
IsIdentified repo r =
    (r ≡ (record repo { meta = record (repo.meta) { annotations = r.meta.annotations } }))
    × (annotation "terrakojo.io/bootstrap-reset" r ≡ annotation "terrakojo.io/bootstrap-reset" repo)
    × ((IsRequested repo
          × (request_id r ≢ "")
          × ((request_id repo ≡ "") ⊎ (request_id r ≡ request_id repo)))
        ⊎ ((IsRequested repo → ⊥) × (request_id r ≡ "")))

-- a request whose identifier was not the last to be carried out, or, without a request, no cursor yet
abbrev pub IsPending : Repository → Type 0
IsPending r =
    (IsRequested r × (r.status.last_bootstrap_reset_id ≢ request_id r))
    ⊎ ((IsRequested r → ⊥) × (r.status.last_default_branch_head_sha ≡ ""))

abbrev pub IsIdle : Repository → Type 0
IsIdle r =
    (IsRequested r × (r.status.last_bootstrap_reset_id ≡ request_id r))
    ⊎ ((IsRequested r → ⊥) × (r.status.last_default_branch_head_sha ≢ ""))

-- the cursor is the head, the identifier is that of the request, if there is one, and but for the conditions nothing
-- else is changed
abbrev pub CutsOver : String → Repository → Repository → Type 0
CutsOver head r result =
    (conditions : List Condition) × (result ≡ (record r {
      status = record (r.status) {
        conditions = conditions;
        last_default_branch_head_sha = head;
        last_bootstrap_reset_id =
            if annotation "terrakojo.io/bootstrap-reset" r == "true"
            then request_id r
            else r.status.last_bootstrap_reset_id;
      };
    }))

-- the cursor is the last of the commits, or the head where there are none, and nothing else is changed
abbrev pub Advances : String → List String → Repository → Repository → Type 0
Advances head shas r result =
    (cursor : String) × (((shas ≡ []) × (cursor ≡ head))
      ⊎ ((before : List String) × (shas ≡ before ++ cursor ∷ [])))
    × (result ≡ (record r { status = record (r.status) { last_default_branch_head_sha = cursor } }))

-- the head that GitHub names for the default branch
abbrev pub IsFetched : Env → GithubClient → Repository → String → Type 0
IsFetched env gh r head =
    (earlier : List Call) × (branch : Option GithubBranch) × (env.github_branch
        (Call.get_github_branch gh r.spec.owner r.spec.name r.spec.default_branch ∷ earlier)
      ≡ ok branch)
    × (head_sha branch ≡ head)

-- What the identified object becomes, by the head that was fetched.
abbrev pub Follows : Env → GithubClient → String → Repository → Repository → Type 0
Follows env gh head r result =
    (IsPending r × (head ≢ "") × CutsOver head r result)
    ⊎ (IsIdle r × (head ≡ "") × (result ≡ r))
    ⊎ (IsIdle r
        × (head ≢ "")
        × ((shas : List String) × (before : List Call) × (after : List Call)
            × (collect_default_branch_commits r gh head env before ≡ (ok shas, after))
            × Advances head shas r result))
