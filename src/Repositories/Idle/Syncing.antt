-- ===== src/Repositories/Idle/Syncing.antt =====
-- internal/controller/repository_controller.go: a whole sync of the heads that makes no call.
use terrakojo.Prelude.{
  ◌≡◌, ap, ◌∙◌, ◌⊎◌, inl, inr, String, true, false, Option, ℤ, List, [], ◌∷◌, ◌==◌, All, keep, map,
  is_empty, ◌⊕◌,
}
use terrakojo.Prelude.Dictionary.{lookup}
use terrakojo.Api.{Repository, Branch}
use terrakojo.Control.{pure, ◌>>=◌}
use terrakojo.Control.Calls.{Call}
use terrakojo.Control.Environment.{Env}
use terrakojo.Control.Errors.{ok}
use terrakojo.Repositories.Heads.{branch_identity, is_legacy, sync_branch_heads}
use terrakojo.Repositories.{group_branches}
use terrakojo.Repositories.Grouping.{IsIn, all-IsIn_self, group_branches-IsGrouped}
use terrakojo.Api.Github.{GithubBranch, PullRequest}
use terrakojo.Sync.{BranchHead, BranchHeads, head_key, snapshot_of}
use terrakojo.Sync.Snapshot.{snapshot_of-AreHeads}
use terrakojo.Text.Decimal.{itoa}
use terrakojo.Text.Sort.{IsDistinct}
use terrakojo.Repositories.Idle.{Fits, HaveObjects, InPlace}
use terrakojo.Repositories.Idle.Groups.{group_at-group_branches, groups-All, keep-filled}
use terrakojo.Repositories.Idle.Stale.{retire_groups-idle, delete_stale-idle}
use terrakojo.Repositories.Idle.Heads.{ensure_heads-idle}

objects-HaveObjects :
    (default_branch : String) (existing : List Branch) (heads : List BranchHead)
    → All
        (λ h.
          ((h.info.ref == default_branch) ≡ true)
          ⊎ ((b : Branch) × IsIn b existing × ((branch_identity b == head_key h) ≡ true)))
        heads
    → HaveObjects default_branch (group_branches [] existing) heads
unfolding keep lookup
objects-HaveObjects default_branch existing [] h = tt
objects-HaveObjects default_branch existing (head ∷ heads) (inl is_default, hs) =
    (inl is_default, objects-HaveObjects default_branch existing heads hs)
objects-HaveObjects default_branch existing (head ∷ heads) (inr (b, held, is_key), hs) = (
  inr (
      ap is_empty (group_at-group_branches (head_key head) [] existing)
      ∙ keep-filled (λ b. branch_identity b == head_key head) b existing held is_key),
  objects-HaveObjects default_branch existing heads hs,
)

sync_branch_heads-idle :
    (repo : Repository) (snapshot : BranchHeads) (existing : List Branch) (env : Env)
    (calls : List Call)
    → ((n : ℤ) → (("pr:" ⊕ itoa n) == repo.spec.default_branch) ≡ false)
    → IsDistinct (map head_key snapshot.heads)
    → InPlace repo snapshot existing
    → sync_branch_heads repo (group_branches [] existing) snapshot env calls ≡ (ok tt, calls)
unfolding sync_branch_heads pure ◌>>=◌
sync_branch_heads-idle repo snapshot existing env calls no_pr distinct (fit, modern, have) =
    let default_branch = repo.spec.default_branch in
    let grouped = group_branches-IsGrouped existing [] existing tt (all-IsIn_self existing) in
    let groups = group_branches [] existing in
    let none_retired = retire_groups-idle default_branch snapshot.external_prs groups env calls (
      groups-All (λ k b. is_legacy default_branch snapshot.external_prs b ≡ false) existing groups
        modern grouped) in
    let (stale, ensured, left) =
      ensure_heads-idle repo no_pr snapshot.heads groups env calls distinct
        (objects-HaveObjects default_branch existing snapshot.heads have)
        (groups-All (Fits default_branch snapshot.heads) existing groups fit grouped) in
    rw (none_retired, ensured) (delete_stale-idle default_branch stale env calls left)

-- Where no pull request's identity is the name of the default branch, and every Branch is of the default branch or
-- as its head of the snapshot wants it, none is of the old form, and every head that is not of the default branch
-- has one, a sync of the heads makes no call.
pub settled_sync_idle :
    (repo : Repository) (branches : List (Option GithubBranch)) (prs : List (Option PullRequest))
    (existing : List Branch) (env : Env) (calls : List Call)
    → ((n : ℤ) → (("pr:" ⊕ itoa n) == repo.spec.default_branch) ≡ false)
    → InPlace repo (snapshot_of repo branches prs) existing
    → sync_branch_heads repo (group_branches [] existing) (snapshot_of repo branches prs) env calls
      ≡ (ok tt, calls)
settled_sync_idle repo branches prs existing env calls no_pr place =
    sync_branch_heads-idle repo (snapshot_of repo branches prs) existing env calls no_pr
      (snapshot_of-AreHeads repo branches prs).1 place
