-- ===== src/Repositories/Idle.antt =====
-- internal/controller/repository_controller.go: a sync of the heads that finds every object in place.
pub mod Groups
pub mod Stale
pub mod Heads
pub mod Syncing
use mathlib.Core.List.{append_assoc, append-nil}
use terrakojo.Prelude.{
  ◌≡◌, ◌≢◌, refl, sym, ap, subst, ◌∙◌, ◌⊎◌, inl, inr, String, Bool, true, false, Bool-cases, Option,
  ℤ, List, [], ◌∷◌, ◌++◌, ◌==◌, if◌then◌else◌, arith, eq_iff, contains, All, keep, map, is_empty,
  ◌⊕◌,
}
use terrakojo.Prelude.Dictionary.{Dictionary, lookup, insert, remove, lookup-insert, lookup-remove}
use terrakojo.Api.{Repository, Branch}
use terrakojo.Control.{pure, ◌>>=◌}
use terrakojo.Control.Calls.{Call}
use terrakojo.Control.Environment.{Env}
use terrakojo.Control.Errors.{ok}
use terrakojo.Repositories.Heads.{
  branch_identity, group_at, is_current, needs_branch_update, ensure_branch_resource, is_legacy,
  retire_legacy, retire_groups, ensure_heads, delete_branches, delete_groups, sync_branch_heads,
}
use terrakojo.Repositories.{group_branches}
use terrakojo.Repositories.Grouping.{
  IsIn, IsGrouped, HaveIdentity, all-IsIn_self, group_branches-IsGrouped,
}
use terrakojo.Api.Github.{GithubBranch, PullRequest}
use terrakojo.Sync.{BranchHead, BranchHeads, head_key, snapshot_of}
use terrakojo.Sync.Snapshot.{snapshot_of-AreHeads}
use terrakojo.Text.Decimal.{itoa}
use terrakojo.Text.Sort.{IsDistinct}

-- the head is one of the list
abbrev pub IsHeadIn : BranchHead → List BranchHead → Type 0
IsHeadIn head [] = ⊥
IsHeadIn head (h ∷ heads) = (h ≡ head) ⊎ IsHeadIn head heads

-- The branch is as a sync wants the object of the head, which is not of the default branch, to be.
abbrev pub IsObjectOf : String → String → BranchHead → Branch → Type 0
IsObjectOf default_branch key head b =
    (head_key head ≡ key)
    × ((head.info.ref == default_branch) ≡ false)
    × (is_current b head ≡ true)
    × (needs_branch_update b head ≡ false)

-- What a branch under a key is in its place for: the default branch, or a head of the list.
abbrev pub Fits : String → List BranchHead → String → Branch → Type 0
Fits default_branch heads key b =
    (key ≡ default_branch)
    ⊎ ((head : BranchHead) × IsHeadIn head heads × IsObjectOf default_branch key head b)

-- every branch of the map is in its place, and none is of the old form
abbrev pub AllFit : String → List BranchHead → Dictionary (List Branch) → Type 0
AllFit default_branch heads groups =
    All (λ (key, bs). All (Fits default_branch heads key) bs) groups

abbrev pub Modern : String → List (ℤ × String) → Dictionary (List Branch) → Type 0
Modern default_branch prs groups =
    All (λ (key, bs). All (λ b. is_legacy default_branch prs b ≡ false) bs) groups

-- the heads that are not of the default branch have a branch under their key
abbrev pub HaveObjects : String → Dictionary (List Branch) → List BranchHead → Type 0
HaveObjects default_branch groups = All (λ h.
    ((h.info.ref == default_branch) ≡ true) ⊎ (is_empty (group_at (head_key h) groups) ≡ false))

-- the branches are in their place for the heads, none is of the old form, and every head has one
abbrev pub InPlace : Repository → BranchHeads → List Branch → Type 0
InPlace repo snapshot existing =
    All (λ b. Fits repo.spec.default_branch snapshot.heads (branch_identity b) b) existing
    × All (λ b. is_legacy repo.spec.default_branch snapshot.external_prs b ≡ false) existing
    × All
        (λ h.
          ((h.info.ref == repo.spec.default_branch) ≡ true)
          ⊎ ((b : Branch) × IsIn b existing × ((branch_identity b == head_key h) ≡ true)))
        snapshot.heads
