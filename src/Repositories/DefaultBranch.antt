-- ===== src/Repositories/DefaultBranch.antt =====
-- The default branch's objects in a sync of the heads (internal/controller/repository_controller.go).
use terrakojo.Prelude.{
  ℤ, String, ◌≡◌, refl, subst, Bool, false, ◌⊕◌, ◌==◌, List, [], ◌∷◌, All, if◌then◌else◌,
  Bool-cases, inl, inr,
}
use terrakojo.Prelude.Dictionary.{Dictionary, remove}
use terrakojo.Text.Decimal.{itoa}
use terrakojo.Api.{Branch, Repository}
use terrakojo.Control.{raise, ◌>>=◌}
use terrakojo.Control.Errors.{branch_migration_pending}
use terrakojo.Control.Environment.{Env}
use terrakojo.Control.Calls.{Call}
use terrakojo.Control.Runs.{Returns, bind-Returns, pure-Returns}
use terrakojo.Control.Keeps.{Makes, Makes-bind, Makes-bind_given, Makes-if, Makes-raise, Makes-pure}
use terrakojo.Repositories.{group_branches}
use terrakojo.Repositories.Grouping.{
  IsGrouped, group_at-HaveIdentity, remove-IsGrouped, group_branches-IsGrouped, all-IsIn_self,
}
use terrakojo.Repositories.Deletions.{
  Spares, ensure-Spares, retire_groups-Spares, retire_groups-IsGrouped, delete_groups-Spares,
  key_other,
}
use terrakojo.Sync.{BranchHead, BranchHeads, head_key}
use terrakojo.Repositories.Heads.{
  group_at, ensure_branch_resource, ensure_heads, delete_groups, sync_branch_heads,
}

module _ (protected : String) (existing : List Branch) (repo : Repository) where
  -- where the heads' keys are not `protected`, but for the skipped heads of the default branch
  ensure_heads-Spares :
      (heads : List BranchHead) (groups : Dictionary (List Branch))
      → repo.spec.default_branch ≡ protected
      → ((n : ℤ) → (("pr:" ⊕ itoa n) == protected) ≡ false)
      → IsGrouped existing groups
      → Makes (Spares protected existing) (ensure_heads repo heads groups)
  unfolding ensure_heads
  ensure_heads-Spares [] groups default no_pr h = Makes-pure _
  ensure_heads-Spares (head ∷ heads) groups default no_pr h =
      elim (Bool-cases (head.info.ref == repo.spec.default_branch)) [
        | inl skipped ↦ rw skipped (ensure_heads-Spares heads groups default no_pr h)
        | inr other ↦ rw other (
            Makes-bind _ _
              (ensure-Spares protected existing repo head (head_key head)
                (group_at (head_key head) groups)
                (group_at-HaveIdentity existing (head_key head) groups h)
                (key_other protected existing head no_pr
                  (subst (λ p. (head.info.ref == p) ≡ false) default other)))
              (λ u.
                ensure_heads-Spares heads (remove (head_key head) groups) default no_pr
                  (remove-IsGrouped existing (head_key head) groups h)))
      ]

  ensure_heads-IsGrouped :
      (heads : List BranchHead) (groups : Dictionary (List Branch)) (env : Env) (calls : List Call)
      {later : List Call} (stale : Dictionary (List Branch))
      → IsGrouped existing groups
      → Returns (ensure_heads repo heads groups) env calls stale later
      → IsGrouped existing stale
  unfolding ensure_heads
  ensure_heads-IsGrouped [] groups env calls stale h e =
      subst (IsGrouped existing) (pure-Returns env _ e).0 h
  ensure_heads-IsGrouped (head ∷ heads) groups env calls stale h e =
      elim (Bool-cases (head.info.ref == repo.spec.default_branch)) [
        | inl skipped ↦ ensure_heads-IsGrouped heads groups env calls stale h (rw skipped at e)
        | inr other ↦
            bind-Returns env (ensure_branch_resource repo head (group_at (head_key head) groups)) _
              (rw other at e)
              λ u m₁ e₁ r₁.
                ensure_heads-IsGrouped heads (remove (head_key head) groups) env m₁ stale
                  (remove-IsGrouped existing (head_key head) groups h) r₁
      ]

-- Where the default branch is not named like a pull request's identity, a sync of the heads with the
-- objects of the repository deletes no Branch of the default branch: every Branch that is deleted is one of the
-- objects and has another identity, if that is so for the calls before.
pub default_branch_spared :
    (repo : Repository) (branches : List Branch) (snapshot : BranchHeads)
    → ((n : ℤ) → (("pr:" ⊕ itoa n) == repo.spec.default_branch) ≡ false)
    → (env : Env) (calls : List Call) → All (Spares repo.spec.default_branch branches) calls
    → All
        (Spares repo.spec.default_branch branches)
        (sync_branch_heads repo (group_branches [] branches) snapshot env calls).1
unfolding sync_branch_heads
default_branch_spared repo branches snapshot no_pr env calls =
    let protected = repo.spec.default_branch in
    let groups = group_branches [] branches in
    let h = group_branches-IsGrouped branches [] branches tt (all-IsIn_self branches) in
    let rest : (retired : Dictionary (List Branch) × Bool)
        → IsGrouped branches retired.0
        → Makes (Spares protected branches) (
            if retired.1
            then raise branch_migration_pending
            else (ensure_heads repo snapshot.heads retired.0 >>= λ stale.
                delete_groups (remove protected stale))) =
      λ retired grouped.
        Makes-if retired.1 _ _ (λ pending. Makes-raise _)
          (λ done.
            Makes-bind_given _ _
              (ensure_heads-Spares protected branches repo snapshot.heads retired.0 refl no_pr
                grouped)
              (record {
                at = λ env {calls} stale e.
                    ensure_heads-IsGrouped protected branches repo snapshot.heads retired.0 env
                      calls stale grouped e;
              })
              (λ stale sorted. delete_groups-Spares protected branches stale sorted)) in
    (Makes-bind_given _ _ (retire_groups-Spares protected branches snapshot.external_prs groups h)
        (record {
          at = λ env {calls} kept e.
              retire_groups-IsGrouped protected branches snapshot.external_prs groups env calls kept
                h e;
        })
        rest).at
      env calls
