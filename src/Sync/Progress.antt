-- ===== src/Sync/Progress.antt =====
-- Whether there is something to process after a look at the default branch's head.
use terrakojo.Prelude.{
  String, ◌≡◌, refl, sym, ap, ◌∙◌, Bool, true, false, ◌||◌, ◌==◌, List, [], ◌∷◌, is_empty,
  if◌then◌else◌, arith, eq_iff, Bool-cases, inl, inr,
}
use terrakojo.Api.{Repository}
use terrakojo.Api.Github.{CompareResult}
use terrakojo.Control.{pure, raise, attempt}
use terrakojo.Control.Errors.{Error, Result, ok, err}
use terrakojo.Control.Calls.{Call, GithubClient}
use terrakojo.Control.Environment.{Env}
use terrakojo.Control.Client.{compare_commits}
use terrakojo.Control.Runs.{Returns, bind-Returns, pure-Returns}
use terrakojo.Sync.{
  commit_shas, no_commits, head_if_base_missing, collect_compared, collect_default_branch_commits,
}

module _ (env : Env) (repo : Repository) (gh : GithubClient) (head : String) where
  head_if_base_missing_some :
      (e : Error) (calls : List Call) {later : List Call} (shas : List String)
      → Returns (head_if_base_missing repo gh head e) env calls shas later
      → is_empty shas ≡ false
  unfolding head_if_base_missing raise
  head_if_base_missing_some e calls {later} shas h =
      bind-Returns env _ _ h λ missing mid asked rest. by_answer missing mid rest
    where
      by_answer :
          (missing : Bool) (mid : List Call)
          → Returns (if missing then pure (head ∷ []) else raise e) env mid shas later
          → is_empty shas ≡ false
      by_answer true mid r = sym (ap is_empty (pure-Returns env _ r).0)
      by_answer false mid r = absurd (ground arith)

  collect_compared_some :
      (answer : Result CompareResult) (calls : List Call) {later : List Call} (shas : List String)
      → Returns (collect_compared repo gh head answer) env calls shas later
      → is_empty shas ≡ false
  unfolding collect_compared
  collect_compared_some (err e) calls shas h = head_if_base_missing_some e calls shas h
  collect_compared_some (ok result) calls shas h =
      elim (Bool-cases (is_empty (commit_shas result.commits))) [
        | inl none_new ↦ elim (Bool-cases (result.status == "behind")) [
          | inl behind ↦ sym (ap is_empty (pure-Returns env _ (rw (none_new, behind) at h)).0)
          | inr other ↦
              head_if_base_missing_some (no_commits repo.status.last_default_branch_head_sha head)
                calls shas (rw (none_new, other) at h)
        ]
        | inr new ↦ sym (ap is_empty (pure-Returns env _ (rw new at h)).0) ∙ new
      ]

  other_than : (last : String) → (last == "") ≡ true → (head == "") ≡ false → (last == head) ≡ false
  other_than last first given = ground (arith, eq_iff last "", eq_iff last head, eq_iff head "")

  -- A look at the commits that returns gives none exactly if the branch has no head or the head is
  -- the one that was processed last: a head that has moved, also backwards or after the loss of the old one, always gives commits.
  pub collect_default_branch_commits_progress :
      (calls : List Call) {later : List Call} (shas : List String)
      → collect_default_branch_commits repo gh head env calls ≡ (ok shas, later)
      → is_empty shas ≡ (head == "" || repo.status.last_default_branch_head_sha == head)
  unfolding collect_default_branch_commits
  collect_default_branch_commits_progress calls shas h = elim (Bool-cases (head == "")) [
    | inl missing ↦ sym (ap is_empty (pure-Returns env _ (rw missing at h)).0) ∙ rw missing refl
    | inr given ↦ elim (Bool-cases (repo.status.last_default_branch_head_sha == "")) [
      | inl first ↦
          sym (ap is_empty (pure-Returns env _ (rw (given, first) at h)).0)
          ∙ rw given (sym (other_than repo.status.last_default_branch_head_sha first given))
      | inr later ↦ elim (Bool-cases (repo.status.last_default_branch_head_sha == head)) [
        | inl same ↦
            sym (ap is_empty (pure-Returns env _ (rw (given, later, same) at h)).0)
            ∙ rw (given, same) refl
        | inr moved ↦
            bind-Returns env
              (attempt (
                compare_commits gh repo.spec.owner repo.spec.name
                  repo.status.last_default_branch_head_sha head))
              (collect_compared repo gh head) (rw (given, later, moved) at h)
              λ answer mid asked rest.
                collect_compared_some answer mid shas rest ∙ rw (given, moved) refl
      ]
    ]
  ]
