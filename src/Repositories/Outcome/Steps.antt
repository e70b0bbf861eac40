-- ===== src/Repositories/Outcome/Steps.antt =====
-- What a cutover and a look at the new commits make of the Repository.
use terrakojo.Prelude.{
  ◌≡◌, sym, subst, ◌∙◌, inl, inr, String, Bool, Bool-cases, not, ◌&&◌, List, ◌==◌, if◌then◌else◌,
  eq_iff,
}
use terrakojo.Prelude.Dictionary.{Dictionary}
use terrakojo.Api.{Repository, Branch, Condition}
use terrakojo.Control.{pure}
use terrakojo.Control.Calls.{Call, GithubClient}
use terrakojo.Control.Environment.{Env}
use terrakojo.Control.Errors.{ok}
use terrakojo.Control.Runs.{Returns, bind-Returns, pure-Returns}
use terrakojo.Control.Client.{update_repository_status}
use terrakojo.Sync.{collect_default_branch_commits}
use terrakojo.Repositories.Bootstrap.{
  is_bootstrap_reset_requested, cut_over, bootstrap_default_branch_from_current_head,
}
use terrakojo.Repositories.Settled.{
  both_true, Stores, with_conditions, condition_Returns, status_Returns,
}
use terrakojo.Repositories.{process_commits, advance_head, last_of}
use terrakojo.Repositories.Outcome.{CutsOver, Advances}
use terrakojo.Repositories.Outcome.Decisions.{last_of-last}

module _ (env : Env) (stores : Stores env) where
  saved-CutsOver :
      (r : Repository) (head : String) (conditions : List Condition) (changed : Bool)
      (calls : List Call) {later : List Call} (result : Repository)
      → (let updated = with_conditions conditions (cut_over head r) in
          Returns
            (if not changed
                && (updated.status.last_default_branch_head_sha
                    == r.status.last_default_branch_head_sha)
                && (updated.status.last_bootstrap_reset_id == r.status.last_bootstrap_reset_id)
              then pure r
              else update_repository_status updated)
            env
            calls
            result
            later)
      → CutsOver head r result
  unfolding is_bootstrap_reset_requested
  saved-CutsOver r head conditions changed calls result h =
      elim (Bool-cases (
        not changed
        && ((cut_over head r).status.last_default_branch_head_sha
            == r.status.last_default_branch_head_sha)
        && ((cut_over head r).status.last_bootstrap_reset_id
            == r.status.last_bootstrap_reset_id))) [
              | inl same ↦
                  let (a, b) =
                    both_true (not changed)
                      ((cut_over head r).status.last_default_branch_head_sha
                        == r.status.last_default_branch_head_sha)
                      ((cut_over head r).status.last_bootstrap_reset_id
                        == r.status.last_bootstrap_reset_id)
                      same in
                  (
                    r.status.conditions,
                    sym (pure-Returns env _ (rw same at h)).0
                        ∙ sym (λ i. record r {
                          status = record (r.status) {
                            last_default_branch_head_sha =
                                (eq_iff ((cut_over head r).status.last_default_branch_head_sha)
                                    r.status.last_default_branch_head_sha).0
                                  a i;
                            last_bootstrap_reset_id =
                                (eq_iff ((cut_over head r).status.last_bootstrap_reset_id)
                                    r.status.last_bootstrap_reset_id).0
                                  b i;
                          };
                        }),
                  )
              | inr differs ↦
                  (conditions, status_Returns env _ calls result stores (rw differs at h))
            ]

  pub bootstrap_default_branch_from_current_head-CutsOver :
      (r : Repository) (head : String) (calls : List Call) {later : List Call} (result : Repository)
      → Returns (bootstrap_default_branch_from_current_head r head) env calls result later
      → CutsOver head r result
  unfolding bootstrap_default_branch_from_current_head
  bootstrap_default_branch_from_current_head-CutsOver r head calls {later} result h =
      bind-Returns env _ _ h λ outcome mid set rest.
        let (conditions, same) = condition_Returns env _ _ _ _ calls outcome set in
        saved-CutsOver r head conditions outcome.1 mid result (
          subst
            (λ u.
              Returns
                (if not outcome.1
                    && (u.status.last_default_branch_head_sha
                        == r.status.last_default_branch_head_sha)
                    && (u.status.last_bootstrap_reset_id == r.status.last_bootstrap_reset_id)
                  then pure r
                  else update_repository_status u)
                env mid result later)
            (sym same) rest)

  advance_head-Is :
      (r : Repository) (cursor : String) (calls : List Call) {later : List Call}
      (result : Repository)
      → Returns (advance_head r cursor) env calls result later
      → result ≡ (record r { status = record (r.status) { last_default_branch_head_sha = cursor } })
  unfolding advance_head
  advance_head-Is r cursor calls result h =
      elim (Bool-cases (r.status.last_default_branch_head_sha == cursor)) [
        | inl same ↦ sym (pure-Returns env _ (rw same at h)).0 ∙ (λ i. record r {
          status = record (r.status) {
            last_default_branch_head_sha =
                (eq_iff r.status.last_default_branch_head_sha cursor).0 same i;
          };
        })
        | inr differs ↦ status_Returns env _ calls result stores (rw differs at h)
      ]

  pub process_commits-Advances :
      (r : Repository) (gh : GithubClient) (head : String) (groups : Dictionary (List Branch))
      (calls : List Call) {later : List Call} (result : Repository)
      → Returns (process_commits r gh head groups) env calls result later
      → (shas : List String) × (before : List Call) × (after : List Call)
        × (collect_default_branch_commits r gh head env before ≡ (ok shas, after))
        × Advances head shas r result
  unfolding process_commits
  process_commits-Advances r gh head groups calls result h =
      bind-Returns env _ _ h λ shas m collected rest. bind-Returns env _ _ rest λ u m' ensured last.
        (
          shas,
          calls,
          m,
          collected,
          (last_of head shas, last_of-last head shas, advance_head-Is r _ m' result last),
        )
