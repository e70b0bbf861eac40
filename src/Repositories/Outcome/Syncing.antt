-- ===== src/Repositories/Outcome/Syncing.antt =====
-- A sync with GitHub, to its end, as what it makes of the Repository.
use terrakojo.Prelude.{
  ◌≡◌, refl, sym, subst, inl, inr, String, Bool, true, false, Bool-cases, List, ◌==◌, if◌then◌else◌,
  eq_iff,
}
use terrakojo.Prelude.Dictionary.{Dictionary}
use terrakojo.Api.{Repository, Branch}
use terrakojo.Control.{raise, gets, attempt}
use terrakojo.Control.Calls.{Call, GithubClient}
use terrakojo.Control.Environment.{Env}
use terrakojo.Control.Errors.{Result, ok, err}
use terrakojo.Control.Runs.{
  Returns, ask-Returns, bind-Returns, pure-Returns, gets-Returns, wrapping-Returns,
}
use terrakojo.Control.Client.{update_repository, get_github_branch}
use terrakojo.Sync.{fetch_default_branch_head_sha}
use terrakojo.Repositories.Bootstrap.{
  should_bootstrap_from_head, has_matching_id, with_matching_id, ensure_bootstrap_reset_id,
  bootstrap_default_branch_from_current_head,
}
use terrakojo.Repositories.Lifecycle.{with_matching_id_matches}
use terrakojo.Repositories.Settled.{Stores, failure_raises}
use terrakojo.Repositories.{process_head, or_bootstrap_failure, sync_from_github, empty_head}
use terrakojo.Repositories.Outcome.{IsIdentified, IsPending, IsIdle, CutsOver, IsFetched, Follows}
use terrakojo.Repositories.Outcome.Decisions.{
  ne_of_eq-false, by_request, has_matching_id-IsIdentified, with_matching_id-IsIdentified,
}
use terrakojo.Repositories.Outcome.Steps.{
  bootstrap_default_branch_from_current_head-CutsOver, process_commits-Advances,
}

module _ (env : Env) (stores : Stores env) where
  process_head-Follows :
      (r : Repository) (gh : GithubClient) (groups : Dictionary (List Branch))
      (head : Result String) (calls : List Call) {later : List Call} (result : Repository)
      → (b : Bool) → (if b then IsPending r else IsIdle r)
      → Returns (process_head b r gh groups head) env calls result later
      → (given : String) × (head ≡ ok given) × Follows env gh given r result
  unfolding process_head attempt raise
  process_head-Follows r gh groups (err e) calls result true pending h =
      failure_raises env r e calls h
  process_head-Follows r gh groups (err e) calls result false idle h = cc
  process_head-Follows r gh groups (ok head) calls {later} result true pending h =
      elim (Bool-cases (head == "")) [
        | inl missing ↦ failure_raises env r (empty_head r) calls (rw missing at h)
        | inr given ↦
            bind-Returns env (attempt (bootstrap_default_branch_from_current_head r head))
              (or_bootstrap_failure r) (rw given at h)
              λ answer mid attempted rest. (
                head,
                refl,
                inl (pending, ne_of_eq-false _ _ given, by_answer answer mid attempted rest),
              )
      ]
    where
      by_answer :
          (answer : Result Repository) (mid : List Call)
          → Returns
              (attempt (bootstrap_default_branch_from_current_head r head))
              env
              calls
              answer
              mid
          → Returns (or_bootstrap_failure r answer) env mid result later
          → CutsOver head r result
      by_answer (err e) mid attempted rest = failure_raises env r e mid rest
      by_answer (ok u) mid attempted rest =
          subst (λ u. CutsOver head r u) (pure-Returns env _ rest).0
            (bootstrap_default_branch_from_current_head-CutsOver env stores r head calls
              {later = mid} u (cc))
  process_head-Follows r gh groups (ok head) calls result false idle h =
      elim (Bool-cases (head == "")) [
        | inl missing ↦ (
          head,
          refl,
          inr (inl (idle, (eq_iff _ _).0 missing, sym (pure-Returns env _ (rw missing at h)).0)),
        )
        | inr given ↦ (
          head,
          refl,
          inr (
              inr (
                idle,
                ne_of_eq-false _ _ given,
                process_commits-Advances env stores r gh head groups calls result (rw given at h),
              )),
        )
      ]

  fetch_default_branch_head_sha-IsFetched :
      (r : Repository) (gh : GithubClient) (head : String) (calls : List Call) {later : List Call}
      → Returns (fetch_default_branch_head_sha r gh) env calls head later
      → IsFetched env gh r head
  unfolding fetch_default_branch_head_sha get_github_branch
  fetch_default_branch_head_sha-IsFetched r gh head calls h =
      bind-Returns env _ _ h λ branch m answered rest. (
        calls,
        branch,
        (ask-Returns env _ (λ env. env.github_branch) (wrapping-Returns env _ _ answered)).0,
        (pure-Returns env _ rest).0,
      )

  ensure_bootstrap_reset_id-IsIdentified :
      (repo : Repository) (calls : List Call) {later : List Call} (r : Repository)
      → ((calls : List Call) → (env.new_uuid calls == "") ≡ false)
      → Returns (ensure_bootstrap_reset_id repo) env calls r later
      → (has_matching_id r ≡ true) × IsIdentified repo r
  unfolding ensure_bootstrap_reset_id update_repository
  ensure_bootstrap_reset_id-IsIdentified repo calls r given h =
      elim (Bool-cases (has_matching_id repo)) [
        | inl matching ↦
            subst (λ r. (has_matching_id r ≡ true) × IsIdentified repo r)
              (pure-Returns env _ (rw matching at h)).0
              (matching, has_matching_id-IsIdentified repo matching)
        | inr lacks ↦
            bind-Returns env (gets (λ env. env.new_uuid))
              (λ uuid. update_repository (with_matching_id uuid repo)) (rw lacks at h)
              λ uuid mid chosen rest.
                let named =
                  subst (λ u. (u == "") ≡ false) (gets-Returns env _ chosen).0 (given calls) in
                subst (λ r. (has_matching_id r ≡ true) × IsIdentified repo r)
                  (sym (stores.object _ mid r cc))
                  (
                    (with_matching_id_matches uuid repo named).1,
                    with_matching_id-IsIdentified uuid repo named lacks,
                  )
      ]

  -- Where the API server stores what it accepts, and UUIDs are not empty, a sync that returns first sees to the
  -- identifier of the request, where nothing but annotations is changed: a reset request keeps its identifier or gets
  -- one, and without a request there is none. With the object `r` that this gives, and the head that GitHub names:
  -- if the cutover is pending in `r`, because the identifier is not the last that was carried out, or there is neither
  -- a request nor a cursor, the head is not empty and is the new cursor, and the identifier of a request is recorded
  -- with it. If it is not pending, the object stays as it is under an empty head, and otherwise the cursor is the
  -- last of the commits that were collected, or the head where there are none. But for the conditions at a cutover,
  -- nothing else of the object is changed.
  pub sync_from_github-Follows :
      (repo : Repository) (gh : GithubClient) (groups : Dictionary (List Branch))
      (calls : List Call) {later : List Call} (result : Repository)
      → ((calls : List Call) → (env.new_uuid calls == "") ≡ false)
      → sync_from_github repo gh groups env calls ≡ (ok result, later)
      → (r : Repository) × IsIdentified repo r
        × (head : String) × IsFetched env gh r head
        × Follows env gh head r result
  unfolding sync_from_github attempt
  sync_from_github-Follows repo gh groups calls result given h =
      bind-Returns env _ _ h λ r m₁ ensured r₁. bind-Returns env _ _ r₁ λ answer m₂ fetched r₂.
        bind-Returns env _ _ r₂ λ stored m₃ processed r₃.
          bind-Returns env _ _ r₃ λ snapshot m₄ listed r₄. bind-Returns env _ _ r₄ λ u m₅ synced r₅.
            let (matching, identified) =
              ensure_bootstrap_reset_id-IsIdentified repo calls r given ensured in
            let (head, is, follows) =
              process_head-Follows r gh groups answer m₂ stored (should_bootstrap_from_head r)
                (by_request r _ matching refl) processed in
            (
              r,
              identified,
              head,
              fetch_default_branch_head_sha-IsFetched r gh head m₁ {later = m₂} cc,
              subst (λ u. Follows env gh head r u) (pure-Returns env _ r₅).0 follows,
            )
