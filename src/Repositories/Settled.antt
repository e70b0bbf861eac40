-- ===== src/Repositories/Settled.antt =====
-- A sync that starts the default branch from its head, as a whole run.
use terrakojo.Prelude.{
  String, ◌≡◌, sym, ap, subst, ◌∙◌, Bool, true, false, ◌&&◌, not, ◌==◌, if◌then◌else◌, arith,
  eq_iff, Bool-cases, inl, inr, List, ◌∷◌,
}
use terrakojo.Prelude.Dictionary.{Dictionary}
use terrakojo.Api.{Branch, Repository, Condition, ConditionStatus}
use terrakojo.Control.{pure, raise, gets, attempt}
use terrakojo.Control.Errors.{Error, Result, ok, err}
use terrakojo.Control.Calls.{Call, GithubClient}
use terrakojo.Control.Environment.{Env}
use terrakojo.Control.Runs.{Returns, bind-Returns, pure-Returns, gets-Returns}
use terrakojo.Control.Client.{update_repository, update_repository_status}
use terrakojo.Repositories.Bootstrap.{
  should_bootstrap_from_head, has_matching_id, with_matching_id, ensure_bootstrap_reset_id,
  cut_over, set_repository_condition, bootstrap_default_branch_from_current_head, bootstrap_failure,
}
use terrakojo.Repositories.Lifecycle.{
  with_matching_id_matches, with_matching_id_pending, cut_over_settles,
}
use terrakojo.Repositories.{process_head, or_bootstrap_failure, sync_from_github, empty_head}

-- An update that the API server accepts stores the object as it was written.
pub record Stores (env : Env) : Type 0 where
  pub object :
      (repo : Repository) (calls : List Call) (stored : Repository)
      → env.repository (Call.update_repository repo ∷ calls) ≡ ok stored
      → stored ≡ repo
  pub status :
      (repo : Repository) (calls : List Call) (stored : Repository)
      → env.repository (Call.update_repository_status repo ∷ calls) ≡ ok stored
      → stored ≡ repo

abbrev pub with_conditions : List Condition → Repository → Repository
with_conditions conditions repo = record repo {
  status = record (repo.status) { conditions = conditions };
}

-- writing the same cursor again changes nothing of the decision
same_cursor :
    (head : String) (repo : Repository) (conditions : List Condition)
    → ((cut_over head repo).status.last_default_branch_head_sha
        == repo.status.last_default_branch_head_sha)
      ≡ true
    → ((cut_over head repo).status.last_bootstrap_reset_id == repo.status.last_bootstrap_reset_id)
      ≡ true
    → should_bootstrap_from_head (cut_over head repo) ≡ should_bootstrap_from_head repo
same_cursor head repo conditions h k = λ i. should_bootstrap_from_head (record repo {
  status = record (repo.status) {
    last_default_branch_head_sha = (eq_iff _ _).0 h i;
    last_bootstrap_reset_id = (eq_iff _ _).0 k i;
  };
})

pub both_true : (a b c : Bool) → (a && b && c) ≡ true → (b ≡ true) × (c ≡ true)
both_true a b c h = ground arith

module _ (env : Env) where
  pub condition_Returns :
      (repo : Repository) (status : ConditionStatus) (reason text : String) (calls : List Call)
      {later : List Call} (outcome : Repository × Bool)
      → Returns (set_repository_condition repo status reason text) env calls outcome later
      → (conditions : List Condition) × (with_conditions conditions repo ≡ outcome.0)
  unfolding set_repository_condition pure
  condition_Returns repo status reason text calls outcome h =
      (_, ap (λ o. o.0) (pure-Returns env _ h).0)

  pub failure_raises :
      {P : Type 0} (repo : Repository) (e : Error) (calls : List Call) {later : List Call}
      {result : Repository}
      → Returns (bootstrap_failure repo e) env calls result later
      → P
  unfolding bootstrap_failure raise
  failure_raises repo e calls h =
      bind-Returns env _ _ h λ answer mid attempted rest. absurd (ground arith)

  pub status_Returns :
      (repo : Repository) (calls : List Call) {later : List Call} (result : Repository)
      → Stores env
      → Returns (update_repository_status repo) env calls result later
      → result ≡ repo
  unfolding update_repository_status
  status_Returns repo calls result stores h = stores.status repo calls result cc

  saved_Returns :
      (repo : Repository) (head : String) (conditions : List Condition) (changed : Bool)
      (calls : List Call) {later : List Call} (result : Repository)
      → Stores env
      → (let updated = with_conditions conditions (cut_over head repo) in
          Returns
            (if not changed
                && (updated.status.last_default_branch_head_sha
                    == repo.status.last_default_branch_head_sha)
                && (updated.status.last_bootstrap_reset_id == repo.status.last_bootstrap_reset_id)
              then pure repo
              else update_repository_status updated)
            env
            calls
            result
            later)
      → should_bootstrap_from_head result ≡ should_bootstrap_from_head (cut_over head repo)
  unfolding should_bootstrap_from_head
  saved_Returns repo head conditions changed calls result stores h =
      elim (Bool-cases (
        not changed
        && ((cut_over head repo).status.last_default_branch_head_sha
            == repo.status.last_default_branch_head_sha)
        && ((cut_over head repo).status.last_bootstrap_reset_id
            == repo.status.last_bootstrap_reset_id))) [
              | inl same ↦
                  let (a, b) = both_true _ _ _ same in
                  let (kept, c) = pure-Returns env _ (rw same at h) in
                  sym (ap should_bootstrap_from_head kept)
                  ∙ sym (same_cursor head repo conditions a b)
              | inr differs ↦
                  ap should_bootstrap_from_head
                    (status_Returns _ calls result stores (rw differs at h))
            ]

  cut_over_Returns :
      (repo : Repository) (head : String) (calls : List Call) {later : List Call}
      (result : Repository)
      → Stores env
      → (head == "") ≡ false
      → has_matching_id repo ≡ true
      → Returns (bootstrap_default_branch_from_current_head repo head) env calls result later
      → should_bootstrap_from_head result ≡ false
  unfolding bootstrap_default_branch_from_current_head
  cut_over_Returns repo head calls {later} result stores given matching h =
      bind-Returns env _ _ h λ outcome mid set rest.
        let (conditions, same) = condition_Returns _ _ _ _ calls outcome set in
        saved_Returns repo head conditions outcome.1 mid result stores (
          subst
            (λ r.
              Returns
                (if not outcome.1
                    && (r.status.last_default_branch_head_sha
                        == repo.status.last_default_branch_head_sha)
                    && (r.status.last_bootstrap_reset_id == repo.status.last_bootstrap_reset_id)
                  then pure repo
                  else update_repository_status r)
                env mid result later)
            (sym same) rest)
        ∙ cut_over_settles head repo given matching

  -- a sync in which a cutover is pending returns only if the cutover was done
  process_head-Returns :
      (repo : Repository) (gh : GithubClient) (groups : Dictionary (List Branch))
      (head : Result String) (calls : List Call) {later : List Call} (result : Repository)
      → Stores env
      → has_matching_id repo ≡ true
      → Returns (process_head true repo gh groups head) env calls result later
      → should_bootstrap_from_head result ≡ false
  unfolding process_head attempt
  process_head-Returns repo gh groups (err e) calls result stores matching h =
      failure_raises repo e calls h
  process_head-Returns repo gh groups (ok head) calls {later} result stores matching h =
      elim (Bool-cases (head == "")) [
        | inl missing ↦ failure_raises repo (empty_head repo) calls (rw missing at h)
        | inr given ↦
            bind-Returns env (attempt (bootstrap_default_branch_from_current_head repo head))
              (or_bootstrap_failure repo) (rw given at h)
              λ answer mid attempted rest. by_answer answer mid given attempted rest
      ]
    where
      inner :
          {r : Repository} {mid : List Call}
          → Returns
              (attempt (bootstrap_default_branch_from_current_head repo head))
              env
              calls
              (ok r)
              mid
          → Returns (bootstrap_default_branch_from_current_head repo head) env calls r mid
      inner e = cc

      by_answer :
          (answer : Result Repository) (mid : List Call)
          → (head == "") ≡ false
          → Returns
              (attempt (bootstrap_default_branch_from_current_head repo head))
              env
              calls
              answer
              mid
          → Returns (or_bootstrap_failure repo answer) env mid result later
          → should_bootstrap_from_head result ≡ false
      by_answer (err e) mid given attempted rest = failure_raises repo e mid rest
      by_answer (ok r) mid given attempted rest =
          ap should_bootstrap_from_head (sym (pure-Returns env _ rest).0)
          ∙ cut_over_Returns repo head calls r stores given matching (inner attempted)

  ensured_Returns :
      (repo : Repository) (calls : List Call) {later : List Call} (result : Repository)
      → Stores env
      → ((calls : List Call) → (env.new_uuid calls == "") ≡ false)
      → ((calls : List Call) → (repo.status.last_bootstrap_reset_id == env.new_uuid calls) ≡ false)
      → should_bootstrap_from_head repo ≡ true
      → Returns (ensure_bootstrap_reset_id repo) env calls result later
      → (has_matching_id result ≡ true) × (should_bootstrap_from_head result ≡ true)
  unfolding ensure_bootstrap_reset_id update_repository
  ensured_Returns repo calls result stores given fresh pending h =
      elim (Bool-cases (has_matching_id repo)) [
        | inl matching ↦
            subst (λ r. (has_matching_id r ≡ true) × (should_bootstrap_from_head r ≡ true))
              (pure-Returns env _ (rw matching at h)).0 (matching, pending)
        | inr other ↦
            bind-Returns env (gets (λ env. env.new_uuid))
              (λ uuid. update_repository (with_matching_id uuid repo)) (rw other at h)
              λ uuid mid chosen rest.
                let is_uuid = (gets-Returns env _ chosen).0 in
                let new_one = subst (λ u. (u == "") ≡ false) is_uuid (given calls) in
                let unused =
                  subst (λ u. (repo.status.last_bootstrap_reset_id == u) ≡ false) is_uuid
                    (fresh calls) in
                subst (λ r. (has_matching_id r ≡ true) × (should_bootstrap_from_head r ≡ true))
                  (sym (stores.object _ mid result cc))
                  (
                    (with_matching_id_matches uuid repo new_one).1,
                    with_matching_id_pending uuid repo new_one unused pending,
                  )
      ]

  -- Where the cutover of the default branch is pending, UUIDs are new and the API server stores what it accepts,
  -- a sync that returns leaves no cutover pending.
  pub sync_settles :
      (repo : Repository) (gh : GithubClient) (groups : Dictionary (List Branch))
      (calls : List Call) {later : List Call} (result : Repository)
      → Stores env
      → ((calls : List Call) → (env.new_uuid calls == "") ≡ false)
      → ((calls : List Call) → (repo.status.last_bootstrap_reset_id == env.new_uuid calls) ≡ false)
      → should_bootstrap_from_head repo ≡ true
      → sync_from_github repo gh groups env calls ≡ (ok result, later)
      → should_bootstrap_from_head result ≡ false
  unfolding sync_from_github
  sync_settles repo gh groups calls result stores given fresh pending h =
      bind-Returns env _ _ h λ repo₁ m₁ ensured r₁. bind-Returns env _ _ r₁ λ head m₂ fetched r₂.
        bind-Returns env _ _ r₂ λ repo₂ m₃ processed r₃.
          bind-Returns env _ _ r₃ λ snapshot m₄ listed r₄. bind-Returns env _ _ r₄ λ u m₅ synced r₅.
            let (matching, still) =
              ensured_Returns repo calls repo₁ stores given fresh pending ensured in
            ap should_bootstrap_from_head (sym (pure-Returns env _ r₅).0)
            ∙ process_head-Returns repo₁ gh groups head m₂ repo₂ stores matching
                (rw still at processed)
