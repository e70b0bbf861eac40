-- ===== src/Repositories/Bootstrap.antt =====
-- The cutover point of the default branch (internal/controller/repository_controller.go): a new
-- repository starts from the current head, and an annotation requests to start again. The request gets an identifier,
-- which is stored with the new cursor, so that it is carried out once.
use terrakojo.Prelude.{String, Bool, ◌||◌, ◌&&◌, not, ◌⊕◌, ◌==◌, if◌then◌else◌}
use terrakojo.Prelude.Dictionary.{insert, remove, at}
use terrakojo.Api.{Condition, ConditionStatus, condition_true, condition_false, Repository}
use terrakojo.Control.{Ctl, pure, raise, gets, attempt, ◌>>=◌, ◌>>◌}
use terrakojo.Control.Errors.{Error, ok}
use terrakojo.Control.Client.{update_repository, update_repository_status}

abbrev pub reset : String
reset = "terrakojo.io/bootstrap-reset"

abbrev pub reset_id : String
reset_id = "terrakojo.io/bootstrap-reset-id"

abbrev pub reset_requested : String
reset_requested = "true"

abbrev pub reset_done : String
reset_done = "done"

unfoldable pub is_bootstrap_reset_requested : Repository → Bool
is_bootstrap_reset_requested repo = at reset repo.meta.annotations == reset_requested

unfoldable pub should_bootstrap_from_head : Repository → Bool
unfolding is_bootstrap_reset_requested
should_bootstrap_from_head repo =
    let id = at reset_id repo.meta.annotations in
    if is_bootstrap_reset_requested repo
    then id == "" || not (repo.status.last_bootstrap_reset_id == id)
    else repo.status.last_default_branch_head_sha == ""

-- the request has an identifier exactly if there is a request
abbrev pub has_matching_id : Repository → Bool
has_matching_id repo =
    let id = at reset_id repo.meta.annotations in
    let requested = is_bootstrap_reset_requested repo in
    (requested && not (id == "")) || (not requested && id == "")

-- the repository with a fresh identifier for a request, or without the one that a cancelled request has left
abbrev pub with_matching_id : String → Repository → Repository
with_matching_id uuid repo = record repo {
  meta = record (repo.meta) {
    annotations =
        if is_bootstrap_reset_requested repo
        then insert reset_id uuid repo.meta.annotations
        else remove reset_id repo.meta.annotations;
  };
}

unfoldable pub ensure_bootstrap_reset_id : Repository → Ctl Repository
unfolding is_bootstrap_reset_requested
ensure_bootstrap_reset_id repo =
    if has_matching_id repo
    then pure repo
    else do uuid ← gets (λ env. env.new_uuid); update_repository (with_matching_id uuid repo)

-- the request is acknowledged and retired together
abbrev pub acknowledged : Repository → Repository
acknowledged repo = record repo {
  meta = record (repo.meta) {
    annotations = remove reset_id (insert reset reset_done repo.meta.annotations);
  };
}

unfoldable pub mark_bootstrap_reset_done : Repository → Ctl Repository
mark_bootstrap_reset_done repo = update_repository (acknowledged repo)

-- the condition before the library fills in its time
abbrev pub bootstrap_ready : Repository → ConditionStatus → String → String → Condition
bootstrap_ready repo status reason text = record {
  type = "BootstrapReady";
  status = status;
  observed_generation = repo.meta.generation;
  last_transition_time = 0;
  reason = reason;
  message = text;
}

-- the repository with the condition, and whether the condition changed
unfoldable pub set_repository_condition :
    Repository → ConditionStatus → String → String → Ctl (Repository × Bool)
set_repository_condition repo status reason text env calls =
    let (conditions, changed) =
      env.set_status_condition (env.now calls) repo.status.conditions
        (bootstrap_ready repo status reason text) in
    (ok (record repo { status = record (repo.status) { conditions = conditions } }, changed), calls)

-- the new cursor, and with it the identifier of the request that it fulfils
abbrev pub cut_over : String → Repository → Repository
cut_over head repo = record repo {
  status = record (repo.status) {
    last_default_branch_head_sha = head;
    last_bootstrap_reset_id =
        if is_bootstrap_reset_requested repo
        then at reset_id repo.meta.annotations
        else repo.status.last_bootstrap_reset_id;
  };
}

unfoldable pub bootstrap_default_branch_from_current_head : Repository → String → Ctl Repository
unfolding set_repository_condition
bootstrap_default_branch_from_current_head repo head = do
  outcome ←
      set_repository_condition (cut_over head repo) condition_true "InitializedFromHead"
        "Initialized cutover point from current default branch HEAD"
  (let (updated, changed) = outcome in
      if not changed
        && (updated.status.last_default_branch_head_sha == repo.status.last_default_branch_head_sha)
        && (updated.status.last_bootstrap_reset_id == repo.status.last_bootstrap_reset_id)
      then pure repo
      else update_repository_status updated)

unfoldable pub mark_bootstrap_failure : Repository → Error → Ctl Repository
unfolding set_repository_condition
mark_bootstrap_failure repo cause = do
  text ← gets (λ env calls. env.error_text cause)
  outcome ←
      set_repository_condition repo condition_false "InitializationFailed"
        ("Failed to initialize cutover point from current default branch HEAD: " ⊕ text)
  (let (updated, changed) = outcome in
      if not changed then pure repo else update_repository_status updated)

-- the failure is recorded on a best effort
unfoldable pub bootstrap_failure : Repository → Error → Ctl Repository
unfolding mark_bootstrap_failure
bootstrap_failure repo cause = do attempt (mark_bootstrap_failure repo cause); raise cause
