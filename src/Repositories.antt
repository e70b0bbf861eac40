-- ===== src/Repositories.antt =====
-- internal/controller/repository_controller.go: the reconciler of Repository objects.
pub mod Bootstrap
pub mod Heads
pub mod Lifecycle
pub mod Settled
pub mod Grouping
pub mod Deletions
pub mod DefaultBranch
pub mod Created
pub mod Requests
pub mod Idle
pub mod Outcome
use terrakojo.Prelude.{
  ℕ, String, Bool, true, false, ◌||◌, not, List, [], ◌∷◌, ◌++◌, ◌⊕◌, is_empty, ◌==◌, ltb,
  if◌then◌else◌,
}
use terrakojo.Prelude.Dictionary.{Dictionary, lookup, insert, at}
use terrakojo.Api.{ObjectKey, key_of, is_deleted, Branch, Repository}
use terrakojo.Control.{
  Ctl, pure, raise, gets, attempt, wrapping, ignore_not_found, ◌>>=◌, ◌>>◌, Next, finished,
  after_seconds,
}
use terrakojo.Control.Errors.{Error, Result, ok, err, message, is_branch_migration_pending}
use terrakojo.Control.Calls.{GithubClient}
use terrakojo.Control.Client.{
  get_repository, list_branches, update_repository, delete_branch, client_for_repository,
  update_repository_status,
}
use terrakojo.Sync.{
  fetch_default_branch_head_sha, collect_default_branch_commits, fetch_branch_heads_from_github,
}
use Bootstrap.{
  is_bootstrap_reset_requested, should_bootstrap_from_head, ensure_bootstrap_reset_id,
  mark_bootstrap_reset_done, bootstrap_default_branch_from_current_head, bootstrap_failure,
}
use Heads.{branch_identity, group_at, ensure_default_branch_commits, sync_branch_heads}

abbrev pub repository_finalizer : String
repository_finalizer = "terrakojo.io/cleanup-branches"

-- 30 minutes
abbrev pub repository_sync_interval : ℕ
repository_sync_interval = 1800

-- the labels that a Repository must have
abbrev pub required_labels : Repository → Dictionary String
required_labels repo =
    ("terrakojo.io/owner", repo.spec.owner)
    ∷ ("terrakojo.io/repo-name", repo.spec.name)
    ∷ ("terrakojo.io/repo-uid", repo.meta.uid)
    ∷ ("app.kubernetes.io/managed-by", "terrakojo-controller")
    ∷ []

-- one label after the other; whether one was written
unfoldable pub set_labels : Dictionary String → Dictionary String → Bool → Dictionary String × Bool
set_labels [] labels changed = (labels, changed)
set_labels ((k, v) ∷ wanted) labels changed =
    let same = at k labels == v in
    set_labels wanted (if same then labels else insert k v labels) (changed || not same)

-- the repository, and whether the labels were updated
pub ensure_labels : Repository → Ctl (Repository × Bool)
unfolding set_labels
ensure_labels repo =
    let (labels, changed) = set_labels (required_labels repo) repo.meta.labels false in
    let labelled : Repository = record repo { meta = record (repo.meta) { labels = labels } } in
    if not changed then pure (labelled, false) else do
      stored ← wrapping "failed to update Repository labels" (update_repository labelled)
      pure (stored, true)

-- the branches by their identity
unfoldable pub group_branches : Dictionary (List Branch) → List Branch → Dictionary (List Branch)
unfolding branch_identity
group_branches groups [] = groups
group_branches groups (b ∷ branches) =
    group_branches
      (insert (branch_identity b) (group_at (branch_identity b) groups ++ b ∷ []) groups) branches

pub delete_each : List Branch → Ctl (Unit {0})
delete_each [] = pure tt
delete_each (b ∷ branches) = do
  wrapping ("failed to delete branch " ⊕ b.meta.name)
      (ignore_not_found (delete_branch (key_of b.meta)))
  delete_each branches

pub delete_branches_for_repository : Repository → Ctl (Unit {0})
unfolding delete_each
delete_branches_for_repository repo = do
  branches ←
      wrapping "failed to list branches for repository"
        (list_branches repo.meta.namespace repo.meta.uid)
  delete_each branches

pub handle_repository_deletion : Repository → Ctl Next
unfolding delete_branches_for_repository
handle_repository_deletion repo = do
  delete_branches_for_repository repo
  remaining ←
      wrapping "failed to list branches while waiting for deletion"
        (list_branches repo.meta.namespace repo.meta.uid)
  if is_empty remaining then pure finished else pure (after_seconds 5)

-- the repository is being deleted and has the finalizer
pub finalize : Repository → Ctl Next
unfolding handle_repository_deletion
finalize repo = do
  next ← handle_repository_deletion repo
  if ltb 0 next.requeue_after then pure next else do
    meta ← gets (λ env calls. env.remove_finalizer repo.meta repository_finalizer)
    update_repository (record repo { meta = meta })
    pure finished

pub mark : Repository → Ctl Next
mark repo = do
  meta ← gets (λ env calls. env.add_finalizer repo.meta repository_finalizer)
  update_repository (record repo { meta = meta })
  pure finished

-- the head that the next sync starts from: the last commit of the batch, or the head if it is empty
abbrev pub last_of : String → List String → String
last_of head [] = head
last_of head (sha ∷ shas) = last_of sha shas

pub advance_head : Repository → String → Ctl Repository
advance_head repo sha =
    if repo.status.last_default_branch_head_sha == sha
    then pure repo
    else update_repository_status
        (record repo { status = record (repo.status) { last_default_branch_head_sha = sha } })

-- the commits of the default branch since the last sync
pub process_commits : Repository → GithubClient → String → Dictionary (List Branch) → Ctl Repository
unfolding advance_head
process_commits repo gh head groups = do
  shas ← collect_default_branch_commits repo gh head
  ensure_default_branch_commits repo shas (group_at repo.spec.default_branch groups)
  advance_head repo (last_of head shas)

abbrev pub empty_head : Repository → Error
empty_head repo = message (
    "failed to initialize cutover point: default branch \"" ⊕ repo.spec.default_branch
    ⊕ "\" has empty HEAD SHA")

-- a failure to initialise the cutover is recorded, and ends the sync
abbrev pub or_bootstrap_failure : Repository → Result Repository → Ctl Repository
or_bootstrap_failure repo (ok updated) = pure updated
or_bootstrap_failure repo (err e) = bootstrap_failure repo e

pub process_head :
    Bool → Repository → GithubClient → Dictionary (List Branch) → Result String → Ctl Repository
unfolding process_commits
process_head bootstrap repo gh groups (err e) =
    if bootstrap then bootstrap_failure repo e else raise e
process_head bootstrap repo gh groups (ok head) =
    if not (head == "")
    then (if bootstrap
        then (do
          answer ← attempt (bootstrap_default_branch_from_current_head repo head)
          or_bootstrap_failure repo answer)
        else process_commits repo gh head groups)
    else if bootstrap
    then bootstrap_failure repo (empty_head repo)
    else pure repo

unfoldable pub sync_from_github :
    Repository → GithubClient → Dictionary (List Branch) → Ctl Repository
unfolding process_head
sync_from_github repo gh groups = do
  repo₁ ← ensure_bootstrap_reset_id repo
  head ← attempt (fetch_default_branch_head_sha repo₁ gh)
  repo₂ ← process_head (should_bootstrap_from_head repo₁) repo₁ gh groups head
  snapshot ← fetch_branch_heads_from_github repo₂ gh
  sync_branch_heads repo₂ groups snapshot
  pure repo₂

-- the end of a reconcile, after the sync
pub after_sync : Bool → Result Repository → Ctl Next
after_sync requested (err e) =
    if is_branch_migration_pending e then pure (after_seconds 1) else raise e
after_sync requested (ok repo) =
    if not requested
    then pure (after_seconds repository_sync_interval)
    else do mark_bootstrap_reset_done repo; pure (after_seconds repository_sync_interval)

pub reconcile_labelled : Bool → Repository → Ctl Next
unfolding sync_from_github group_branches after_sync
reconcile_labelled manager repo =
    if not manager then raise (message "GitHubClientManager not initialized") else do
      gh ← client_for_repository repo
      branches ← list_branches repo.meta.namespace repo.meta.uid
      synced ← attempt (sync_from_github repo gh (group_branches [] branches))
      after_sync (is_bootstrap_reset_requested repo) synced

-- the repository has the finalizer and is not being deleted
pub reconcile_live : Bool → Repository → Ctl Next
unfolding ensure_labels reconcile_labelled
reconcile_live manager repo = do
  labelled ← ensure_labels repo
  (let (repo', updated) = labelled in
      if updated then pure finished else reconcile_labelled manager repo')

pub reconcile_repository : Bool → Repository → Ctl Next
unfolding finalize mark reconcile_live
reconcile_repository manager repo = do
  marked ← gets (λ env calls. env.contains_finalizer repo.meta repository_finalizer)
  (if is_deleted repo.meta
      then (if marked then finalize repo else pure finished)
      else if marked
      then reconcile_live manager repo
      else mark repo)

abbrev pub with_repository : Bool → Result Repository → Ctl Next
with_repository manager (ok repo) env calls = reconcile_repository manager repo env calls
with_repository manager (err e) env calls =
    (if env.is_not_found e then ok finished else err e, calls)

pub reconcile : Bool → ObjectKey → Ctl Next
unfolding reconcile_repository
reconcile manager key = do answer ← attempt (get_repository key); with_repository manager answer
