-- ===== src/Tests/Repositories.antt =====
-- Examples on the reconciler of Repository objects.
use Prim.Native.String.compare
use text.Mathlib.Text.{is_eq}
use text.Mathlib.TextLemmas.{cons-append}
use terrakojo.Text.Decimal.{itoa}
use terrakojo.Prelude.{
  ◌∙◌, ℤ, ◌⊎◌, inl, inr, ◌⊕◌, ap, String, ◌≡◌, refl, pos, true, false, none, some, List, [], ◌∷◌,
  ◌==◌, All, contains,
}
use terrakojo.Prelude.Dictionary.{at, insert, remove}
use terrakojo.Api.{Repository, Branch, condition_true}
use terrakojo.Control.Calls.{Call}
use terrakojo.Control.Errors.{Result, ok, err, foreign}
use terrakojo.Control.Environment.{Env}
use terrakojo.Sync.{BranchHead, BranchHeads, head_key, local_head, snapshot_of}
use terrakojo.Text.Sort.{IsDistinct}
use terrakojo.Repositories.Requests.{
  Reaches, here, then_step, asks, identifies, cuts_over, with_reset, requests_once,
}
use terrakojo.Repositories.Created.{branch_for_settled}
use terrakojo.Repositories.{group_branches, sync_from_github}
use terrakojo.Repositories.Bootstrap.{
  should_bootstrap_from_head, is_bootstrap_reset_requested, has_matching_id, acknowledged, reset,
  reset_id, reset_requested, bootstrap_ready, with_matching_id, cut_over,
}
use terrakojo.Repositories.Heads.{
  sync_branch_heads, branch_identity, branch_for, ensure_branch_resource,
}
use terrakojo.Repositories.Lifecycle.{acknowledged_idle}
use terrakojo.Repositories.Idle.{InPlace}
use terrakojo.Repositories.Idle.Syncing.{settled_sync_idle}
use terrakojo.Repositories.Outcome.{IsIdentified, IsFetched, Follows}
use terrakojo.Repositories.Outcome.Syncing.{sync_from_github-Follows}
use terrakojo.Tests.Sync.{listed, opened}
use terrakojo.Repositories.Settled.{Stores, sync_settles}
use terrakojo.Repositories.Deletions.{Spares}
use terrakojo.Repositories.DefaultBranch.{default_branch_spared}
use terrakojo.Tests.Fixtures.{quiet, feature, repo}

abbrev no_heads : BranchHeads
no_heads = record { heads = []; external_prs = [] }

-- no pull request's identity is "main"
main_no_pr : (n : ℤ) → (("pr:" ⊕ itoa n) == "main") ≡ false
main_no_pr n =
    ap (λ t. t == "main") (cons-append "p" "r:" (itoa n))
    ∙ ap is_eq (compare.cons-cons "p" "m" ("r:" ⊕ itoa n) "ain")

default_branch_spared_example :
    All
      (Spares "main" (feature ∷ []))
      (sync_branch_heads repo (group_branches [] (feature ∷ [])) no_heads quiet []).1
default_branch_spared_example =
    default_branch_spared repo (feature ∷ []) no_heads main_no_pr quiet [] tt

abbrev requested : Repository
requested = record repo {
  meta = record (repo.meta) { annotations = (reset, reset_requested) ∷ [] };
}

-- the object that an update writes
abbrev written : List Call → Result Repository
written (Call.update_repository r ∷ calls) = ok r
written (Call.update_repository_status r ∷ calls) = ok r
written _ = err (foreign 404)

abbrev storing : Env
storing = record quiet {
  repository = written;
  github_branch = λ calls. ok (
      some (record {
        name = some "main";
        commit = some (record { sha = some "c0ffee"; files = [] });
      }));
  github_branches = λ calls. ok [];
  pull_requests = λ calls. ok [];
}

storing-Stores : Stores storing
storing-Stores = record { object = λ r calls stored e. cc; status = λ r calls stored e. cc }

abbrev settled : Repository
settled = record requested {
  meta = record (requested.meta) {
    annotations = (reset, reset_requested) ∷ (reset_id, "fresh") ∷ [];
  };
  status = record (requested.status) {
    conditions =
        bootstrap_ready requested condition_true "InitializedFromHead"
          "Initialized cutover point from current default branch HEAD"
        ∷ [];
    last_default_branch_head_sha = "c0ffee";
    last_bootstrap_reset_id = "fresh";
  };
}

sync_settles_example : should_bootstrap_from_head settled ≡ false
unfolding should_bootstrap_from_head at sync_from_github terrakojo.Control.◌>>=◌
    terrakojo.Repositories.Bootstrap.ensure_bootstrap_reset_id terrakojo.Control.gets
    terrakojo.Control.Client.update_repository terrakojo.Control.attempt
    terrakojo.Sync.fetch_default_branch_head_sha terrakojo.Control.wrapping
    terrakojo.Control.Client.get_github_branch terrakojo.Control.pure insert
    terrakojo.Repositories.Bootstrap.bootstrap_default_branch_from_current_head
    terrakojo.Control.Client.update_repository_status terrakojo.Sync.fetch_branch_heads_from_github
    terrakojo.Control.Client.list_github_branches terrakojo.Control.Client.list_open_pull_requests
    terrakojo.Sync.snapshot_of terrakojo.Prelude.Dictionary.keys terrakojo.Text.Sort.sort_strings
    sync_branch_heads remove
sync_settles_example =
    sync_settles storing requested 1 [] [] settled storing-Stores (λ calls. refl) (λ calls. refl)
      refl refl

acknowledged_idle_example :
    (is_bootstrap_reset_requested (acknowledged requested) ≡ false)
    × (has_matching_id (acknowledged requested) ≡ true)
    × (should_bootstrap_from_head (acknowledged requested) ≡ true)
acknowledged_idle_example = acknowledged_idle requested

-- a pull request from elsewhere
abbrev external : BranchHead
external = record {
  info = record { ref = "main"; pr_number = pos 12; sha = "c0ffee" };
  external_pr = true;
}

branch_for_settled_example :
    (branch_identity (branch_for (λ s. s) repo external) ≡ head_key external)
    × (ensure_branch_resource repo external
          (branch_for (λ s. s) repo external ∷ feature ∷ [])
          quiet
          []
        ≡ (ok tt, []))
branch_for_settled_example = branch_for_settled (λ s. s) repo external (feature ∷ []) quiet []

abbrev asked : Repository
asked = with_reset "true" repo

abbrev identified : Repository
identified = with_matching_id "u-1" asked

-- a request is made, gets an identifier and is carried out
carried : Reaches (repo, []) (cut_over "decade" identified, "u-1" ∷ [])
unfolding is_bootstrap_reset_requested should_bootstrap_from_head at insert
carried =
    then_step (then_step (then_step here (asks "true")) (identifies "u-1" refl refl))
      (cuts_over "decade" refl refl)

requests_once_example : IsDistinct ("u-1" ∷ []) × (contains "" ("u-1" ∷ []) ≡ false)
requests_once_example = requests_once repo (cut_over "decade" identified, "u-1" ∷ []) carried

abbrev default_object : Branch
default_object = branch_for (λ s. s) repo (local_head "main" "decade")

-- the object of a head, and one of the default branch
abbrev in_place : List Branch
in_place = branch_for (λ s. s) repo (local_head "feature" "c0ffee") ∷ default_object ∷ []

in_place-InPlace : InPlace repo (snapshot_of repo listed opened) in_place
unfolding snapshot_of terrakojo.Prelude.Dictionary.keys terrakojo.Text.Sort.sort_strings
    branch_identity at terrakojo.Prelude.Dictionary.lookup terrakojo.Repositories.Heads.is_legacy
    terrakojo.Repositories.Heads.needs_branch_update
in_place-InPlace =
    let same = inr (local_head "feature" "c0ffee", inl refl, (refl, refl, refl, refl)) in
    (
      (same, (inl refl, tt)),
      (refl, (refl, tt)),
      (inr (branch_for (λ s. s) repo (local_head "feature" "c0ffee"), inl refl, refl), tt),
    )

settled_sync_idle_example :
    sync_branch_heads repo (group_branches [] in_place) (snapshot_of repo listed opened) quiet []
    ≡ (ok tt, [])
settled_sync_idle_example =
    settled_sync_idle repo listed opened in_place quiet [] main_no_pr in_place-InPlace

sync_from_github-Follows_example :
    (r : Repository) × IsIdentified requested r
    × (head : String) × IsFetched storing 1 r head
    × Follows storing 1 head r settled
unfolding should_bootstrap_from_head at sync_from_github terrakojo.Control.◌>>=◌
    terrakojo.Repositories.Bootstrap.ensure_bootstrap_reset_id terrakojo.Control.gets
    terrakojo.Control.Client.update_repository terrakojo.Control.attempt
    terrakojo.Sync.fetch_default_branch_head_sha terrakojo.Control.wrapping
    terrakojo.Control.Client.get_github_branch terrakojo.Control.pure insert
    terrakojo.Repositories.Bootstrap.bootstrap_default_branch_from_current_head
    terrakojo.Control.Client.update_repository_status terrakojo.Sync.fetch_branch_heads_from_github
    terrakojo.Control.Client.list_github_branches terrakojo.Control.Client.list_open_pull_requests
    terrakojo.Sync.snapshot_of terrakojo.Prelude.Dictionary.keys terrakojo.Text.Sort.sort_strings
    sync_branch_heads remove
sync_from_github-Follows_example =
    sync_from_github-Follows storing storing-Stores requested 1 [] [] settled (λ calls. refl) refl
