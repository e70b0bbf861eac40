-- ===== src/Tests/Branches.antt =====
-- Examples on the reconciler of Branch objects.
use terrakojo.Prelude.{String, ◌≡◌, refl, pos, true, false, some, List, [], ◌∷◌, ◌==◌}
use terrakojo.Prelude.Dictionary.{lookup, at}
use terrakojo.Api.{Branch}
use terrakojo.Control.Calls.{Call}
use terrakojo.Control.Errors.{ok}
use terrakojo.Control.{◌>>=◌, attempt, gets, wrapping, pure}
use terrakojo.Control.Client.{get_branch, list_workflows, update_branch}
use terrakojo.Control.Environment.{Env}
use terrakojo.Branches.{last_sha, repository_owner, all_in, reconcile, run_templates}
use terrakojo.Branches.Targets.{workflow_targets, match_templates}
use terrakojo.Branches.Targets.Sets.{IsExact}
use terrakojo.Branches.Targets.Exact.{workflow_targets-IsExact}
use terrakojo.Branches.Targets.Matching.{match_templates_exact, last_group}
use terrakojo.Branches.Finalizing.{finalizer_last, EndsFinalized, emptied}
use terrakojo.Branches.Live.{first_calls, Reads}
use terrakojo.Branches.Seen.{list_call, seen_commit_calls}
use terrakojo.Branches.Marking.{Ends, created_then_marked}
use terrakojo.Tests.Fixtures.{quiet, key, owner, feature, repo, template}

abbrev deleted : Branch
deleted = record feature { meta = record (feature.meta) { deletion_timestamp = some 5 } }

abbrev deleting : Env
deleting = record quiet { branch = λ calls. ok deleted; workflows = λ calls. ok [] }

finalizer_last_example :
    EndsFinalized deleting (emptied deleted) ((reconcile true key deleting []).1)
unfolding reconcile ◌>>=◌ attempt get_branch gets wrapping list_workflows pure update_branch
finalizer_last_example = finalizer_last deleting true key deleted refl refl refl refl

abbrev seen : Branch
seen = record feature {
  meta = record (feature.meta) { annotations = (last_sha, "c0ffee") ∷ [] };
  spec = record (feature.spec) { name = "main" };
}

abbrev seen_again : Env
seen_again = record quiet {
  branch = λ calls. ok seen;
  repository = λ calls. ok repo;
  workflows = λ calls. ok [];
}

abbrev seen_reads : Reads seen_again key seen repo
unfolding repository_owner
seen_reads = record {
  read = refl;
  live = refl;
  marked = refl;
  owner = owner;
  owned = refl;
  found = refl;
}

seen_commit_calls_example :
    (reconcile true key seen_again []).1
    ≡ Call.delete_branch key ∷ list_call seen ∷ first_calls key seen owner
unfolding all_in at repository_owner
seen_commit_calls_example = seen_commit_calls seen_again true key seen repo [] seen_reads refl refl

abbrev creating : Env
creating = record quiet {
  branch = λ calls. ok feature;
  workflow = λ calls. ok (record {
    meta = record (feature.meta) { name = "plan-x1" };
    spec = record {
      owner = "o";
      repository = "repo";
      branch = "feature";
      sha = "c0ffee";
      template = "plan";
      path = "src";
      parameters = [];
    };
    status = record {
      conditions = [];
      phase = "";
      jobs = [];
      check_run_id = pos 0;
      check_run_name = "";
    };
  });
}

abbrev changed : List String
changed = "README.md" ∷ "src/main.tf" ∷ []

created_then_marked_example :
    Ends creating false feature changed
      (template ∷ [])
      []
      (run_templates false feature changed (template ∷ []) creating [])
unfolding match_templates
created_then_marked_example =
    created_then_marked creating false feature changed (template ∷ []) [] refl tt

match_templates_exact_example :
    lookup "plan" (match_templates (λ p f. p == f) (template ∷ []) changed)
    ≡ last_group (λ p f. p == f) "plan" (template ∷ []) changed
match_templates_exact_example = match_templates_exact (λ p f. p == f) (template ∷ []) changed "plan"

workflow_targets-IsExact_example : IsExact "folder" changed (workflow_targets "folder" changed)
workflow_targets-IsExact_example = workflow_targets-IsExact "folder" changed
