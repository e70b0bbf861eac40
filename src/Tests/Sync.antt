-- ===== src/Tests/Sync.antt =====
-- Examples on the look at GitHub.
use terrakojo.Prelude.{
  String, ◌≡◌, refl, pos, false, some, none, Option, List, All, map, [], ◌∷◌, is_empty,
}
use terrakojo.Api.{Repository}
use terrakojo.Control.{attempt, pure, ◌>>=◌}
use terrakojo.Control.Client.{compare_commits}
use terrakojo.Control.Environment.{Env}
use terrakojo.Control.Errors.{ok}
use terrakojo.Api.Github.{GithubBranch, PullRequest}
use terrakojo.Sync.{collect_default_branch_commits, head_key, snapshot_of}
use terrakojo.Sync.Latest.{find_head, latest_head}
use terrakojo.Sync.Latest.Exact.{snapshot_of-latest}
use terrakojo.Sync.Snapshot.{IsHead, snapshot_of-AreHeads}
use terrakojo.Text.Sort.{IsDistinct}
use terrakojo.Sync.Progress.{collect_default_branch_commits_progress}
use terrakojo.Tests.Fixtures.{quiet, repo}

-- the head was moved back: there are no commits between, and the head alone is processed
abbrev moved_back : Env
moved_back = record quiet {
  comparison = λ calls.
      ok (record { commits = []; total_commits = pos 0; truncated = false; status = "behind" });
}

abbrev processed : Repository
processed = record repo {
  status = record (repo.status) { last_default_branch_head_sha = "c0ffee" };
}

collect_default_branch_commits_progress_example : is_empty {A = String} ("decade" ∷ []) ≡ false
unfolding collect_default_branch_commits attempt compare_commits ◌>>=◌ pure
collect_default_branch_commits_progress_example =
    collect_default_branch_commits_progress moved_back processed 1 "decade" [] ("decade" ∷ []) refl

-- two branches, and a pull request of one of them
abbrev pub listed : List (Option GithubBranch)
listed =
    some
      (record { name = some "feature"; commit = some (record { sha = some "c0ffee"; files = [] }) })
    ∷ some
        (record { name = some "main"; commit = some (record { sha = some "decade"; files = [] }) })
    ∷ []

abbrev pub opened : List (Option PullRequest)
opened =
    some (record {
      number = some (pos 7);
      head = some (record { ref = some "feature"; sha = none; repo = none });
      base = none;
    })
    ∷ []

snapshot_of-AreHeads_example :
    All IsHead (snapshot_of repo listed opened).heads
    × IsDistinct (map head_key (snapshot_of repo listed opened).heads)
snapshot_of-AreHeads_example = snapshot_of-AreHeads repo listed opened

snapshot_of-latest_example :
    find_head "feature" (snapshot_of repo listed opened).heads
    ≡ latest_head repo listed opened "feature"
snapshot_of-latest_example = snapshot_of-latest repo listed opened "feature"
