-- ===== src/Github/Operations.antt =====
-- internal/github/client.go: the methods of `Client`, each over the requests of go-github that it makes.
pub mod Requests
use terrakojo.Prelude.{
  ℕ, ℤ, pos, String, Bool, true, false, not, ◌&&◌, Option, none, some, List, [], ◌∷◌, ◌⊕◌, ◌==◌,
  length, nat_eq, int_le, if◌then◌else◌,
}
use terrakojo.Api.Github.{CommitFile, Commit, GithubBranch, PullRequest, CompareResult}
use terrakojo.Control.Errors.{Error, Result, ok, err, and_then, wrap}
use terrakojo.Control.{in_context}
use terrakojo.Github.Paging.{Answers, all_pages}

-- go-github's `CommitsComparison`
pub record Comparison : Type 0 where
  pub commits : List (Option Commit)
  pub total_commits : Option ℤ
  pub status : Option String

-- `CreateCheckRunOptions`, its `Output` by its two fields, and `UpdateCheckRunOptions`
pub record CheckRunCreation : Type 0 where
  pub name : String
  pub head_sha : String
  pub status : Option String
  pub title : Option String
  pub summary : Option String

pub record CheckRunUpdate : Type 0 where
  pub name : String
  pub status : Option String
  pub conclusion : Option String

-- The requests of go-github, by owner, repository and what is asked for. Those that list take the
-- size of a page; `get_branch` takes the number of redirects that it may follow.
pub record GithubApi : Type 0 where
  pub list_files : String → String → ℤ → ℕ → Answers CommitFile
  pub get_commit : String → String → String → Result Commit
  pub get_branch : String → String → String → ℕ → Result (Option GithubBranch)
  pub list_branches : String → String → ℕ → Answers (Option GithubBranch)
  -- by the state of the pull requests
  pub list_pull_requests : String → String → String → ℕ → Answers (Option PullRequest)
  pub compare_commits : String → String → String → String → ℕ → Result Comparison
  -- the number of the check run
  pub create_check_run : String → String → CheckRunCreation → Result ℤ
  pub update_check_run : String → String → ℤ → CheckRunUpdate → Result (Unit {0})

abbrev pub add_name : Option String → List String → List String
add_name none names = names
add_name (some name) names = name ∷ names

-- the names of the files that have one
unfoldable pub file_names : List CommitFile → List String
file_names [] = []
file_names (file ∷ files) = add_name file.filename (file_names files)

abbrev pub text_or_empty : Option String → String
text_or_empty none = ""
text_or_empty (some text) = text

abbrev pub int_or_zero : Option ℤ → ℤ
int_or_zero none = pos 0
int_or_zero (some n) = n

-- by the number of commits that GitHub says there are, or else by the size of a page
abbrev pub is_truncated : ℕ → Option ℤ → Bool
is_truncated len (some total) = not (int_le total (pos len))
is_truncated len none = nat_eq len 250

unfoldable pub compare_result : Comparison → CompareResult
compare_result comparison = record {
  commits = comparison.commits;
  total_commits = int_or_zero comparison.total_commits;
  truncated = is_truncated (length comparison.commits) comparison.total_commits;
  status = text_or_empty comparison.status;
}

abbrev pub check_run_creation : String → String → CheckRunCreation
check_run_creation sha name = record {
  name = name;
  head_sha = sha;
  status = some "queued";
  title = some name;
  summary = some "Check run created and queued.";
}

-- the conclusion is sent with a completed status only
unfoldable pub check_run_update : String → String → String → CheckRunUpdate
check_run_update name status conclusion = record {
  name = name;
  status = some status;
  conclusion = if (status == "completed") && not (conclusion == "") then some conclusion else none;
}

module _ (api : GithubApi) (fuel : ℕ) where
  unfoldable pub get_changed_files : String → String → ℤ → Option (Result (List String))
  unfolding all_pages file_names
  get_changed_files owner repo number =
      all_pages (api.list_files owner repo number 100) file_names fuel

  unfoldable pub list_branches : String → String → Option (Result (List (Option GithubBranch)))
  unfolding all_pages
  list_branches owner repo = all_pages (api.list_branches owner repo 100) (λ page. page) fuel

  unfoldable pub list_open_pull_requests :
      String → String → Option (Result (List (Option PullRequest)))
  unfolding all_pages
  list_open_pull_requests owner repo =
      all_pages (api.list_pull_requests owner repo "open" 100) (λ page. page) fuel

module _ (api : GithubApi) where
  abbrev pub get_commit : String → String → String → Result Commit
  get_commit owner repo sha = api.get_commit owner repo sha

  unfoldable pub get_changed_files_for_commit : String → String → String → Result (List String)
  unfolding file_names
  get_changed_files_for_commit owner repo sha =
      and_then (in_context ("failed to get commit " ⊕ sha) (get_commit owner repo sha))
        (λ commit. ok (file_names commit.files))

  abbrev pub get_branch : String → String → String → Result (Option GithubBranch)
  get_branch owner repo name = api.get_branch owner repo name 3

  unfoldable pub compare_commits : String → String → String → String → Result CompareResult
  unfolding compare_result
  compare_commits owner repo base head =
      and_then (api.compare_commits owner repo base head 250)
        (λ comparison. ok (compare_result comparison))

  abbrev pub create_check_run : String → String → String → String → Result ℤ
  create_check_run owner repo sha name =
      api.create_check_run owner repo (check_run_creation sha name)

  unfoldable pub update_check_run :
      String → String → ℤ → String → String → String → Result (Unit {0})
  unfolding check_run_update
  update_check_run owner repo id name status conclusion =
      in_context "failed to update check run"
        (api.update_check_run owner repo id (check_run_update name status conclusion))
