-- ===== src/Sync.antt =====
-- internal/repository/sync: what GitHub says of a repository's branches and pull requests, as one
-- snapshot, and which commits of the default branch are to be processed.
pub mod Progress
pub mod Snapshot
pub mod Latest
use terrakojo.Prelude.{
  ℤ, pos, String, Bool, true, false, ◌||◌, ◌&&◌, not, Option, none, some, List, [], ◌∷◌, ◌⊕◌, ◌==◌,
  nat_eq, int_eq, int_le, is_pos, is_empty, if◌then◌else◌,
}
use terrakojo.Prelude.Dictionary.{Dictionary, lookup, insert, keys}
use terrakojo.Api.{BranchInfo, Repository}
use terrakojo.Api.Github.{
  Commit, GithubBranch, GithubRepository, PullRequest, PullRequestEnd, CompareResult,
}
use terrakojo.Text.Decimal.{itoa}
use terrakojo.Text.Fold.{equal_fold}
use terrakojo.Text.Sort.{sort_strings}
use terrakojo.Control.{Ctl, pure, raise, attempt, wrapping, ◌>>=◌}
use terrakojo.Control.Errors.{Error, Result, ok, err, message, response_status}
use terrakojo.Control.Calls.{GithubClient}
use terrakojo.Control.Client.{
  get_github_branch, get_commit, compare_commits, list_github_branches, list_open_pull_requests,
}

pub record BranchHead : Type 0 where
  pub info : BranchInfo
  pub external_pr : Bool

-- the identity under which a head is reconciled
unfoldable pub head_key : BranchHead → String
unfolding itoa
head_key head = if head.external_pr then "pr:" ⊕ itoa head.info.pr_number else head.info.ref

-- `external_prs` is a map from pull request numbers to refs; the newest entry stands first
pub record BranchHeads : Type 0 where
  pub heads : List BranchHead
  pub external_prs : List (ℤ × String)

abbrev pub text_or_empty : Option String → String
text_or_empty none = ""
text_or_empty (some s) = s

abbrev pub number_or_zero : Option ℤ → ℤ
number_or_zero none = pos 0
number_or_zero (some n) = n

abbrev pub commit_sha : Option Commit → String
commit_sha none = ""
commit_sha (some c) = text_or_empty c.sha

abbrev pub head_sha : Option GithubBranch → String
head_sha none = ""
head_sha (some branch) = commit_sha branch.commit

unfoldable pub fetch_default_branch_head_sha : Repository → GithubClient → Ctl String
fetch_default_branch_head_sha repo gh = do
  branch ←
      wrapping "failed to fetch default branch head"
        (get_github_branch gh repo.spec.owner repo.spec.name repo.spec.default_branch)
  pure (head_sha branch)

unfoldable pub is_commit_not_found : Error → Bool
unfolding response_status
is_commit_not_found e = elim (response_status e) [ none ↦ false | some status ↦ nat_eq status 404 ]

abbrev pub lookup_missing : Result Commit → Ctl Bool
lookup_missing (ok commit) env calls = (ok false, calls)
lookup_missing (err e) env calls = (if is_commit_not_found e then ok true else err e, calls)

unfoldable pub is_base_commit_missing : Repository → GithubClient → Ctl Bool
is_base_commit_missing repo gh =
    if repo.status.last_default_branch_head_sha == "" then pure false else do
      answer ←
          attempt
            (get_commit gh repo.spec.owner repo.spec.name repo.status.last_default_branch_head_sha)
      lookup_missing answer

-- the SHAs of the commits that have one
unfoldable pub commit_shas : List (Option Commit) → List String
commit_shas [] = []
commit_shas (none ∷ commits) = commit_shas commits
commit_shas (some c ∷ commits) =
    let rest = commit_shas commits in elim (c.sha) [ none ↦ rest | some sha ↦ sha ∷ rest ]

-- the head alone, if the base commit is gone; else the error
unfoldable pub head_if_base_missing : Repository → GithubClient → String → Error → Ctl (List String)
unfolding is_base_commit_missing
head_if_base_missing repo gh head e = do
  missing ← is_base_commit_missing repo gh
  if missing then pure (head ∷ []) else raise e

abbrev pub no_commits : String → String → Error
no_commits base head =
    message ("github CompareCommits returned no commits between " ⊕ base ⊕ " and " ⊕ head)

unfoldable pub collect_compared :
    Repository → GithubClient → String → Result CompareResult → Ctl (List String)
unfolding head_if_base_missing commit_shas
collect_compared repo gh head (err e) = head_if_base_missing repo gh head e
collect_compared repo gh head (ok result) =
    let shas = commit_shas result.commits in
    if not (is_empty shas)
    then pure shas
    else if result.status == "behind"
    then pure (head ∷ [])
    else head_if_base_missing repo gh head
        (no_commits repo.status.last_default_branch_head_sha head)

unfoldable pub collect_default_branch_commits :
    Repository → GithubClient → String → Ctl (List String)
unfolding collect_compared
collect_default_branch_commits repo gh head =
    let last = repo.status.last_default_branch_head_sha in
    if head == ""
    then pure []
    else if last == ""
    then pure (head ∷ [])
    else if last == head
    then pure []
    else do
      answer ← attempt (compare_commits gh repo.spec.owner repo.spec.name last head)
      collect_compared repo gh head answer

abbrev login_of : GithubRepository → String
login_of r = elim (r.owner) [ none ↦ "" | some user ↦ text_or_empty user.login ]

abbrev pub repository_of : Option PullRequestEnd → Option GithubRepository
repository_of none = none
repository_of (some e) = e.repo

abbrev pub id_of : Option GithubRepository → ℤ
id_of none = pos 0
id_of (some r) = number_or_zero r.id

-- by the repositories' numbers, if both are there; else by the names of the head's repository
same_repository : Repository → GithubRepository → Option GithubRepository → Bool
unfolding equal_fold
same_repository repo head base =
    if is_pos (number_or_zero head.id) && is_pos (id_of base)
    then int_eq (number_or_zero head.id) (id_of base)
    else if not (text_or_empty head.full_name == "")
    then equal_fold (text_or_empty head.full_name) (repo.spec.owner ⊕ "/" ⊕ repo.spec.name)
    else equal_fold (login_of head) repo.spec.owner
      && equal_fold (text_or_empty head.name) repo.spec.name

unfoldable pub is_same_repository_pr : Repository → PullRequest → Bool
unfolding same_repository
is_same_repository_pr repo pr = elim (repository_of pr.head) [
  | none ↦ false
  | some head ↦ same_repository repo head (repository_of pr.base)
]

abbrev pub local_head : String → String → BranchHead
local_head ref sha = record {
  info = record { ref = ref; pr_number = pos 0; sha = sha };
  external_pr = false;
}

-- the branches that have a name and a commit, but for the default branch; a later one of the same name replaces
-- an earlier one
unfoldable pub local_heads :
    String → Dictionary BranchHead → List (Option GithubBranch) → Dictionary BranchHead
unfolding insert
local_heads default_branch heads [] = heads
local_heads default_branch heads (none ∷ branches) = local_heads default_branch heads branches
local_heads default_branch heads (some b ∷ branches) =
    let ref = text_or_empty b.name in
    let sha = commit_sha b.commit in
    local_heads default_branch
      (if ref == "" || sha == "" || ref == default_branch
        then heads
        else insert ref (local_head ref sha) heads)
      branches

abbrev pub sha_of : Option BranchHead → String
sha_of none = ""
sha_of (some head) = head.info.sha

-- a pull request whose head has a ref and whose number is positive; `locals` are the local heads
-- before any pull request, which give the SHA that a local pull request lacks
abbrev pub pr_head : Repository → PullRequest → PullRequestEnd → BranchHead
pr_head repo pr end = record {
  info = record {
    ref = text_or_empty end.ref;
    pr_number = number_or_zero pr.number;
    sha = text_or_empty end.sha;
  };
  external_pr = not (is_same_repository_pr repo pr);
}

-- the head with the SHA of the local branch, if it is local and has none
abbrev pub with_local_sha : Dictionary BranchHead → BranchHead → BranchHead
with_local_sha locals head =
    if head.info.sha == "" && not head.external_pr
    then record head { info = record (head.info) { sha = sha_of (lookup head.info.ref locals) } }
    else head

-- whether a head of the key stands in the way: one with the same or a higher number
abbrev pub is_superseded : BranchHead → Option BranchHead → Bool
is_superseded head none = false
is_superseded head (some existing) = int_le head.info.pr_number existing.info.pr_number

unfoldable pub add_head :
    Dictionary BranchHead → BranchHead → Dictionary BranchHead → Dictionary BranchHead
unfolding head_key insert lookup
add_head locals head heads =
    if is_superseded head (lookup (head_key head) heads)
    then heads
    else insert (head_key head) (with_local_sha locals head) heads

pub record Collected : Type 0 where
  pub heads : Dictionary BranchHead
  pub external_prs : List (ℤ × String)

abbrev pub record_external : BranchHead → List (ℤ × String) → List (ℤ × String)
record_external head prs =
    if head.external_pr then (head.info.pr_number, head.info.ref) ∷ prs else prs

abbrev pub add_pr :
    Repository → Dictionary BranchHead → Collected → PullRequest → PullRequestEnd → Collected
add_pr repo locals c pr end =
    let head = pr_head repo pr end in
    if head.info.ref == "" || not (is_pos head.info.pr_number) then c else record {
      heads = add_head locals head c.heads;
      external_prs = record_external head c.external_prs;
    }

unfoldable pub collect_prs :
    Repository → Dictionary BranchHead → Collected → List (Option PullRequest) → Collected
unfolding add_head is_same_repository_pr
collect_prs repo locals c [] = c
collect_prs repo locals c (none ∷ prs) = collect_prs repo locals c prs
collect_prs repo locals c (some pr ∷ prs) =
    collect_prs repo locals (elim (pr.head) [ none ↦ c | some end ↦ add_pr repo locals c pr end ])
      prs

-- the heads that have a SHA, in the order of their keys
unfoldable pub heads_with_sha : Dictionary BranchHead → List String → List BranchHead
heads_with_sha heads [] = []
heads_with_sha heads (key ∷ rest) =
    let later = heads_with_sha heads rest in
    elim (lookup key heads) [
      | none ↦ later
      | some head ↦ if head.info.sha == "" then later else head ∷ later
    ]

-- the snapshot, from the two lists
unfoldable pub snapshot_of :
    Repository → List (Option GithubBranch) → List (Option PullRequest) → BranchHeads
unfolding local_heads collect_prs heads_with_sha sort_strings keys
snapshot_of repo branches prs =
    let locals = local_heads repo.spec.default_branch [] branches in
    let c = collect_prs repo locals (record { heads = locals; external_prs = [] }) prs in
    record {
      heads = heads_with_sha c.heads (sort_strings (keys c.heads));
      external_prs = c.external_prs;
    }

unfoldable pub fetch_branch_heads_from_github : Repository → GithubClient → Ctl BranchHeads
unfolding snapshot_of
fetch_branch_heads_from_github repo gh = do
  branches ←
      wrapping "failed to list branches" (list_github_branches gh repo.spec.owner repo.spec.name)
  prs ←
      wrapping "failed to list pull requests"
        (list_open_pull_requests gh repo.spec.owner repo.spec.name)
  pure (snapshot_of repo branches prs)
