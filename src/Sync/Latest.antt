-- ===== src/Sync/Latest.antt =====
-- internal/repository/sync: which head each key has, written independently of the code: for each key
-- one looks for the newest pull request and, without one, for the branch.
pub mod Locals
pub mod Merged
pub mod Exact
use terrakojo.Prelude.{
  ◌≡◌, refl, ℤ, pos, String, Bool, true, false, not, ◌||◌, ◌&&◌, Option, none, some, List, [], ◌∷◌,
  ◌==◌, int_le, is_pos, if◌then◌else◌,
}
use terrakojo.Api.{Repository}
use terrakojo.Api.Github.{GithubBranch, PullRequest, PullRequestEnd}
use terrakojo.Sync.{BranchHead, head_key, local_head, text_or_empty, commit_sha, pr_head}

-- the commit of a listed branch, if it has the name and is not the default branch
abbrev pub sha_if_named : String → String → Option GithubBranch → String
sha_if_named default_branch name none = ""
sha_if_named default_branch name (some b) =
    if (text_or_empty b.name == name) && not (name == "") && not (name == default_branch)
    then commit_sha b.commit
    else ""

-- the commit of the branch: of the last one in the list that has the name and a commit; else empty
abbrev pub branch_sha : String → List (Option GithubBranch) → String → String
branch_sha default_branch [] name = ""
branch_sha default_branch (b ∷ branches) name =
    let later = branch_sha default_branch branches name in
    if later == "" then sha_if_named default_branch name b else later

-- the head of a pull request, if it has a ref and a positive number
abbrev pub usable_head : Repository → PullRequest → Option PullRequestEnd → Option BranchHead
usable_head repo pr none = none
usable_head repo pr (some end) =
    let head = pr_head repo pr end in
    if head.info.ref == "" || not (is_pos head.info.pr_number) then none else some head

abbrev pub with_key : String → Option BranchHead → List BranchHead → List BranchHead
with_key key none heads = heads
with_key key (some head) heads = if head_key head == key then head ∷ heads else heads

-- the usable heads of the key, in the order of the pull requests
abbrev pub candidates : Repository → String → List (Option PullRequest) → List BranchHead
candidates repo key [] = []
candidates repo key (none ∷ prs) = candidates repo key prs
candidates repo key (some pr ∷ prs) =
    with_key key (usable_head repo pr pr.head) (candidates repo key prs)

-- the head with the highest number, the first of them where it is there more than once
abbrev pub newer : BranchHead → Option BranchHead → Option BranchHead
newer head none = some head
newer head (some m) = if int_le m.info.pr_number head.info.pr_number then some head else some m

abbrev pub newest : List BranchHead → Option BranchHead
newest [] = none
newest (head ∷ heads) = newer head (newest heads)

-- the head of the local branch, if there is one with a commit
abbrev pub branch_head : String → String → Option BranchHead
branch_head name sha = if sha == "" then none else some (local_head name sha)

-- a pull request's head keeps its commit; one of the repository itself that has none takes the branch's, and
-- without a commit there is no head
abbrev pub settled_head : (String → String) → BranchHead → Option BranchHead
settled_head sha_of_branch head =
    if not (head.info.sha == "")
    then some head
    else if head.external_pr
    then none
    else let sha = sha_of_branch head.info.ref in
      if sha == "" then none else some (record head { info = record (head.info) { sha = sha } })

abbrev pub chosen_head : (String → String) → String → Option BranchHead → Option BranchHead
chosen_head sha_of_branch key none = branch_head key (sha_of_branch key)
chosen_head sha_of_branch key (some head) = settled_head sha_of_branch head

-- the head that the key has
abbrev pub latest_head :
    Repository → List (Option GithubBranch) → List (Option PullRequest) → String → Option BranchHead
latest_head repo branches prs key =
    chosen_head (branch_sha repo.spec.default_branch branches) key
      (newest (candidates repo key prs))

-- the first head of the list with the key
abbrev pub find_head : String → List BranchHead → Option BranchHead
find_head key [] = none
find_head key (head ∷ heads) = if head_key head == key then some head else find_head key heads
