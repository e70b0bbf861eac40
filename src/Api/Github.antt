-- ===== src/Api/Github.antt =====
-- The part of go-github's response types that the sync and the reconcilers read. Every field of a
-- response may be missing.
use terrakojo.Prelude.{ℤ, String, Bool, Option, List}

pub record CommitFile : Type 0 where
  pub filename : Option String

pub record Commit : Type 0 where
  pub sha : Option String
  pub files : List CommitFile

pub record GithubBranch : Type 0 where
  pub name : Option String
  pub commit : Option Commit

pub record GithubUser : Type 0 where
  pub login : Option String

pub record GithubRepository : Type 0 where
  pub id : Option ℤ
  pub name : Option String
  pub full_name : Option String
  pub owner : Option GithubUser

pub record PullRequestEnd : Type 0 where
  pub ref : Option String
  pub sha : Option String
  pub repo : Option GithubRepository

pub record PullRequest : Type 0 where
  pub number : Option ℤ
  pub head : Option PullRequestEnd
  pub base : Option PullRequestEnd

-- `CompareResult` of internal/github; a missing commit in the list is `none`
pub record CompareResult : Type 0 where
  pub commits : List (Option Commit)
  pub total_commits : ℤ
  pub truncated : Bool
  pub status : String
