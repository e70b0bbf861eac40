-- ===== src/Tests/Github.antt =====
-- Examples on the GitHub client.
use terrakojo.Prelude.{
  ℕ, ◌≤◌, ◌≡◌, ◌↔◌, refl, sym, ap, Bool-cases, inl, inr, arith, pos, String, some, none, List, [],
  ◌∷◌, nat_eq, if◌then◌else◌,
}
use terrakojo.Api.Github.{CommitFile}
use terrakojo.Control.Errors.{Result, ok, err, foreign}
use terrakojo.Github.Paging.{Page, Answers, all_pages}
use terrakojo.Github.Paging.Exact.{Serves, Rising, all_pages_exact, all_pages-halts}
use terrakojo.Github.Operations.{GithubApi, file_names, get_changed_files}
use terrakojo.Github.Operations.Requests.{
  Files, ConcludesAtEnd, get_changed_files_exact, check_run_update-phase,
}
use terrakojo.Workflows.Phases.{check_run_status}

abbrev first_page : Page CommitFile
first_page = record {
  items = record { filename = some "main.tf" } ∷ record { filename = none } ∷ [];
  next = 2;
}

abbrev second_page : Page CommitFile
second_page = record { items = record { filename = some "vpc.tf" } ∷ []; next = 0 }

abbrev two_pages : Answers CommitFile
two_pages [] = err (foreign 404)
two_pages (page ∷ asked) = if nat_eq page 0 then ok first_page else ok second_page

abbrev both_names : List String
both_names = "main.tf" ∷ "vpc.tf" ∷ []

all_pages_run : all_pages two_pages file_names 3 ≡ some (ok both_names)
unfolding all_pages file_names
all_pages_run = refl

all_pages_exact_example :
    all_pages two_pages file_names 3 ≡ some (ok both_names)
    ↔ ((n : ℕ) × (n ≤ 3) × Serves two_pages file_names n 0 [] both_names)
all_pages_exact_example = all_pages_exact two_pages file_names 3 both_names

two_pages_rise : Rising two_pages file_names 2
two_pages_rise page asked p e = elim (Bool-cases (nat_eq page 0)) [
  | inl first ↦
      let same : first_page ≡ p = cc in
      let next : 2 ≡ p.next = ap (λ q. q.next) same in inr (ground arith, ground arith)
  | inr later ↦
      let same : second_page ≡ p = cc in
      let next : 0 ≡ p.next = ap (λ q. q.next) same in inl (sym next)
]

all_pages-halts_example :
    (result : Result (List String)) × (all_pages two_pages file_names 3 ≡ some result)
all_pages-halts_example = all_pages-halts two_pages file_names 2 two_pages_rise

abbrev api : GithubApi
api = record {
  list_files = λ owner repo number size. two_pages;
  get_commit = λ owner repo sha. err (foreign 404);
  get_branch = λ owner repo name redirects. ok none;
  list_branches = λ owner repo size asked. ok (record { items = []; next = 0 });
  list_pull_requests = λ owner repo state size asked. ok (record { items = []; next = 0 });
  compare_commits = λ owner repo base head size. err (foreign 404);
  create_check_run = λ owner repo options. ok (pos 1);
  update_check_run = λ owner repo id options. ok tt;
}

get_changed_files_exact_example :
    get_changed_files api 3 "o" "repo" (pos 7) ≡ some (ok both_names) ↔ (
      (n : ℕ) × (files : List CommitFile) × (n ≤ 3)
      × Files two_pages n 0 [] files
      × (both_names ≡ file_names files))
get_changed_files_exact_example = get_changed_files_exact api 3 "o" "repo" (pos 7) both_names

check_run_update-phase_example : ConcludesAtEnd "plan" (check_run_status "Failed")
check_run_update-phase_example = check_run_update-phase "plan" "Failed"
