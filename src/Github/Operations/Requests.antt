-- ===== src/Github/Operations/Requests.antt =====
-- internal/github/client.go: what the methods of `Client` return, and what they ask GitHub for.
use terrakojo.Prelude.{
  ℕ, suc, ◌≤◌, ◌≡◌, ◌≢◌, ◌⊎◌, inl, inr, ◌↔◌, refl, sym, ap, subst, ◌∙◌, ℤ, String, Bool, true,
  false, Option, none, some, List, [], ◌∷◌, ◌++◌, ◌==◌, if◌then◌else◌, arith, eq_iff,
}
use terrakojo.Api.Github.{CommitFile}
use terrakojo.Control.Errors.{ok}
use terrakojo.Github.Paging.{Answers}
use terrakojo.Github.Paging.Exact.{Serves, last, more, all_pages_exact}
use terrakojo.Github.Operations.{
  GithubApi, add_name, file_names, get_changed_files, check_run_update,
}
use terrakojo.Workflows.Phases.{check_run_status}

add_name-append :
    (name : Option String) (xs ys : List String) → add_name name (xs ++ ys) ≡ add_name name xs ++ ys
add_name-append none xs ys = refl
add_name-append (some name) xs ys = refl

-- a page loop that keeps names sees the pages that one that keeps files does
file_names-append :
    (xs ys : List CommitFile) → file_names (xs ++ ys) ≡ file_names xs ++ file_names ys
unfolding file_names
file_names-append [] ys = refl
file_names-append (file ∷ xs) ys =
    ap (add_name file.filename) (file_names-append xs ys)
    ∙ add_name-append file.filename (file_names xs) (file_names ys)

-- the files, where a loop that keeps everything gets them
abbrev pub Files : Answers CommitFile → ℕ → ℕ → List ℕ → List CommitFile → Type 0
Files answers n page asked files = Serves answers (λ l. l) n page asked files

names-of_Files :
    (answers : Answers CommitFile) {n page : ℕ} {asked : List ℕ} {files : List CommitFile}
    → Files answers n page asked files
    → Serves answers file_names n page asked (file_names files)
names-of_Files answers (last r h) = last r h
names-of_Files answers {asked = asked} (more {n = n} {page = page} {p = p} {items = items} r h s) =
    subst (Serves answers file_names (suc n) page asked) (sym (file_names-append p.items items))
      (more r h (names-of_Files answers s))

Files-of_names :
    (answers : Answers CommitFile) {n page : ℕ} {asked : List ℕ} {names : List String}
    → Serves answers file_names n page asked names
    → (files : List CommitFile) × Files answers n page asked files × (names ≡ file_names files)
Files-of_names answers (last {p = p} r h) = (p.items, last r h, refl)
Files-of_names answers (more {p = p} r h s) =
    let (files, found, same) = Files-of_names answers s in
    (
      p.items ++ files,
      more r h found,
      ap (λ l. file_names p.items ++ l) same ∙ sym (file_names-append p.items files),
    )

-- The changed files of a pull request are exactly the names of the files, those without a name left out,
-- that GitHub lists on its pages of 100, all pages taken, in the order of the pages.
pub get_changed_files_exact :
    (api : GithubApi) (fuel : ℕ) (owner repo : String) (number : ℤ) (names : List String)
    → get_changed_files api fuel owner repo number ≡ some (ok names) ↔ (
        (n : ℕ) × (files : List CommitFile) × (n ≤ fuel)
        × Files (api.list_files owner repo number 100) n 0 [] files
        × (names ≡ file_names files))
unfolding get_changed_files
get_changed_files_exact api fuel owner repo number names =
    let answers = api.list_files owner repo number 100 in
    let (to, from) = all_pages_exact answers file_names fuel names in
    (
      (λ e.
          let (n, le, s) = to e in
          let (files, found, same) = Files-of_names answers s in (n, files, le, found, same)),
      λ (n, files, le, found, same). from (
        n,
        le,
        subst (Serves answers file_names n 0 []) (sym same) (names-of_Files answers found),
      ),
    )

-- a property of both branches
if-of_both : {A : Type 0} (P : A → Type 0) (b : Bool) (x y : A) → P x → P y → P (if b then x else y)
if-of_both P true x y hx hy = hx
if-of_both P false x y hx hy = hy

-- the update has the status; where that is "completed" it has the conclusion, which is one, and else it has none
abbrev pub ConcludesAtEnd : String → String × String → Type 0
ConcludesAtEnd name (status, conclusion) =
    ((check_run_update name status conclusion).status ≡ some status)
    × (((status ≡ "completed")
          × (conclusion ≢ "")
          × ((check_run_update name status conclusion).conclusion ≡ some conclusion))
        ⊎ ((status ≢ "completed") × ((check_run_update name status conclusion).conclusion ≡ none)))

concludes :
    (name conclusion : String)
    → (conclusion == "") ≡ false
    → ConcludesAtEnd name ("completed", conclusion)
unfolding check_run_update
concludes name conclusion h =
    (refl, inl (refl, (λ e. ground (arith, eq_iff conclusion "")), rw h refl))

goes_on :
    (name status : String) → (status == "completed") ≡ false → ConcludesAtEnd name (status, "")
unfolding check_run_update
goes_on name status h = (refl, inr ((λ e. ground (arith, eq_iff status "completed")), rw h refl))

-- What GitHub is told of a phase: the update carries the phase's status; where that status is "completed" it
-- carries the phase's conclusion, which is not empty, and with any other status it carries no conclusion.
pub check_run_update-phase :
    (name phase : String)
    → let (status, conclusion) = check_run_status phase in
      let update = check_run_update name status conclusion in
      (update.status ≡ some status)
      × (((status ≡ "completed") × (conclusion ≢ "") × (update.conclusion ≡ some conclusion))
          ⊎ ((status ≢ "completed") × (update.conclusion ≡ none)))
unfolding check_run_status
check_run_update-phase name phase =
    let P = ConcludesAtEnd name in
    if-of_both P (phase == "Pending") _ _ (goes_on name "queued" refl) (
      if-of_both P (phase == "Running") _ _ (goes_on name "in_progress" refl) (
        if-of_both P (phase == "Succeeded") _ _ (concludes name "success" refl) (
          if-of_both P (phase == "Failed") _ _ (concludes name "failure" refl) (
            if-of_both P (phase == "Cancelled") _ _ (concludes name "cancelled" refl)
              (goes_on name "queued" refl)))))
