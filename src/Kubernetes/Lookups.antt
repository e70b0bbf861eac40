-- ===== src/Kubernetes/Lookups.antt =====
-- What the manager asks the API server for to make the client for a Branch.
use terrakojo.Prelude.{
  ◌≡◌, refl, ap, Option, none, some, List, [], ◌∷◌, ◌==◌, eq_iff, Bool-cases, inl, inr, All,
  if◌then◌else◌,
}
use terrakojo.Api.{OwnerReference, Repository, Branch}
use terrakojo.Control.{wrapping, ◌>>=◌}
use terrakojo.Control.Calls.{Call}
use terrakojo.Control.Client.{get_secret, get_repository, list_repositories}
use terrakojo.Control.Environment.{Env}
use terrakojo.Control.Errors.{Result, ok, err}
use terrakojo.Control.Keeps.{
  Makes, Makes-pure, Makes-raise, Makes-bind, Makes-attempt, Makes-wrapping, Makes-lift, Makes-ask,
}
use terrakojo.Control.Runs.{wrapping-Returns}
use terrakojo.Github.{ClientLibrary}
use terrakojo.Kubernetes.{
  find_by_owner, or_next, first_named, or_missing, or_by_name, find_by_name,
  find_repository_for_branch, get_credentials_from_secret, get_client_for_repository,
  get_client_for_branch,
}
use terrakojo.Control.Histories.{continue-keeps}
use terrakojo.Kubernetes.Finding.{IsAmong, IsFound, find_repository_for_branch-IsFound}

-- A read that finds the client of the branch: of a Repository that an owner reference of the branch names, in the
-- branch's namespace; the search there by the branch's owner and repository name; and of the Secret that
-- the Repository names which was found for the branch, in the namespace that it names or else its own.
abbrev pub IsLookup : Env → Branch → Call → Type 0
IsLookup env branch (Call.get_repository key) =
    (ref : OwnerReference) × IsAmong ref branch.meta.owner_references
    × (ref.kind ≡ "Repository")
    × (key.name ≡ ref.name)
    × (key.namespace ≡ branch.meta.namespace)
IsLookup env branch (Call.list_repositories namespaces labels) =
    (namespaces ≡ branch.meta.namespace ∷ [])
    × (labels
        ≡ ("terrakojo.io/owner", branch.spec.owner)
          ∷ ("terrakojo.io/repo-name", branch.spec.repository)
          ∷ [])
IsLookup env branch (Call.get_secret key) =
    (repo : Repository) × IsFound env branch repo
    × (key.name ≡ repo.spec.github_secret_ref.name)
    × (key.namespace ≡ (
        if repo.spec.github_secret_ref.namespace == ""
        then repo.meta.namespace
        else repo.spec.github_secret_ref.namespace))
IsLookup env branch _ = ⊥

module _ (env : Env) (branch : Branch) where
  find_by_owner-IsLookup :
      (refs : List OwnerReference)
      → ((ref : OwnerReference) → IsAmong ref refs → IsAmong ref branch.meta.owner_references)
      → Makes (IsLookup env branch) (find_by_owner branch.meta.namespace refs)
  unfolding find_by_owner get_repository
  find_by_owner-IsLookup [] among = Makes-pure _
  find_by_owner-IsLookup (ref ∷ refs) among =
      let rest = find_by_owner-IsLookup refs (λ r h. among r (inr h)) in
      elim (Bool-cases (ref.kind == "Repository")) [
        | inl owner ↦ rw owner (
            Makes-bind _ _
              (Makes-attempt _ (
                Makes-ask _ (λ env. env.repository)
                  (ref, among ref (inl refl), (eq_iff ref.kind "Repository").0 owner, refl, refl)))
              (answered rest))
        | inr other ↦ rw other rest
      ]
    where
      answered :
          Makes (IsLookup env branch) (find_by_owner branch.meta.namespace refs)
          → (r : Result Repository)
          → Makes (IsLookup env branch) (or_next (find_by_owner branch.meta.namespace refs) r)
      answered rest (ok repo) = Makes-pure _
      answered rest (err e) = rest

  find_by_name-IsLookup : Makes (IsLookup env branch) (find_by_name branch)
  unfolding find_by_name list_repositories
  find_by_name-IsLookup =
      Makes-bind _ _ (Makes-wrapping _ _ (Makes-ask _ (λ env. env.repositories) (refl, refl)))
        (λ repos. answered (first_named branch.spec.owner branch.spec.repository repos))
    where
      answered : (o : Option Repository) → Makes (IsLookup env branch) (or_missing branch o)
      answered none = Makes-raise _
      answered (some repo) = Makes-pure _

  find_repository_for_branch-IsLookup :
      Makes (IsLookup env branch) (find_repository_for_branch branch)
  unfolding find_repository_for_branch
  find_repository_for_branch-IsLookup =
      Makes-bind _ _ (find_by_owner-IsLookup branch.meta.owner_references (λ ref h. h)) found
    where
      found : (o : Option Repository) → Makes (IsLookup env branch) (or_by_name branch o)
      found none = find_by_name-IsLookup
      found (some repo) = Makes-pure _

  get_client_for_repository-IsLookup :
      (lib : ClientLibrary) (repo : Repository)
      → IsFound env branch repo
      → Makes (IsLookup env branch) (get_client_for_repository lib repo)
  unfolding get_client_for_repository get_credentials_from_secret get_secret
  get_client_for_repository-IsLookup lib repo found =
      Makes-bind _ _
        (Makes-wrapping _ _ (
          Makes-bind _ _
            (Makes-wrapping _ _ (Makes-ask _ (λ env. env.secret) (repo, found, refl, refl)))
            (λ secret. Makes-lift _)))
        (λ creds. Makes-lift _)

  -- Whatever the answers are, making a client for a branch asks for nothing but: a Repository that an owner
  -- reference of the branch of that kind names, in the branch's namespace; the Repositories there that carry the
  -- labels of the branch's owner and repository name; and the Secret that a Repository names which was found for the
  -- branch, in the namespace that this one names or else its own, where the calls before do.
  pub get_client_for_branch-IsLookup :
      (lib : ClientLibrary) (calls : List Call)
      → All (IsLookup env branch) calls
      → All (IsLookup env branch) (get_client_for_branch lib branch env calls).1
  unfolding get_client_for_branch ◌>>=◌
  get_client_for_branch-IsLookup lib calls h =
      let finding =
        wrapping "failed to find repository for branch" (find_repository_for_branch branch) in
      let kept = (Makes-wrapping _ _ find_repository_for_branch-IsLookup).at env calls h in
      continue-keeps (All (IsLookup env branch)) env (finding env calls).0 _ (finding env calls).1
        (λ repo e.
          let found = find_repository_for_branch-IsFound env branch repo calls (
            wrapping-Returns env "failed to find repository for branch" _
              (ap (λ r. (r, (finding env calls).1)) e)) in
          (get_client_for_repository-IsLookup lib repo found).at env (finding env calls).1 kept)
        kept
