-- ===== src/Kubernetes/Finding.antt =====
-- Which Repository a Branch belongs to (internal/kubernetes).
use terrakojo.Prelude.{
  String, ◌≡◌, ◌⊎◌, refl, ap, subst, ◌∙◌, true, ◌&&◌, Option, none, some, List, [], ◌∷◌, ◌==◌,
  arith, eq_iff, Bool-cases, inl, inr,
}
use terrakojo.Api.{OwnerReference, Repository, Branch}
use terrakojo.Control.{raise, attempt, ◌>>=◌}
use terrakojo.Control.Calls.{Call}
use terrakojo.Control.Client.{get_repository, list_repositories}
use terrakojo.Control.Environment.{Env}
use terrakojo.Control.Errors.{Result, ok, err}
use terrakojo.Control.Runs.{Returns, bind-Returns, pure-Returns, wrapping-Returns}
use terrakojo.Kubernetes.{
  find_by_owner, or_next, first_named, repository_labels, or_missing, or_by_name, find_by_name,
  find_repository_for_branch,
}

-- The reference is one of the list.
abbrev pub IsAmong : OwnerReference → List OwnerReference → Type 0
IsAmong ref [] = ⊥
IsAmong ref (r ∷ refs) = (r ≡ ref) ⊎ IsAmong ref refs

-- The repository is one of the list.
abbrev pub IsListed : Repository → List Repository → Type 0
IsListed repo [] = ⊥
IsListed repo (r ∷ repos) = (r ≡ repo) ⊎ IsListed repo repos

abbrev pub owner_call : String → OwnerReference → Call
owner_call namespace ref = Call.get_repository (record { name = ref.name; namespace = namespace })

abbrev pub search_call : Branch → Call
search_call branch =
    Call.list_repositories (branch.meta.namespace ∷ [])
      (repository_labels branch.spec.owner branch.spec.repository)

-- How the repository was found: it was read by an owner reference to a Repository, or it is listed under the
-- labels of the branch and has the branch's owner and repository name.
pub data IsFound (env : Env) (branch : Branch) (repo : Repository) : Type 0 where
  owned :
      (ref : OwnerReference) (calls : List Call)
      → IsAmong ref branch.meta.owner_references
      → ref.kind ≡ "Repository"
      → env.repository (owner_call branch.meta.namespace ref ∷ calls) ≡ ok repo
      → IsFound env branch repo
  named :
      (repos : List Repository) (calls : List Call)
      → env.repositories (search_call branch ∷ calls) ≡ ok repos
      → IsListed repo repos
      → repo.spec.owner ≡ branch.spec.owner
      → repo.spec.name ≡ branch.spec.repository
      → IsFound env branch repo

first_named-IsListed :
    (owner name : String) (repos : List Repository) (repo : Repository)
    → first_named owner name repos ≡ some repo
    → IsListed repo repos × (repo.spec.owner ≡ owner) × (repo.spec.name ≡ name)
unfolding first_named
first_named-IsListed owner name [] repo e = cc
first_named-IsListed owner name (r ∷ repos) repo e =
    elim (Bool-cases ((r.spec.owner == owner) && (r.spec.name == name))) [
      | inl hit ↦
          let same : r ≡ repo = ground arith in
          subst (λ x. IsListed x (r ∷ repos) × (x.spec.owner ≡ owner) × (x.spec.name ≡ name)) same
            (
              inl refl,
              ground (arith, eq_iff r.spec.owner owner),
              ground (arith, eq_iff r.spec.name name),
            )
      | inr miss ↦
          let (listed, o, n) = first_named-IsListed owner name repos repo (rw miss at e) in
          (inr listed, o, n)
    ]

-- where a reference leads
data Leads (env : Env) (namespace : String) (refs : List OwnerReference) (repo : Repository)
    : Type 0 where
  by_ref :
      (ref : OwnerReference) (calls : List Call)
      → IsAmong ref refs
      → ref.kind ≡ "Repository"
      → env.repository (owner_call namespace ref ∷ calls) ≡ ok repo
      → Leads env namespace refs repo

Leads-later :
    {env : Env} {namespace : String} {refs : List OwnerReference} {repo : Repository}
    (r : OwnerReference)
    → Leads env namespace refs repo
    → Leads env namespace (r ∷ refs) repo
Leads-later r (by_ref ref calls among kind e) = by_ref ref calls (inr among) kind e

module _ (env : Env) (namespace : String) (repo : Repository) where
  find_by_owner-Leads :
      (refs : List OwnerReference) (calls : List Call) {later : List Call}
      → Returns (find_by_owner namespace refs) env calls (some repo) later
      → Leads env namespace refs repo
  unfolding find_by_owner attempt get_repository ◌>>=◌
  find_by_owner-Leads [] calls h = let e = (pure-Returns env _ h).0 in cc
  find_by_owner-Leads (ref ∷ refs) calls {later} h = elim (Bool-cases (ref.kind == "Repository")) [
    | inl owner ↦
        by_answer (env.repository (owner_call namespace ref ∷ calls)) refl owner (rw owner at h)
          (find_by_owner-Leads refs (owner_call namespace ref ∷ calls))
    | inr other ↦ Leads-later ref (find_by_owner-Leads refs calls (rw other at h))
  ]
    where
      some_injective : {a b : Repository} → some a ≡ some b → a ≡ b
      some_injective e = cc

      by_answer :
          (r : Result Repository)
          → env.repository (owner_call namespace ref ∷ calls) ≡ r
          → (ref.kind == "Repository") ≡ true
          → or_next (find_by_owner namespace refs) r env (owner_call namespace ref ∷ calls)
            ≡ (ok (some repo), later)
          → (Returns
                (find_by_owner namespace refs)
                env
                (owner_call namespace ref ∷ calls)
                (some repo)
                later
              → Leads env namespace refs repo)
          → Leads env namespace (ref ∷ refs) repo
      by_answer (ok r) e kind k next =
          let same = (pure-Returns env _ k).0 in
          by_ref ref calls (inl refl) ((eq_iff ref.kind "Repository").0 kind)
            (e ∙ ap ok (some_injective same))
      by_answer (err x) e kind k next = Leads-later ref (next k)

module _ (env : Env) (branch : Branch) (repo : Repository) where
  missing-IsFound :
      (repos : List Repository) (calls mid : List Call) {later : List Call}
      → env.repositories (search_call branch ∷ calls) ≡ ok repos
      → (o : Option Repository) → first_named branch.spec.owner branch.spec.repository repos ≡ o
      → Returns (or_missing branch o) env mid repo later
      → IsFound env branch repo
  unfolding raise
  missing-IsFound repos calls mid listed none e h = absurd (ground arith)
  missing-IsFound repos calls mid listed (some r) e h =
      let same = (pure-Returns env _ h).0 in
      let (held, o, n) =
        first_named-IsListed branch.spec.owner branch.spec.repository repos repo
          (e ∙ ap some same) in
      named repos calls listed held o n

  find_by_name-IsFound :
      (calls : List Call) {later : List Call}
      → Returns (find_by_name branch) env calls repo later
      → IsFound env branch repo
  unfolding find_by_name list_repositories
  find_by_name-IsFound calls h = bind-Returns env _ _ h λ repos mid listed rest.
      missing-IsFound repos calls mid
        (answered (wrapping-Returns env "failed to list repositories" _ listed)) _ refl rest
    where
      answered :
          {repos : List Repository} {mid : List Call}
          → Returns
              (list_repositories
                (branch.meta.namespace ∷ [])
                (repository_labels branch.spec.owner branch.spec.repository))
              env
              calls
              repos
              mid
          → env.repositories (search_call branch ∷ calls) ≡ ok repos
      answered e = cc

  by_name-IsFound :
      (o : Option Repository) (calls : List Call) {mid later : List Call}
      → Returns (find_by_owner branch.meta.namespace branch.meta.owner_references) env calls o mid
      → Returns (or_by_name branch o) env mid repo later
      → IsFound env branch repo
  by_name-IsFound none calls found h = find_by_name-IsFound _ h
  by_name-IsFound (some r) calls {mid} found h = from_ref (
      find_by_owner-Leads env branch.meta.namespace repo branch.meta.owner_references calls (
        subst
          (λ x.
            Returns (find_by_owner branch.meta.namespace branch.meta.owner_references) env calls
              (some x) mid)
          (pure-Returns env _ h).0 found))
    where
      from_ref :
          Leads env branch.meta.namespace branch.meta.owner_references repo
          → IsFound env branch repo
      from_ref (by_ref ref calls among kind e) = owned ref calls among kind e

  -- The repository that is found for a branch was read by an owner reference of the branch to a
  -- Repository, or it is listed under the branch's labels and has its owner and repository name.
  pub find_repository_for_branch-IsFound :
      (calls : List Call) {later : List Call}
      → find_repository_for_branch branch env calls ≡ (ok repo, later)
      → IsFound env branch repo
  unfolding find_repository_for_branch
  find_repository_for_branch-IsFound calls h =
      bind-Returns env _ _ h λ o mid found rest. by_name-IsFound o calls found rest
