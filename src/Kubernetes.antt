-- ===== src/Kubernetes.antt =====
-- internal/kubernetes: the manager that gives the reconcilers a GitHub client for a Repository or a
-- Branch, from the Secret that the Repository names.
pub mod Secrets
pub mod Finding
pub mod Lookups
pub mod Authenticated
use terrakojo.Prelude.{
  ℤ, pos, String, Bool, true, false, not, ◌&&◌, Option, none, some, List, [], ◌∷◌, ◌⊕◌, ◌==◌,
  if◌then◌else◌,
}
use terrakojo.Prelude.Dictionary.{Dictionary, lookup}
use terrakojo.Api.{ObjectKey, OwnerReference, GithubSecretRef, Repository, Branch, Secret}
use terrakojo.Text.Number.{parse_int}
use terrakojo.Control.{Ctl, pure, raise, lift, attempt, wrapping, in_context, ◌>>=◌, ◌>>◌}
use terrakojo.Control.Errors.{Error, Result, ok, err, and_then, message, wrap}
use terrakojo.Control.Client.{get_secret, get_repository, list_repositories}
use terrakojo.Github
use terrakojo.Github.{
  auth_token, auth_github_app, ClientLibrary, Client, new_client_from_credentials,
}

-- `GitHubCredentials` of this package
pub record Credentials : Type 0 where
  pub type : String
  pub token : String
  pub app_id : ℤ
  pub installation : ℤ
  pub private_key : String

abbrev pub convert_to_github_credentials : Credentials → Github.GithubCredentials
convert_to_github_credentials creds = record {
  type = creds.type;
  token = creds.token;
  app_id = creds.app_id;
  installation = creds.installation;
  private_key = creds.private_key;
}

abbrev pub token_credentials : String → Credentials
token_credentials token = record {
  type = auth_token;
  token = token;
  app_id = pos 0;
  installation = pos 0;
  private_key = "";
}

abbrev pub app_credentials : ℤ → ℤ → String → Credentials
app_credentials app_id installation private_key = record {
  type = auth_github_app;
  token = "";
  app_id = app_id;
  installation = installation;
  private_key = private_key;
}

-- the last field of a GitHub App
abbrev pub with_private_key : ℤ → ℤ → Option String → Result Credentials
with_private_key app_id installation none =
    err (message "github-private-key is required for GitHub App authentication")
with_private_key app_id installation (some key) = ok (app_credentials app_id installation key)

abbrev pub with_installation : Dictionary String → ℤ → Option String → Result Credentials
with_installation contents app_id none =
    err (message "github-installation-id is required for GitHub App authentication")
with_installation contents app_id (some text) =
    and_then (in_context "invalid github-installation-id" (parse_int text))
      (λ id. with_private_key app_id id (lookup "github-private-key" contents))

abbrev pub with_app_id : Dictionary String → Option String → Result Credentials
with_app_id contents none = err (
    message
      "secret does not contain valid GitHub credentials (expected 'token' or GitHub App fields)")
with_app_id contents (some text) =
    and_then (in_context "invalid github-app-id" (parse_int text))
      (λ id. with_installation contents id (lookup "github-installation-id" contents))

-- the token, if there is one that is not empty
abbrev pub token_of : Option String → Option String
token_of none = none
token_of (some token) = if token == "" then none else some token

abbrev pub or_app : Dictionary String → Option String → Result Credentials
or_app contents (some token) = ok (token_credentials token)
or_app contents none = with_app_id contents (lookup "github-app-id" contents)

unfoldable pub parse_credentials_from_secret : Secret → Result Credentials
unfolding lookup parse_int
parse_credentials_from_secret secret =
    or_app secret.contents (token_of (lookup "token" secret.contents))

unfoldable pub get_credentials_from_secret : GithubSecretRef → String → Ctl Credentials
unfolding parse_credentials_from_secret
get_credentials_from_secret ref default_namespace = do
  let namespace = if ref.namespace == "" then default_namespace else ref.namespace
  secret ←
      wrapping ("failed to get secret " ⊕ namespace ⊕ "/" ⊕ ref.name)
        (get_secret (record { name = ref.name; namespace = namespace }))
  lift (parse_credentials_from_secret secret)

-- what is found by the owner references; one that cannot be read, for whatever error, is passed over
abbrev pub or_next : Ctl (Option Repository) → Result Repository → Ctl (Option Repository)
or_next rest (ok repo) = pure (some repo)
or_next rest (err e) = rest

abbrev pub try_owner : String → OwnerReference → Ctl (Option Repository) → Ctl (Option Repository)
try_owner namespace ref rest =
    attempt (get_repository (record { name = ref.name; namespace = namespace })) >>= or_next rest

unfoldable pub find_by_owner : String → List OwnerReference → Ctl (Option Repository)
find_by_owner namespace [] = pure none
find_by_owner namespace (ref ∷ refs) =
    let rest = find_by_owner namespace refs in
    if ref.kind == "Repository" then try_owner namespace ref rest else rest

-- the first repository of the owner and the name
unfoldable pub first_named : String → String → List Repository → Option Repository
first_named owner name [] = none
first_named owner name (repo ∷ repos) =
    let rest = first_named owner name repos in
    if (repo.spec.owner == owner) && (repo.spec.name == name) then some repo else rest

-- the labels that a repository is searched by
abbrev pub repository_labels : String → String → Dictionary String
repository_labels owner name = ("terrakojo.io/owner", owner) ∷ ("terrakojo.io/repo-name", name) ∷ []

abbrev pub or_missing : Branch → Option Repository → Ctl Repository
or_missing branch (some repo) = pure repo
or_missing branch none = raise (
    message
      ("repository not found for owner=" ⊕ branch.spec.owner ⊕ ", name=" ⊕ branch.spec.repository))

unfoldable pub find_by_name : Branch → Ctl Repository
unfolding first_named
find_by_name branch = do
  repos ← wrapping "failed to list repositories" (
      list_repositories (branch.meta.namespace ∷ [])
        (repository_labels branch.spec.owner branch.spec.repository))
  or_missing branch (first_named branch.spec.owner branch.spec.repository repos)

abbrev pub or_by_name : Branch → Option Repository → Ctl Repository
or_by_name branch (some repo) = pure repo
or_by_name branch none = find_by_name branch

unfoldable pub find_repository_for_branch : Branch → Ctl Repository
unfolding find_by_owner find_by_name
find_repository_for_branch branch = do
  found ← find_by_owner branch.meta.namespace branch.meta.owner_references
  or_by_name branch found

module _ (lib : ClientLibrary) where
  unfoldable pub get_client_for_repository : Repository → Ctl Client
  unfolding get_credentials_from_secret new_client_from_credentials
  get_client_for_repository repo = do
    creds ←
        wrapping "failed to get repository credentials"
          (get_credentials_from_secret repo.spec.github_secret_ref repo.meta.namespace)
    lift (new_client_from_credentials lib (convert_to_github_credentials creds))

  unfoldable pub get_client_for_branch : Branch → Ctl Client
  unfolding find_repository_for_branch get_client_for_repository
  get_client_for_branch branch = do
    repo ← wrapping "failed to find repository for branch" (find_repository_for_branch branch)
    get_client_for_repository repo
