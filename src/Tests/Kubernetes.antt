-- ===== src/Tests/Kubernetes.antt =====
-- Examples on the client that is made for a branch.
use terrakojo.Prelude.{none, ◌≡◌, ◌↔◌, refl, pos, [], ◌∷◌, All}
use terrakojo.Api.{Secret}
use terrakojo.Control.Environment.{Env}
use terrakojo.Control.Errors.{ok}
use terrakojo.Control.{◌>>=◌, attempt, lift, pure, wrapping}
use terrakojo.Control.Client.{get_repository, get_secret}
use terrakojo.Control.Calls.{Call}
use terrakojo.Github.{Client, ClientLibrary, with_installation}
use terrakojo.Kubernetes.{
  Credentials, app_credentials, parse_credentials_from_secret, find_by_owner,
  find_repository_for_branch, get_client_for_branch, get_client_for_repository,
}
use terrakojo.Kubernetes.Secrets.{ReadFrom, parse_credentials_from_secret_exact}
use terrakojo.Kubernetes.Finding.{IsFound, find_repository_for_branch-IsFound}
use terrakojo.Kubernetes.Lookups.{IsLookup, get_client_for_branch-IsLookup}
use terrakojo.Kubernetes.Authenticated.{Authenticates, get_client_for_repository-Authenticates}
use terrakojo.Tests.Fixtures.{quiet, feature, repo}

abbrev secret : Secret
secret = record {
  contents =
      ("github-app-id", "12")
      ∷ ("github-installation-id", "345")
      ∷ ("github-private-key", "key")
      ∷ [];
}

abbrev credentials : Credentials
credentials = app_credentials (pos 12) (pos 345) "key"

parse_credentials_from_secret_exact_example :
    parse_credentials_from_secret secret ≡ ok credentials ↔ ReadFrom secret.contents credentials
parse_credentials_from_secret_exact_example = parse_credentials_from_secret_exact secret credentials

abbrev cluster : Env
cluster = record quiet { repository = λ calls. ok repo; secret = λ calls. ok secret }

find_repository_for_branch-IsFound_example : IsFound cluster feature repo
unfolding find_repository_for_branch ◌>>=◌ find_by_owner attempt get_repository pure
find_repository_for_branch-IsFound_example =
    find_repository_for_branch-IsFound cluster feature repo [] refl

abbrev library : ClientLibrary
library = record {
  getenv = λ name. "";
  new_transport = λ app_id installation key. ok tt;
  with_enterprise_urls = λ api upload. ok tt;
}

get_client_for_branch-IsLookup_example :
    All (IsLookup cluster feature) (get_client_for_branch library feature cluster []).1
get_client_for_branch-IsLookup_example =
    get_client_for_branch-IsLookup cluster feature library [] tt

abbrev app_client : Client
app_client = record { http = with_installation (pos 12) (pos 345) "key"; urls = none }

get_client_for_repository-Authenticates_example :
    (read : Secret) × (cluster.secret
        (Call.get_secret (record { name = "secret"; namespace = "ns" }) ∷ [])
      ≡ ok read)
    × Authenticates read.contents app_client.http
unfolding get_client_for_repository ◌>>=◌ wrapping get_secret lift
get_client_for_repository-Authenticates_example =
    get_client_for_repository-Authenticates library cluster repo app_client [] refl
