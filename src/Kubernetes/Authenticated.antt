-- ===== src/Kubernetes/Authenticated.antt =====
-- internal/kubernetes/github_manager.go with internal/github/client.go: what the client of a Repository
-- authenticates with.
use terrakojo.Prelude.{
  ◌≡◌, sym, ap, subst, ℤ, String, false, Option, none, some, List, ◌∷◌, ◌==◌, if◌then◌else◌,
}
use terrakojo.Prelude.Dictionary.{Dictionary, lookup}
use terrakojo.Api.{Repository, Secret}
use terrakojo.Control.Calls.{Call}
use terrakojo.Control.Environment.{Env}
use terrakojo.Control.Errors.{Result, ok, err}
use terrakojo.Control.Runs.{bind-Returns, lift-Returns, wrapping-Returns, ask-Returns}
use terrakojo.Control.Client.{get_secret}
use terrakojo.Github.{
  Client, ClientLibrary, HttpClient, with_token, with_installation, client_at, new_github_client,
  new_client_from_credentials, with_transport, GithubCredentials,
}
use terrakojo.Kubernetes.{
  Credentials, app_credentials, convert_to_github_credentials, get_client_for_repository,
  get_credentials_from_secret,
}
use terrakojo.Kubernetes.Secrets.{ReadFrom, token, app, parse_credentials_from_secret_exact}
use terrakojo.Text.Number.{parse_int}

-- The HTTP client carries a token or a GitHub App's identity that stands in the Secret.
pub data Authenticates (contents : Dictionary String) : HttpClient → Type 0 where
  by_token :
      (t : String)
      → lookup "token" contents ≡ some t
      → (t == "") ≡ false
      → Authenticates contents (with_token t)
  by_app :
      (a i key : String) (app_id installation : ℤ)
      → lookup "github-app-id" contents ≡ some a
      → parse_int a ≡ ok app_id
      → lookup "github-installation-id" contents ≡ some i
      → parse_int i ≡ ok installation
      → lookup "github-private-key" contents ≡ some key
      → Authenticates contents (with_installation app_id installation key)

checked-http :
    (http : HttpClient) (urls : Option (String × String)) (r : Result (Unit {0})) (client : Client)
    → (elim r as (λ r. Result Client) [
      | ok u ↦ ok (record { http = http; urls = urls })
      | err e ↦ err e
    ])
      ≡ ok client
    → client.http ≡ http
checked-http http urls (ok u) client e =
    let same : record { http = http; urls = urls } ≡ client = cc in ap (λ c. c.http) (sym same)
checked-http http urls (err x) client e = cc

client_at-http :
    (http : HttpClient) (check : String → String → Result (Unit {0}))
    (urls : Option (String × String)) (client : Client)
    → client_at http check urls ≡ ok client
    → client.http ≡ http
client_at-http http check none client e =
    let same : record { http = http; urls = none } ≡ client = cc in ap (λ c. c.http) (sym same)
client_at-http http check (some (api, upload)) client e =
    checked-http http (some (api, upload)) (check api upload) client e

module _ (lib : ClientLibrary) where
  new_github_client-http :
      (http : HttpClient) (client : Client)
      → new_github_client lib http ≡ ok client
      → client.http ≡ http
  unfolding new_github_client
  new_github_client-http http client e = client_at-http http lib.with_enterprise_urls _ client e

  with_transport-http :
      (creds : GithubCredentials) (r : Result (Unit {0})) (client : Client)
      → with_transport lib creds r ≡ ok client
      → client.http ≡ with_installation creds.app_id creds.installation creds.private_key
  with_transport-http creds (ok u) client e = new_github_client-http _ client e
  with_transport-http creds (err x) client e = cc

  credentials-Authenticates :
      (contents : Dictionary String) (creds : Credentials) (client : Client)
      → ReadFrom contents creds
      → new_client_from_credentials lib (convert_to_github_credentials creds) ≡ ok client
      → Authenticates contents client.http
  unfolding new_client_from_credentials
  credentials-Authenticates contents creds client (token t there given same) e =
      let e' = rw same at e in
      subst (Authenticates contents) (sym (new_github_client-http (with_token t) client e'))
        (by_token t there given)
  credentials-Authenticates contents creds client
        (app a i key app_id installation no_token ha pa hi pi hk fits same) e =
      let e' = rw same at e in
      subst (Authenticates contents)
        (sym (
          with_transport-http
            (convert_to_github_credentials (app_credentials app_id installation key))
            (lib.new_transport app_id installation key) client e'))
        (by_app a i key app_id installation ha pa hi pi hk)

  -- A client that is made for a Repository authenticates with what stands in the Secret that the Repository
  -- names, in the namespace that it names or else in its own, as it is read for that client: with the
  -- token, which is not empty, or with the two numbers and the key of a GitHub App.
  pub get_client_for_repository-Authenticates :
      (env : Env) (repo : Repository) (client : Client) (calls : List Call) {later : List Call}
      → get_client_for_repository lib repo env calls ≡ (ok client, later)
      → (secret : Secret) × (env.secret (
            Call.get_secret (record {
              name = repo.spec.github_secret_ref.name;
              namespace =
                  if repo.spec.github_secret_ref.namespace == ""
                  then repo.meta.namespace
                  else repo.spec.github_secret_ref.namespace;
            })
            ∷ calls)
          ≡ ok secret)
        × Authenticates secret.contents client.http
  unfolding get_client_for_repository get_credentials_from_secret get_secret
  get_client_for_repository-Authenticates env repo client calls h =
      bind-Returns env _ _ h λ creds mid got rest.
        bind-Returns env _ _ (wrapping-Returns env _ _ got) λ secret mid' read parsed.
          let (answer, u) = ask-Returns env _ (λ env. env.secret) (wrapping-Returns env _ _ read) in
          let (made, v) = lift-Returns env _ rest in
          let (is_parsed, w) = lift-Returns env _ parsed in
          (
            secret,
            answer,
            credentials-Authenticates secret.contents creds client
                ((parse_credentials_from_secret_exact secret creds).0 is_parsed) made,
          )
