-- ===== src/Github.antt =====
-- internal/github/client.go: how a GitHub client is made of credentials.
pub mod Paging
pub mod Operations
use terrakojo.Prelude.{
  ℤ, String, Bool, true, false, ◌&&◌, Option, none, some, ◌⊕◌, ◌==◌, if◌then◌else◌,
}
use terrakojo.Control.Errors.{Error, Result, ok, err, message, wrap}
use terrakojo.Text.Space.{trim_space, ends_with_slash}

-- `GitHubAuthType`, a text that may be any other
abbrev pub auth_token : String
auth_token = "token"

abbrev pub auth_github_app : String
auth_github_app = "github-app"

pub record GithubCredentials : Type 0 where
  pub type : String
  pub token : String
  pub app_id : ℤ
  pub installation : ℤ
  pub private_key : String

-- the HTTP client of golang.org/x/oauth2 with a token, or that with a transport of ghinstallation, by the
-- identifiers and the key that it is made of
pub data HttpClient : Type 0 where
  with_token : String → HttpClient
  with_installation : ℤ → ℤ → String → HttpClient

-- go-github's client; `urls` are the API and the upload URL where they are not GitHub's
pub record Client : Type 0 where
  pub http : HttpClient
  pub urls : Option (String × String)

-- What this code does not implement: the environment, the check that `ghinstallation.New` makes of a
-- private key, and that of `WithEnterpriseURLs` of the two URLs.
pub record ClientLibrary : Type 0 where
  pub getenv : String → String
  pub new_transport : ℤ → ℤ → String → Result (Unit {0})
  pub with_enterprise_urls : String → String → Result (Unit {0})

unfoldable pub ensure_trailing_slash : String → String
unfolding ends_with_slash
ensure_trailing_slash value = if ends_with_slash value then value else value ⊕ "/"

-- the URLs that the client is pointed at; none where neither variable is set
unfoldable pub client_urls : String → String → Option (String × String)
unfolding ensure_trailing_slash
client_urls api_url upload_url =
    let api =
      ensure_trailing_slash (if api_url == "" then "https://api.github.com/" else api_url) in
    let upload = ensure_trailing_slash (if upload_url == "" then api else upload_url) in
    if api_url == "" && upload_url == "" then none else some (api, upload)

abbrev pub client_at :
    HttpClient → (String → String → Result (Unit {0})) → Option (String × String) → Result Client
client_at http check none = ok (record { http = http; urls = none })
client_at http check (some (api, upload)) = elim (check api upload) [
  | ok u ↦ ok (record { http = http; urls = some (api, upload) })
  | err e ↦ err e
]

module _ (lib : ClientLibrary) where
  unfoldable pub new_github_client : HttpClient → Result Client
  unfolding client_urls trim_space
  new_github_client http = client_at http lib.with_enterprise_urls (
      client_urls (trim_space (lib.getenv "GITHUB_API_URL"))
        (trim_space (lib.getenv "GITHUB_UPLOAD_URL")))

  abbrev pub with_transport : GithubCredentials → Result (Unit {0}) → Result Client
  with_transport creds (ok u) =
      new_github_client (with_installation creds.app_id creds.installation creds.private_key)
  with_transport creds (err e) = err (wrap "failed to create GitHub App transport" e)

  unfoldable pub new_client_from_credentials : GithubCredentials → Result Client
  unfolding new_github_client
  new_client_from_credentials creds =
      if creds.type == auth_token
      then new_github_client (with_token creds.token)
      else if creds.type == auth_github_app
      then with_transport creds
          (lib.new_transport creds.app_id creds.installation creds.private_key)
      else err (message ("unsupported authentication type: " ⊕ creds.type))

  -- `NewClient`, from the configuration of the process
  unfoldable pub new_client : ℤ → ℤ → String → Result Client
  unfolding new_github_client
  new_client app_id installation private_key_path =
      elim (lib.new_transport app_id installation private_key_path) [
        | ok u ↦ new_github_client (with_installation app_id installation private_key_path)
        | err e ↦ err (wrap "failed to create GitHub installation transport" e)
      ]
