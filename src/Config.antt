-- ===== src/Config.antt =====
-- internal/config/config.go: the configuration of the process, read from its environment.
pub mod Loading
use terrakojo.Prelude.{ℤ, pos, String, ◌==◌, if◌then◌else◌}
use terrakojo.Control.Errors.{Result, ok, err}
use terrakojo.Text.Number.{parse_int}

pub record Config : Type 0 where
  pub webhook_github_secret : String
  pub github_token : String
  pub github_app_id : ℤ
  pub github_installation_id : ℤ
  pub github_private_key_path : String

abbrev pub value_or {ℓ} : {A : Type ℓ} → A → Result A → A
value_or default (ok a) = a
value_or default (err e) = default

-- `os.Getenv` is a parameter: the empty text where the variable is not set.
module _ (getenv : String → String) where
  unfoldable pub get_env : String → String → String
  get_env key default = if getenv key == "" then default else getenv key

  unfoldable pub get_env_as_int64 : String → ℤ → ℤ
  unfolding parse_int
  get_env_as_int64 key default =
      if getenv key == "" then default else value_or default (parse_int (getenv key))

  unfoldable pub load_config : Config
  unfolding get_env get_env_as_int64
  load_config = record {
    webhook_github_secret = get_env "GITHUB_WEBHOOK_SECRET" "";
    github_token = get_env "GITHUB_TOKEN" "";
    github_app_id = get_env_as_int64 "GITHUB_APP_ID" (pos 0);
    github_installation_id = get_env_as_int64 "GITHUB_INSTALLATION_ID" (pos 0);
    github_private_key_path = get_env "GITHUB_PRIVATE_KEY_PATH" "/path/to/private-key.pem";
  }
