-- ===== src/Tests/Config.antt =====
-- Examples on the configuration.
use terrakojo.Prelude.{◌≡◌, refl, arith, pos, String, ◌==◌, if◌then◌else◌}
use terrakojo.Text.Decimal.{itoa}
use terrakojo.Config.{get_env_as_int64}
use terrakojo.Config.Loading.{get_env_as_int64-itoa}

-- an environment with the app's number alone
abbrev getenv : String → String
getenv key = if key == "GITHUB_APP_ID" then "90210" else ""

get_env_as_int64-itoa_example : get_env_as_int64 getenv "GITHUB_APP_ID" (pos 0) ≡ pos 90210
unfolding itoa
get_env_as_int64-itoa_example =
    get_env_as_int64-itoa getenv "GITHUB_APP_ID" (pos 0) (pos 90210) (omega arith) refl
