-- ===== src/Programs/Server.antt =====
-- cmd/server/main.go: the program that serves the webhook, with NewClient of internal/kubernetes and NewHandler
-- of internal/webhook.
use terrakojo.Prelude.{ℕ, String, Bool, List, [], ◌∷◌}
use terrakojo.Config.{Config, load_config}
use terrakojo.Programs.Startup.{Setup, perform, ◌>>◌, Types, kubernetes_types, custom_types}

-- the handler, by the secret that its parser of GitHub's events was made with; the client that it also holds is left
-- out
pub record Handler : Type 0 where
  pub secret : String

-- times in seconds
pub record HttpServer : Type 0 where
  pub addr : String
  pub routes : List (String × Handler)
  pub read_header_timeout : ℕ
  pub read_timeout : ℕ
  pub write_timeout : ℕ
  pub idle_timeout : ℕ

-- the calls of the libraries that may fail
pub data Step : Type 0 where
  get_config : Step
  new_client : List Types → Step
  -- with the secret
  new_parser : String → Step
  listen_and_serve : HttpServer → Step

-- a failure to add types is ignored
unfoldable pub new_kubernetes_client : Setup Step
new_kubernetes_client = do
  perform get_config
  perform (new_client (kubernetes_types ∷ custom_types ∷ []))

abbrev pub new_handler : Config → Setup Step
new_handler cfg = perform (new_parser cfg.webhook_github_secret)

abbrev pub handler_of : Config → Handler
handler_of cfg = record { secret = cfg.webhook_github_secret }

abbrev pub new_http_server : Handler → HttpServer
new_http_server handler = record {
  addr = ":8080";
  routes = ("/webhook", handler) ∷ [];
  read_header_timeout = 5;
  read_timeout = 10;
  write_timeout = 15;
  idle_timeout = 60;
}

unfoldable pub serve_webhook : Config → Setup Step
unfolding new_kubernetes_client
serve_webhook cfg = do
  new_kubernetes_client
  new_handler cfg
  perform (listen_and_serve (new_http_server (handler_of cfg)))

-- the exit status, and the steps done: each failure exits with 1, and so does the end of the server
unfoldable pub main : (String → String) → (List Step → Bool) → ℕ × List Step
unfolding serve_webhook load_config
main getenv fails = (1, (serve_webhook (load_config getenv) fails []).1)
