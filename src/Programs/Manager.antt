-- ===== src/Programs/Manager.antt =====
-- cmd/main.go: the flags and the start of the controller manager, and SetupWithManager of the three
-- reconcilers (internal/controller).
pub mod Order
use terrakojo.Prelude.{ℕ, String, Bool, true, false, not, List, [], ◌∷◌, ◌==◌, if◌then◌else◌}
use terrakojo.Api.{Branch, Workflow}
use terrakojo.Owners.{index_by_owner_branch_uid, index_by_owner_repository_uid}
use terrakojo.Programs.Startup.{Setup, perform, ◌>>◌, Types, kubernetes_types, custom_types}

pub record Flags : Type 0 where
  pub metrics_addr : String
  pub probe_addr : String
  pub enable_leader_election : Bool
  pub secure_metrics : Bool
  pub webhook_cert_path : String
  pub webhook_cert_name : String
  pub webhook_cert_key : String
  pub metrics_cert_path : String
  pub metrics_cert_name : String
  pub metrics_cert_key : String
  pub enable_http2 : Bool

abbrev pub default_flags : Flags
default_flags = record {
  metrics_addr = "0";
  probe_addr = ":8081";
  enable_leader_election = false;
  secure_metrics = true;
  webhook_cert_path = "";
  webhook_cert_name = "tls.crt";
  webhook_cert_key = "tls.key";
  metrics_cert_path = "";
  metrics_cert_name = "tls.crt";
  metrics_cert_key = "tls.key";
  enable_http2 = false;
}

-- `tls.Config`, with the field that the program sets
pub record TlsConfig : Type 0 where
  pub next_protos : List String

abbrev pub disable_http2 : TlsConfig → TlsConfig
disable_http2 c = record c { next_protos = "http/1.1" ∷ [] }

abbrev pub tls_options : Flags → List (TlsConfig → TlsConfig)
tls_options flags = if not flags.enable_http2 then disable_http2 ∷ [] else []

-- the certificate's directory, its file and that of its key; empty where they are not given
pub record Certificate : Type 0 where
  pub cert_dir : String
  pub cert_name : String
  pub key_name : String

-- the files are set where there is a directory
abbrev pub certificate : String → String → String → Certificate
certificate path name key =
    if not (path == "")
    then record { cert_dir = path; cert_name = name; key_name = key }
    else record { cert_dir = ""; cert_name = ""; key_name = "" }

pub record WebhookOptions : Type 0 where
  pub tls_opts : List (TlsConfig → TlsConfig)
  pub cert : Certificate

abbrev pub webhook_server_options : Flags → WebhookOptions
webhook_server_options flags = record {
  tls_opts = tls_options flags;
  cert = certificate flags.webhook_cert_path flags.webhook_cert_name flags.webhook_cert_key;
}

-- `authorized` says whether the filter for authentication and authorization is set
pub record MetricsOptions : Type 0 where
  pub bind_address : String
  pub secure_serving : Bool
  pub tls_opts : List (TlsConfig → TlsConfig)
  pub authorized : Bool
  pub cert : Certificate

abbrev pub metrics_server_options : Flags → MetricsOptions
metrics_server_options flags = record {
  bind_address = flags.metrics_addr;
  secure_serving = flags.secure_metrics;
  tls_opts = tls_options flags;
  authorized = if flags.secure_metrics then true else false;
  cert = certificate flags.metrics_cert_path flags.metrics_cert_name flags.metrics_cert_key;
}

pub record ManagerOptions : Type 0 where
  pub metrics : MetricsOptions
  pub webhook : WebhookOptions
  pub health_probe_bind_address : String
  pub leader_election : Bool
  pub leader_election_id : String

abbrev pub manager_options : Flags → ManagerOptions
manager_options flags = record {
  metrics = metrics_server_options flags;
  webhook = webhook_server_options flags;
  health_probe_bind_address = flags.probe_addr;
  leader_election = flags.enable_leader_election;
  leader_election_id = "99913b1e.terrakojo.io";
}

-- the resources that controllers are for, and that they own
pub data Kind : Type 0 where
  repository : Kind
  branch : Kind
  workflow : Kind
  job : Kind

-- the calls of the libraries that may fail
pub data Step : Type 0 where
  add_types : Types → Step
  get_config : Step
  new_manager : ManagerOptions → Step
  -- the field, and the keys of an object
  index_branches : String → (Branch → List String) → Step
  index_workflows : String → (Workflow → List String) → Step
  -- what the controller is for, what it owns, and its name
  complete_controller : Kind → List Kind → String → Step
  add_healthz_check : String → Step
  add_readyz_check : String → Step
  start_manager : Step

abbrev pub owner_uid_field : String
owner_uid_field = "metadata.ownerReferences.uid"

-- SetupWithManager of the three reconcilers
unfoldable pub setup_repository_reconciler : Setup Step
unfolding index_by_owner_repository_uid
setup_repository_reconciler = do
  perform (index_branches owner_uid_field index_by_owner_repository_uid)
  perform (complete_controller repository [] "repository")

unfoldable pub setup_branch_reconciler : Setup Step
unfolding index_by_owner_branch_uid
setup_branch_reconciler = do
  perform (index_workflows owner_uid_field index_by_owner_branch_uid)
  perform (complete_controller branch (workflow ∷ []) "branch")

unfoldable pub setup_workflow_reconciler : Setup Step
setup_workflow_reconciler = perform (complete_controller workflow (job ∷ []) "workflow")

unfoldable pub run_manager : Flags → Setup Step
unfolding setup_repository_reconciler setup_branch_reconciler setup_workflow_reconciler
run_manager flags = do
  perform get_config
  perform (new_manager (manager_options flags))
  setup_repository_reconciler
  setup_branch_reconciler
  setup_workflow_reconciler
  perform (add_healthz_check "healthz")
  perform (add_readyz_check "readyz")
  perform start_manager

-- `init`
unfoldable pub init_scheme : Setup Step
init_scheme = do perform (add_types kubernetes_types); perform (add_types custom_types)

abbrev pub exit_status : ℕ → Bool → ℕ
exit_status code failed = if failed then code else 0

-- the exit status, and the steps done: a failure in `init` panics, which exits with 2, and each failure in `main`
-- exits with 1
unfoldable pub main : Flags → (List Step → Bool) → ℕ × List Step
unfolding init_scheme run_manager
main flags fails =
    let (panicked, steps) = init_scheme fails [] in
    if panicked
    then (2, steps)
    else let (failed, later) = run_manager flags fails steps in (exit_status 1 failed, later)
