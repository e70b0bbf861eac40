-- ===== src/Tests/Fixtures.antt =====
-- A cluster in which every request fails, and small objects to put into it.
use terrakojo.Prelude.{pos, true, false, none, some, List, [], ◌∷◌, ◌==◌}
use terrakojo.Api.{ObjectKey, OwnerReference, blank_meta, Branch, Repository, WorkflowTemplate}
use terrakojo.Api.Batch.{JobSpec, Container}
use terrakojo.Control.Calls.{Call}
use terrakojo.Control.Errors.{foreign, Result, ok, err}
use terrakojo.Control.Environment.{Env}

abbrev absent : {A : Type 0} → List Call → Result A
absent calls = err (foreign 404)

abbrev pub quiet : Env
quiet = record {
  repository = absent;
  branch = absent;
  workflow = absent;
  workflow_template = absent;
  job = absent;
  secret = absent;
  repositories = absent;
  branches = absent;
  workflows = absent;
  workflow_templates = absent;
  done = λ calls. ok tt;
  github_client = absent;
  changed_files = absent;
  commit = absent;
  github_branch = absent;
  github_branches = absent;
  pull_requests = absent;
  comparison = absent;
  check_run_id = absent;
  now = λ calls. 7;
  new_uuid = λ calls. "fresh";
  error_text = λ e. "not found";
  is_not_found = λ e. true;
  is_already_exists = λ e. false;
  is_invalid = λ e. false;
  is_forbidden = λ e. false;
  set_status_condition = λ now conditions condition. (condition ∷ [], true);
  get_controller_of = λ meta. none;
  contains_finalizer = λ meta finalizer. true;
  add_finalizer = λ meta finalizer. record meta { finalizers = finalizer ∷ [] };
  remove_finalizer = λ meta finalizer. record meta { finalizers = [] };
  set_controller_reference = λ kind owner meta. ok meta;
  retry_on_conflict = λ body calls. body calls;
  matches = λ pattern file. pattern == file;
  sha256_hex = λ s. s;
}

abbrev pub key : ObjectKey
key = record { name = "feature"; namespace = "ns" }

abbrev pub owner : OwnerReference
owner = record { kind = "Repository"; name = "repo"; uid = "u1"; controller = some true }

abbrev pub feature : Branch
feature = record {
  meta = record blank_meta {
    name = "feature";
    namespace = "ns";
    uid = "b1";
    owner_references = owner ∷ [];
  };
  spec = record {
    owner = "o";
    repository = "repo";
    name = "feature";
    pr_number = pos 0;
    sha = "c0ffee";
  };
  status = record { conditions = []; workflows = []; changed_files = [] };
}

abbrev pub repo : Repository
repo = record {
  meta = record blank_meta { name = "repo"; namespace = "ns"; uid = "u1" };
  spec = record {
    owner = "o";
    name = "repo";
    type = "github";
    default_branch = "main";
    github_secret_ref = record { name = "secret"; namespace = "" };
  };
  status = record {
    conditions = [];
    last_default_branch_head_sha = "";
    last_bootstrap_reset_id = "";
    synced = false;
  };
}

abbrev pub container : Container
container = record { name = "main"; image = "alpine"; env = []; security_context = none }

abbrev pub job_spec : JobSpec
job_spec = record {
  backoff_limit = none;
  pod_spec = record {
    init_containers = [];
    containers = container ∷ [];
    restart_policy = "";
    security_context = none;
  };
}

abbrev pub template : WorkflowTemplate
template = record {
  meta = record blank_meta { name = "plan" };
  spec = record {
    display_name = "Plan";
    match = record { paths = "src/main.tf" ∷ []; execution_unit = "folder" };
    job = job_spec;
  };
  status = [];
}
