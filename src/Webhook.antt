-- ===== src/Webhook.antt =====
-- internal/github/parser.go and internal/webhook/webhook.go: what an event says, how a request of GitHub
-- is answered, and how a Repository is asked to sync.
pub mod Answers
pub mod Effects
pub mod Refs
pub mod Selection
pub mod Marking
use terrakojo.Prelude.{
  ℕ, ℤ, pos, String, Bool, true, false, not, Option, none, some, List, [], ◌∷◌, ◌==◌, int_le,
  if◌then◌else◌,
}
use terrakojo.Prelude.Dictionary.{Dictionary, insert}
use terrakojo.Api.{ObjectKey, ObjectMeta, Repository, key_of}
use terrakojo.Text.Space.{trim_prefix}
use terrakojo.Control.{Ctl, pure, gets, attempt, ◌>>=◌, ◌>>◌}
use terrakojo.Control.Errors.{Error, Result, ok, err}
use terrakojo.Control.Client.{get_repository, list_repositories, update_repository}

abbrev pub event_type_push : String
event_type_push = "push"

abbrev pub event_type_pr : String
event_type_pr = "pull_request"

abbrev pub event_type_ping : String
event_type_ping = "ping"

pub record WebhookInfo : Type 0 where
  pub event_type : String
  pub owner : String
  pub repository_name : String
  pub repository_full_name : String
  pub base_branch_name : String
  pub branch_name : String
  pub commit_sha : String
  pub merge_commit_sha : String
  pub pr_number : Option ℤ
  pub action : String
  pub merged : Bool

-- What the program reads of the payloads of go-playground/webhooks: the repository by its owner's
-- login, its name and its full name, and a pull request by the refs of its two ends.
pub record EventRepository : Type 0 where
  pub owner_login : String
  pub name : String
  pub full_name : String

pub record PullRequestPayload : Type 0 where
  pub action : String
  pub number : ℤ
  pub base_ref : String
  pub head_ref : String
  pub head_sha : String
  pub merge_commit_sha : Option String
  pub merged : Bool
  pub repository : EventRepository

pub record PushPayload : Type 0 where
  pub ref : String
  pub after : String
  pub repository : EventRepository

pub data Payload : Type 0 where
  pull_request : PullRequestPayload → Payload
  push : PushPayload → Payload
  ping : Payload
  -- any other type
  other : Payload

abbrev pub text_or_empty : Option String → String
text_or_empty none = ""
text_or_empty (some text) = text

-- The number is an int64, as wide as an `int` where the program runs.
abbrev pub process_pull_request_event : PullRequestPayload → WebhookInfo
process_pull_request_event event = record {
  event_type = event_type_pr;
  owner = event.repository.owner_login;
  repository_name = event.repository.name;
  repository_full_name = event.repository.full_name;
  base_branch_name = event.base_ref;
  branch_name = event.head_ref;
  commit_sha = event.head_sha;
  merge_commit_sha = text_or_empty event.merge_commit_sha;
  pr_number = some event.number;
  action = event.action;
  merged = event.merged;
}

unfoldable pub process_push_event : PushPayload → WebhookInfo
unfolding trim_prefix
process_push_event event = record {
  event_type = event_type_push;
  owner = event.repository.owner_login;
  repository_name = event.repository.name;
  repository_full_name = event.repository.full_name;
  base_branch_name = "";
  branch_name = trim_prefix event.ref "refs/heads/";
  commit_sha = event.after;
  merge_commit_sha = "";
  pr_number = none;
  action = "";
  merged = false;
}

abbrev pub ping_info : WebhookInfo
ping_info = record {
  event_type = event_type_ping;
  owner = "";
  repository_name = "";
  repository_full_name = "";
  base_branch_name = "";
  branch_name = "";
  commit_sha = "";
  merge_commit_sha = "";
  pr_number = none;
  action = "";
  merged = false;
}

unfoldable pub info_of : Payload → Option WebhookInfo
unfolding process_push_event
info_of (pull_request event) = some (process_pull_request_event event)
info_of (push event) = some (process_push_event event)
info_of ping = some ping_info
info_of other = none

-- what a call of the wrapped reader returns beside the bytes
pub data ReadOutcome : Type 0 where
  fine : ReadOutcome
  eof : ReadOutcome
  failed : Error → ReadOutcome

-- `webhookBody.Read`: the first error that is not the end of the body is kept
abbrev pub read : Option Error → ReadOutcome → Option Error
read (some e) outcome = some e
read none fine = none
read none eof = none
read none (failed e) = some e

unfoldable pub read_error : Option Error → List ReadOutcome → Option Error
read_error seen [] = seen
read_error seen (outcome ∷ outcomes) = read_error (read seen outcome) outcomes

-- the two headers, and the empty text where one is missing
pub record Request : Type 0 where
  pub method : String
  pub github_event : String
  pub gitlab_event : String
  pub content_length : ℤ
  pub body : String

pub record Response : Type 0 where
  pub status : ℕ
  pub text : String

-- `Parse` of go-playground/webhooks, by the outcomes of its reads of the body, in their order, and its
-- result; `errors.As` for `*http.MaxBytesError`; and the RFC 3339 text of a time.
pub record WebhookLibrary : Type 0 where
  pub reads : Request → List ReadOutcome
  pub parse : Request → Result Payload
  pub is_max_bytes_error : Error → Bool
  pub format_time : ℕ → String

abbrev pub max_webhook_body_bytes : ℕ
max_webhook_body_bytes = 26214400

abbrev pub sync_request_annotation : String
sync_request_annotation = "terrakojo.io/sync-requested-at"

abbrev pub sync_selector : WebhookInfo → Dictionary String
sync_selector info =
    ("terrakojo.io/owner", info.owner) ∷ ("terrakojo.io/repo-name", info.repository_name) ∷ []

unfoldable pub with_sync_request : String → Repository → Repository
unfolding insert
with_sync_request stamp repo = record repo {
  meta = record (repo.meta) {
    annotations = insert sync_request_annotation stamp repo.meta.annotations;
  };
}

module _ (lib : WebhookLibrary) where
  -- what is tried again on a conflict
  unfoldable pub annotate : ObjectKey → Ctl (Unit {0})
  unfolding with_sync_request
  annotate key = do
    repo ← get_repository key
    stamp ← gets (λ env calls. lib.format_time (env.now calls))
    update_repository (with_sync_request stamp repo)
    pure tt

  abbrev pub annotate_first : List Repository → Ctl (Unit {0})
  annotate_first [] = pure tt
  annotate_first (repo ∷ repos) =
      λ env calls. env.retry_on_conflict (annotate (key_of repo.meta) env) calls

  unfoldable pub request_repository_sync : WebhookInfo → Ctl (Unit {0})
  unfolding annotate
  request_repository_sync info = list_repositories [] (sync_selector info) >>= annotate_first

  -- an error of the sync is only logged
  abbrev pub after_response : Option WebhookInfo → Ctl (Unit {0})
  after_response none = pure tt
  after_response (some info) =
      if info.event_type == event_type_ping
      then pure tt
      else attempt (request_repository_sync info) >> pure tt

  -- The response, and what the handler does once it is written.
  abbrev pub after_reading : Option Error → Result Payload → Response × Ctl (Unit {0})
  after_reading (some e) parsed = (
    if lib.is_max_bytes_error e
        then record { status = 413; text = "Webhook payload too large" }
        else record { status = 400; text = "Failed to read webhook payload" },
    pure tt,
  )
  after_reading none (err e) = (record { status = 500; text = "Internal server error" }, pure tt)
  after_reading none (ok payload) =
      (record { status = 200; text = "OK" }, after_response (info_of payload))

  unfoldable pub handle_github_webhook : Request → Response × Ctl (Unit {0})
  unfolding read_error info_of request_repository_sync
  handle_github_webhook r =
      if not (int_le r.content_length (pos max_webhook_body_bytes))
      then (record { status = 413; text = "Webhook payload too large" }, pure tt)
      else after_reading (read_error none (lib.reads r)) (lib.parse r)

  unfoldable pub serve_http : Request → Response × Ctl (Unit {0})
  unfolding handle_github_webhook
  serve_http r =
      if not (r.method == "POST")
      then (record { status = 405; text = "Method not allowed" }, pure tt)
      else if not (r.github_event == "")
      then handle_github_webhook r
      else if not (r.gitlab_event == "")
      then (record { status = 500; text = "Internal server error" }, pure tt)
      else (record { status = 500; text = "Internal server error" }, pure tt)
