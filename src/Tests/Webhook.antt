-- ===== src/Tests/Webhook.antt =====
-- Examples on the webhook.
use terrakojo.Prelude.{
  ◌≡◌, ◌≢◌, ◌↔◌, refl, arith, pos, none, some, List, [], ◌∷◌, ◌++◌, All, false, eq_iff,
}
use terrakojo.Control.{pure}
use terrakojo.Control.Environment.{Env}
use terrakojo.Control.Histories.{EndsWithRun}
use terrakojo.Control.Errors.{foreign, ok}
use terrakojo.Repositories.{required_labels, set_labels}
use terrakojo.Webhook
use terrakojo.Webhook.{
  PushPayload, Request, WebhookLibrary, ReadOutcome, fine, eof, failed, WebhookInfo, serve_http,
  read_error, sync_selector, process_push_event,
}
use terrakojo.Webhook.Answers.{Accepted, Harmless, read_error_first, serve_http-accepts}
use terrakojo.Webhook.Effects.{Retries, EventCall, serve_http-calls}
use terrakojo.Webhook.Marking.{Syncs, serve_http-Syncs}
use terrakojo.Webhook.Selection.{Selects, set_labels-selected}
use terrakojo.Tests.Fixtures.{quiet, repo}

abbrev pushed : PushPayload
pushed = record {
  ref = "refs/heads/feature/vpc";
  after = "c0ffee";
  repository = record { owner_login = "o"; name = "repo"; full_name = "o/repo" };
}

abbrev library : WebhookLibrary
library = record {
  reads = λ r. fine ∷ eof ∷ [];
  parse = λ r. ok (Webhook.push pushed);
  is_max_bytes_error = λ e. false;
  format_time = λ n. "2024-01-01T00:00:00Z";
}

abbrev delivery : Request
delivery = record {
  method = "POST";
  github_event = "push";
  gitlab_event = "";
  content_length = pos 2048;
  body = "{}";
}

abbrev cluster : Env
cluster = record quiet { repositories = λ calls. ok (repo ∷ []); repository = λ calls. ok repo }

cluster-Retries : Retries cluster
cluster-Retries P body step calls h = step calls h

serve_http-calls_example :
    All (EventCall library delivery cluster) ((serve_http library delivery).1 cluster []).1
serve_http-calls_example = serve_http-calls library cluster cluster-Retries delivery

serve_http-accepts_example :
    (((serve_http library delivery).0.status ≡ 200) ↔ Accepted library delivery)
    × ((serve_http library delivery).0.status ≢ 200 → (serve_http library delivery).1 ≡ pure tt)
serve_http-accepts_example = serve_http-accepts library delivery

abbrev cut_short : List ReadOutcome
cut_short = fine ∷ failed (foreign 413) ∷ eof ∷ []

read_error_first_example : (read_error none cut_short ≡ some (foreign 413)) ↔ (
    (before : List ReadOutcome) × (after : List ReadOutcome) × (cut_short
      ≡ before ++ failed (foreign 413) ∷ after)
    × All Harmless before)
read_error_first_example = read_error_first (foreign 413) cut_short

set_labels-selected_example :
    Selects
      (sync_selector (process_push_event pushed))
      (set_labels (required_labels repo) repo.meta.labels false).0
    ↔ (((process_push_event pushed).owner ≡ "o")
        × ((process_push_event pushed).repository_name ≡ "repo"))
set_labels-selected_example =
    set_labels-selected repo (process_push_event pushed) (ground (arith, eq_iff "o" ""))
      (ground (arith, eq_iff "repo" ""))

cluster-EndsWithRun : EndsWithRun cluster
cluster-EndsWithRun P body keeps calls h = (calls, h, refl)

posted : (delivery.github_event) ≢ ""
posted = ground (arith, eq_iff "push" "")

serve_http-Syncs_example :
    Syncs library cluster (some pushed.repository) ((serve_http library delivery).1 cluster []).1
unfolding read_error
serve_http-Syncs_example =
    serve_http-Syncs library cluster cluster-EndsWithRun delivery (Webhook.push pushed)
      (refl, posted, refl, refl, refl)
