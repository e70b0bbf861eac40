-- ===== src/Webhook/Marking.antt =====
-- internal/webhook/webhook.go: what an accepted event makes the program do, to the end.
use terrakojo.Prelude.{
  ◌≡◌, ◌≢◌, refl, sym, subst, ◌⊎◌, inl, inr, pos, true, Option, none, some, List, [], ◌∷◌, int_le,
}
use terrakojo.Api.{ObjectKey, Repository, key_of}
use terrakojo.Control.{pure, attempt, gets, ask, continue, ◌>>=◌}
use terrakojo.Control.Calls.{Call, get_repository, list_repositories, update_repository}
use terrakojo.Control.Environment.{Env}
use terrakojo.Control.Errors.{Error, Result, ok, err}
use terrakojo.Control.Histories.{Sometime, EndsWithRun}
use terrakojo.Control.Client
use terrakojo.Webhook.{
  EventRepository, WebhookInfo, Payload, pull_request, push, ping, other, Request, WebhookLibrary,
  info_of, with_sync_request, process_push_event, process_pull_request_event, annotate,
  annotate_first, request_repository_sync, after_response, serve_http, read_error,
  max_webhook_body_bytes,
}
use terrakojo.Webhook.Answers.{accepted-after}
use terrakojo.Webhook.Effects.{IsMarked, with_sync_request-IsMarked}

-- the repository that an event tells of: each push does, and each pull request
abbrev pub event_repository : Payload → Option EventRepository
event_repository (pull_request event) = some event.repository
event_repository (push event) = some event.repository
event_repository ping = none
event_repository other = none

abbrev pub search_call : EventRepository → Call
search_call r =
    list_repositories []
      (("terrakojo.io/owner", r.owner_login) ∷ ("terrakojo.io/repo-name", r.name) ∷ [])

-- the search was the first call
abbrev pub IsFirstSearch : EventRepository → Call → List Call → Type 0
IsFirstSearch r call earlier = (call ≡ search_call r) × (earlier ≡ [])

-- The last try for the object: it cannot be read, or what was read is updated with the annotation that asks for a sync.
abbrev pub Tried : WebhookLibrary → Env → EventRepository → ObjectKey → List Call → Type 0
Tried lib env r key calls =
    (last : List Call) × Sometime (IsFirstSearch r) last
    × (((x : Error) × (env.repository (get_repository key ∷ last) ≡ err x)
          × (calls ≡ get_repository key ∷ last))
        ⊎ ((stored : Repository) × (written : Repository) × (env.repository
                (get_repository key ∷ last)
              ≡ ok stored)
            × IsMarked (lib.format_time (env.now (get_repository key ∷ last))) stored written
            × (calls ≡ update_repository written ∷ get_repository key ∷ last)))

-- what the event makes the program do, by the answers
abbrev pub Syncs : WebhookLibrary → Env → Option EventRepository → List Call → Type 0
Syncs lib env none calls = calls ≡ []
Syncs lib env (some r) calls =
    ((x : Error) × (env.repositories (search_call r ∷ []) ≡ err x) × (calls ≡ search_call r ∷ []))
    ⊎ ((env.repositories (search_call r ∷ []) ≡ ok []) × (calls ≡ search_call r ∷ []))
    ⊎ ((listed : Repository) × (others : List Repository) × (env.repositories (search_call r ∷ [])
          ≡ ok (listed ∷ others))
        × Tried lib env r (key_of listed.meta) calls)

module _ (lib : WebhookLibrary) (env : Env) (r : EventRepository) where
  -- the update, and nothing after it
  update_last :
      (answer : Result Repository) (calls : List Call)
      → (continue answer (λ u. pure tt) env calls).1 ≡ calls
  unfolding pure
  update_last (ok u) calls = refl
  update_last (err x) calls = refl

  by_answer :
      (key : ObjectKey) (last : List Call) (answer : Result Repository)
      → Sometime (IsFirstSearch r) last
      → env.repository (get_repository key ∷ last) ≡ answer
      → Tried lib env r key
          (continue answer
            (λ repo. gets (λ env calls. lib.format_time (env.now calls)) >>= λ stamp.
              Client.update_repository (with_sync_request stamp repo) >>= λ u. pure tt)
            env
            (get_repository key ∷ last)).1
  unfolding ◌>>=◌ ask gets Client.update_repository
  by_answer key last (err x) first e = (last, first, inl (x, e, refl))
  by_answer key last (ok stored) first e =
      let stamp = lib.format_time (env.now (get_repository key ∷ last)) in
      let written = with_sync_request stamp stored in
      let calls = update_repository written ∷ get_repository key ∷ last in
      (
        last,
        first,
        inr (
          stored,
          written,
          e,
          with_sync_request-IsMarked stamp stored,
          update_last (env.repository calls) calls,
        ),
      )

  annotate-Tried :
      (key : ObjectKey) (last : List Call)
      → Sometime (IsFirstSearch r) last
      → Tried lib env r key (annotate lib key env last).1
  unfolding annotate ◌>>=◌ ask Client.get_repository
  annotate-Tried key last first =
      by_answer key last (env.repository (get_repository key ∷ last)) first refl

  Tried-first :
      (key : ObjectKey) (calls : List Call)
      → Tried lib env r key calls
      → Sometime (IsFirstSearch r) calls
  Tried-first key calls (last, first, inl (x, e, same)) =
      subst (Sometime (IsFirstSearch r)) (sym same) (inr first)
  Tried-first key calls (last, first, inr (stored, written, e, marked, same)) =
      subst (Sometime (IsFirstSearch r)) (sym same) (inr (inr first))

  module _ (retry : EndsWithRun env) where
    by_list :
        (answer : Result (List Repository))
        → env.repositories (search_call r ∷ []) ≡ answer
        → Syncs lib env (some r) (continue answer (annotate_first lib) env (search_call r ∷ [])).1
    unfolding pure
    by_list (err x) e = inl (x, e, refl)
    by_list (ok []) e = inr (inl (e, refl))
    by_list (ok (listed ∷ others)) e =
        let key = key_of listed.meta in
        let (last, first, same) =
          retry (Sometime (IsFirstSearch r)) (annotate lib key env)
            (λ calls h. Tried-first key _ (annotate-Tried key calls h)) (search_call r ∷ [])
            (inl (refl, refl)) in
        inr (
          inr (
            listed,
            others,
            e,
            subst (λ run. Tried lib env r key run.1) (sym same) (annotate-Tried key last first),
          ))

    request_repository_sync-Syncs :
        (info : WebhookInfo)
        → info.owner ≡ r.owner_login
        → info.repository_name ≡ r.name
        → Syncs lib env (some r) (request_repository_sync lib info env []).1
    unfolding request_repository_sync ◌>>=◌ ask Client.list_repositories
    request_repository_sync-Syncs info owner name =
        rw (owner, name) (by_list (env.repositories (search_call r ∷ [])) refl)

module _ (lib : WebhookLibrary) (env : Env) (retry : EndsWithRun env) where
  after_response-Syncs :
      (payload : Payload)
      → Syncs lib env (event_repository payload) (after_response lib (info_of payload) env []).1
  unfolding info_of process_push_event ◌>>=◌ attempt pure
  after_response-Syncs (pull_request event) =
      request_repository_sync-Syncs lib env event.repository retry
        (process_pull_request_event event) refl refl
  after_response-Syncs (push event) =
      request_repository_sync-Syncs lib env event.repository retry (process_push_event event) refl
        refl
  after_response-Syncs ping = refl
  after_response-Syncs other = refl

  -- Where the retry on a conflict ends with a run of the update, an accepted event of a push or of a pull request
  -- searches, by the two labels, for the repository that it tells of. Where the search fails or finds none, nothing else
  -- is done. Else the first that is found is tried, and the last try ends the run: it cannot read the object,
  -- or it updates what it has read with the annotation that asks for a sync and with no other change. An accepted event
  -- of another kind makes no call.
  pub serve_http-Syncs :
      (r : Request) (payload : Payload)
      → (r.method ≡ "POST")
        × (r.github_event ≢ "")
        × (int_le r.content_length (pos max_webhook_body_bytes) ≡ true)
        × (read_error none (lib.reads r) ≡ none)
        × (lib.parse r ≡ ok payload)
      → Syncs lib env (event_repository payload) ((serve_http lib r).1 env []).1
  serve_http-Syncs r payload accepted =
      rw (accepted-after lib r payload accepted) (after_response-Syncs payload)
