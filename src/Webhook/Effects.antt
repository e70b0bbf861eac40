-- ===== src/Webhook/Effects.antt =====
-- internal/webhook/webhook.go: what an accepted request sets off.
use terrakojo.Prelude.{
  subst, ◌≡◌, refl, sym, inl, inr, ℕ, String, Bool-cases, Option, none, some, List, [], ◌∷◌, All,
  ◌==◌, if◌then◌else◌,
}
use terrakojo.Prelude.Dictionary.{lookup, lookup-insert}
use terrakojo.Api.{ObjectKey, Repository, key_of}
use terrakojo.Control.{Ctl, pure, continue, attempt, gets, ask, ◌>>=◌}
use terrakojo.Control.Calls.{Call, get_repository, list_repositories, update_repository}
use terrakojo.Control.Environment.{Env}
use terrakojo.Control.Errors.{Result, ok, err}
use terrakojo.Control.Client
use terrakojo.Webhook.Answers.{serving-answers, accepted-after}
use terrakojo.Webhook.{
  Request, info_of, WebhookInfo, Payload, WebhookLibrary, sync_selector, with_sync_request,
  sync_request_annotation, annotate, annotate_first, after_response, serve_http,
  request_repository_sync,
}

-- `RetryOnConflict` does nothing but run what it is given, any number of times.
abbrev pub Retries : Env → Type 1
Retries env =
    (P : List Call → Type 0) (body : List Call → Result (Unit {0}) × List Call)
    → ((calls : List Call) → P calls → P (body calls).1)
    → (calls : List Call) → P calls
    → P (env.retry_on_conflict body calls).1

-- `after` is `before` but for its annotations, of which the one that asks for a sync is set and the others are kept.
abbrev pub IsMarked : String → Repository → Repository → Type 0
IsMarked stamp before after =
    (after
      ≡ (record before { meta = record (before.meta) { annotations = after.meta.annotations } }))
    × ((key : String)
        → lookup key after.meta.annotations ≡ (
            if "terrakojo.io/sync-requested-at" == key
            then some stamp
            else lookup key before.meta.annotations))

pub with_sync_request-IsMarked :
    (stamp : String) (repo : Repository) → IsMarked stamp repo (with_sync_request stamp repo)
unfolding with_sync_request
with_sync_request-IsMarked stamp repo =
    (refl, λ key. lookup-insert sync_request_annotation key stamp repo.meta.annotations)

-- the calls that a sync request may make
pub data SyncCall (lib : WebhookLibrary) (info : WebhookInfo) (env : Env) : Call → Type 0 where
  finds : SyncCall lib info env (
      list_repositories [] (
        ("terrakojo.io/owner", info.owner) ∷ ("terrakojo.io/repo-name", info.repository_name) ∷ []))
  reads : (key : ObjectKey) → SyncCall lib info env (get_repository key)
  marks :
      (key : ObjectKey) (earlier : List Call) (time : ℕ) (before after : Repository)
      → env.repository (get_repository key ∷ earlier) ≡ ok before
      → IsMarked (lib.format_time time) before after
      → SyncCall lib info env (update_repository after)

continue-All :
    (Allowed : Call → Type 0) {A B : Type 0} (r : Result A) (f : A → Ctl B) (env : Env)
    (calls : List Call)
    → ((a : A) → r ≡ ok a → All Allowed (f a env calls).1)
    → All Allowed calls
    → All Allowed (continue r f env calls).1
continue-All Allowed (ok a) f env calls go h = go a refl
continue-All Allowed (err e) f env calls go h = h

module _ (lib : WebhookLibrary) (info : WebhookInfo) (env : Env) where
  abbrev Kept : List Call → Type 0
  Kept = All (SyncCall lib info env)

  annotate-calls :
      (key : ObjectKey) (calls : List Call) → Kept calls → Kept (annotate lib key env calls).1
  unfolding annotate ◌>>=◌ ask gets pure Client.get_repository Client.update_repository
  annotate-calls key calls h =
      let asked = get_repository key ∷ calls in
      continue-All (SyncCall lib info env) (env.repository asked) _ env asked
        (λ repo found.
          let stamp = lib.format_time (env.now asked) in
          let marked = with_sync_request stamp repo in
          let kept : Kept (update_repository marked ∷ asked) = (
            marks key calls (env.now asked) repo marked found
                (with_sync_request-IsMarked stamp repo),
            (reads key, h),
          ) in
          continue-All (SyncCall lib info env) (env.repository (update_repository marked ∷ asked)) _
            env (update_repository marked ∷ asked) (λ u e. kept) kept)
        (reads key, h)

  annotate_first-calls :
      Retries env
      → (repos : List Repository) (calls : List Call) → Kept calls
      → Kept (annotate_first lib repos env calls).1
  unfolding pure
  annotate_first-calls retries [] calls h = h
  annotate_first-calls retries (repo ∷ repos) calls h =
      retries Kept (annotate lib (key_of repo.meta) env) (annotate-calls (key_of repo.meta)) calls h

  request_repository_sync-calls :
      Retries env
      → (calls : List Call) → Kept calls
      → Kept (request_repository_sync lib info env calls).1
  unfolding request_repository_sync ◌>>=◌ ask Client.list_repositories
  request_repository_sync-calls retries calls h =
      let asked = list_repositories [] (sync_selector info) ∷ calls in
      continue-All (SyncCall lib info env) (env.repositories asked) (annotate_first lib) env asked
        (λ repos e. annotate_first-calls retries repos asked (finds, h)) (finds, h)

  after_response-calls :
      Retries env
      → (calls : List Call) → Kept calls
      → Kept (after_response lib (some info) env calls).1
  unfolding ◌>>=◌ attempt pure
  after_response-calls retries calls h = elim (Bool-cases (info.event_type == "ping")) [
    | inl ping ↦ rw ping h
    | inr other ↦ rw other (request_repository_sync-calls retries calls h)
  ]

All-map : {A : Type 0} (P Q : A → Type 0) → ((a : A) → P a → Q a) → (l : List A) → All P l → All Q l
All-map P Q f [] h = tt
All-map P Q f (a ∷ l) (h, hs) = (f a h, All-map P Q f l hs)

-- a call for the sync that the request's payload asks for
abbrev pub EventCall : WebhookLibrary → Request → Env → Call → Type 0
EventCall lib r env call =
    (payload : Payload) × (info : WebhookInfo) × (lib.parse r ≡ ok payload)
    × (info_of payload ≡ some info)
    × SyncCall lib info env call

module _ (lib : WebhookLibrary) (env : Env) (retries : Retries env) (r : Request) where
  by_info :
      (payload : Payload) (found : Option WebhookInfo)
      → lib.parse r ≡ ok payload
      → info_of payload ≡ found
      → All (EventCall lib r env) (after_response lib found env []).1
  unfolding pure
  by_info payload none parsed e = tt
  by_info payload (some info) parsed e =
      All-map (SyncCall lib info env) (EventCall lib r env)
        (λ call h. (payload, info, parsed, e, h)) _
        (after_response-calls lib info env retries [] tt)

  -- Where retrying on a conflict does nothing but run the update, any number of times, all that a request to
  -- the webhook makes the program do at the API server is: to list, by the two labels, the repositories of
  -- the owner and the name in the event that was parsed; to read a repository; and to update a repository to
  -- what one of those reads returned, with the annotation that asks for a sync set to a time and with
  -- no other annotation and nothing else of the object changed.
  pub serve_http-calls : All (EventCall lib r env) ((serve_http lib r).1 env []).1
  unfolding pure
  serve_http-calls = elim (serving-answers lib r) [
    | inl (refused, quiet) ↦
        subst (λ after. All (EventCall lib r env) (after env []).1) (sym quiet) tt
    | inr (accepted, status) ↦
        let (post, github, fits, calm, (payload, parsed)) = accepted in
        subst (λ after. All (EventCall lib r env) (after env []).1)
          (sym (accepted-after lib r payload (post, github, fits, calm, parsed)))
          (by_info payload (info_of payload) parsed refl)
  ]
