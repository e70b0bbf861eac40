-- ===== src/Webhook/Answers.antt =====
-- internal/webhook/webhook.go: when a request is accepted, and what a request that is not sets off.
use terrakojo.Prelude.{
  ◌≡◌, ◌≢◌, ◌↔◌, refl, sym, ap, ◌∙◌, inl, inr, ◌⊎◌, pos, true, Bool-cases, Option, none, some, List,
  [], ◌∷◌, ◌++◌, All, ◌==◌, int_le, arith, eq_iff, eq-false_of_ne,
}
use terrakojo.Control.{Ctl, pure}
use terrakojo.Control.Errors.{Error, Result, ok, err}
use terrakojo.Webhook.{
  Payload, ReadOutcome, fine, eof, failed, Request, Response, WebhookLibrary, read, read_error,
  after_reading, after_response, info_of, handle_github_webhook, serve_http, max_webhook_body_bytes,
}

-- an outcome that leaves nothing behind
abbrev pub Harmless : ReadOutcome → Type 0
Harmless outcome = read none outcome ≡ none

read_error_kept : (e : Error) (outcomes : List ReadOutcome) → read_error (some e) outcomes ≡ some e
unfolding read_error
read_error_kept e [] = refl
read_error_kept e (outcome ∷ outcomes) = read_error_kept e outcomes

-- The wrapped body keeps an error exactly where a read failed with it and no read before that one did.
pub read_error_first :
    (e : Error) (outcomes : List ReadOutcome)
    → (read_error none outcomes ≡ some e) ↔ (
        (before : List ReadOutcome) × (after : List ReadOutcome) × (outcomes
          ≡ before ++ failed e ∷ after)
        × All Harmless before)
unfolding read_error
read_error_first e outcomes =
    (found outcomes, λ (before, after, same, calm). rw same (kept before after calm))
  where
    found :
        (outcomes : List ReadOutcome)
        → read_error none outcomes ≡ some e
        → (before : List ReadOutcome) × (after : List ReadOutcome) × (outcomes
            ≡ before ++ failed e ∷ after)
          × All Harmless before
    found [] h = cc
    found (fine ∷ outcomes) h =
        let (before, after, same, calm) = found outcomes h in
        (fine ∷ before, after, ap (λ l. fine ∷ l) same, (refl, calm))
    found (eof ∷ outcomes) h =
        let (before, after, same, calm) = found outcomes h in
        (eof ∷ before, after, ap (λ l. eof ∷ l) same, (refl, calm))
    found (failed x ∷ outcomes) h =
        let same = sym (read_error_kept x outcomes) ∙ h in ([], outcomes, cc, tt)

    kept :
        (before after : List ReadOutcome)
        → All Harmless before
        → read_error none (before ++ failed e ∷ after) ≡ some e
    kept [] after calm = read_error_kept e after
    kept (fine ∷ before) after (h, calm) = kept before after calm
    kept (eof ∷ before) after (h, calm) = kept before after calm
    kept (failed x ∷ before) after (h, calm) = cc

-- The request is a POST of a GitHub event, of a declared length within the limit, whose reads did not fail
-- and which was parsed.
abbrev pub Accepted : WebhookLibrary → Request → Type 0
Accepted lib r =
    (r.method ≡ "POST")
    × (r.github_event ≢ "")
    × (int_le r.content_length (pos max_webhook_body_bytes) ≡ true)
    × (read_error none (lib.reads r) ≡ none)
    × ((payload : Payload) × (lib.parse r ≡ ok payload))

module _ (lib : WebhookLibrary) where
  -- either accepted, or refused with nothing done after the response
  abbrev pub Refuses : Response × Ctl (Unit {0}) → Type 0
  Refuses (response, after) = (response.status ≢ 200) × (after ≡ pure tt)

  reading-answers :
      (seen : Option Error) (parsed : Result Payload)
      → Refuses (after_reading lib seen parsed)
        ⊎ ((seen ≡ none)
            × ((payload : Payload) × (parsed ≡ ok payload))
            × ((after_reading lib seen parsed).0.status ≡ 200))
  reading-answers (some e) parsed = elim (Bool-cases (lib.is_max_bytes_error e)) [
    | inl size ↦ inl (rw size (λ c. omega (arith, c), refl))
    | inr any ↦ inl (rw any (λ c. omega (arith, c), refl))
  ]
  reading-answers none (err e) = inl (λ c. omega (arith, c), refl)
  reading-answers none (ok payload) = inr (refl, (payload, refl), refl)

  handling-answers :
      (r : Request)
      → Refuses (handle_github_webhook lib r)
        ⊎ ((int_le r.content_length (pos max_webhook_body_bytes) ≡ true)
            × (read_error none (lib.reads r) ≡ none)
            × ((payload : Payload) × (lib.parse r ≡ ok payload))
            × ((handle_github_webhook lib r).0.status ≡ 200))
  unfolding handle_github_webhook
  handling-answers r = elim (Bool-cases (int_le r.content_length (pos max_webhook_body_bytes))) [
    | inl fits ↦ elim (reading-answers (read_error none (lib.reads r)) (lib.parse r)) [
      | inl refused ↦ inl (rw fits refused)
      | inr (calm, parsed, status) ↦ inr (fits, calm, parsed, rw fits status)
    ]
    | inr large ↦ inl (rw large (λ c. omega (arith, c), refl))
  ]

  pub serving-answers :
      (r : Request)
      → Refuses (serve_http lib r) ⊎ (Accepted lib r × ((serve_http lib r).0.status ≡ 200))
  unfolding serve_http
  serving-answers r = elim (Bool-cases (r.method == "POST")) [
    | inr refused ↦ inl (rw refused (λ c. omega (arith, c), refl))
    | inl post ↦ elim (Bool-cases (r.github_event == "")) [
      | inl none_given ↦ inl (elim (Bool-cases (r.gitlab_event == "")) [
        | inl neither ↦ rw (post, none_given, neither) (λ c. omega (arith, c), refl)
        | inr gitlab ↦ rw (post, none_given, gitlab) (λ c. omega (arith, c), refl)
      ])
      | inr github ↦ elim (handling-answers r) [
        | inl refused ↦ inl (rw (post, github) refused)
        | inr (fits, calm, parsed, status) ↦ inr (
          (
            ground (arith, eq_iff r.method "POST"),
            ground (arith, eq_iff r.github_event ""),
            fits,
            calm,
            parsed,
          ),
          rw (post, github) status,
        )
      ]
    ]
  ]

  pub accepted-after :
      (r : Request) (payload : Payload)
      → (r.method ≡ "POST")
        × (r.github_event ≢ "")
        × (int_le r.content_length (pos max_webhook_body_bytes) ≡ true)
        × (read_error none (lib.reads r) ≡ none)
        × (lib.parse r ≡ ok payload)
      → (serve_http lib r).1 ≡ after_response lib (info_of payload)
  unfolding serve_http handle_github_webhook
  accepted-after r payload (post, github, fits, calm, parsed) =
      rw (ap (λ m. m == "POST") post, eq-false_of_ne r.github_event "" github, fits, calm, parsed)
        refl

  Accepted-answers : (r : Request) → Accepted lib r → (serve_http lib r).0.status ≡ 200
  unfolding serve_http handle_github_webhook
  Accepted-answers r (post, github, fits, calm, (payload, parsed)) =
      rw (ap (λ m. m == "POST") post, eq-false_of_ne r.github_event "" github, fits, calm, parsed)
        refl

  -- A request is answered with 200 exactly where it is a POST with a GitHub event's header, of a declared
  -- length of at most 25 MiB, of which no read failed but at its end, and which was parsed. Any other
  -- request ends with its response: nothing is done after it.
  pub serve_http-accepts :
      (r : Request)
      → (((serve_http lib r).0.status ≡ 200) ↔ Accepted lib r)
        × ((serve_http lib r).0.status ≢ 200 → (serve_http lib r).1 ≡ pure tt)
  serve_http-accepts r = elim (serving-answers r) [
    | inl (refused, quiet) ↦ ((λ e. absurd (refused e), Accepted-answers r), λ _. quiet)
    | inr (accepted, status) ↦ ((λ _. accepted, λ _. status), λ refused. absurd (refused status))
  ]
