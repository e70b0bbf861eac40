-- ===== src/Kubernetes/Secrets.antt =====
-- Which credentials a Secret gives, and that they are of a type that a client can be made of.
use terrakojo.Prelude.{
  ℤ, String, false, ◌≡◌, ◌↔◌, refl, sym, ap, ◌∙◌, Option, none, some, ◌==◌, Bool-cases, inl, inr,
}
use terrakojo.Prelude.Dictionary.{Dictionary, lookup}
use terrakojo.Api.{Secret}
use terrakojo.Text.Number.{parse_int}
use terrakojo.Text.Number.RoundTrip.{FitsInt64, parse_int-FitsInt64}
use terrakojo.Control.Errors.{Result, ok, err, and_then}
use terrakojo.Control.{in_context}
use terrakojo.Kubernetes.{
  Credentials, token_credentials, app_credentials, token_of, parse_credentials_from_secret, or_app,
  with_app_id, with_installation, with_private_key,
}

-- What the credentials are read from.
pub data ReadFrom (contents : Dictionary String) (creds : Credentials) : Type 0 where
  -- a token that is not empty
  token :
      (t : String)
      → lookup "token" contents ≡ some t
      → (t == "") ≡ false
      → creds ≡ token_credentials t
      → ReadFrom contents creds
  -- three fields of a GitHub App; both numbers are those of an int64, and there is no token
  app :
      (a i key : String) (app_id installation : ℤ)
      → token_of (lookup "token" contents) ≡ none
      → lookup "github-app-id" contents ≡ some a
      → parse_int a ≡ ok app_id
      → lookup "github-installation-id" contents ≡ some i
      → parse_int i ≡ ok installation
      → lookup "github-private-key" contents ≡ some key
      → FitsInt64 app_id × FitsInt64 installation
      → creds ≡ app_credentials app_id installation key
      → ReadFrom contents creds

and_then-ok :
    {A B : Type 0} (text : String) (r : Result A) (f : A → Result B) {b : B}
    → and_then (in_context text r) f ≡ ok b
    → (a : A) × (r ≡ ok a) × (f a ≡ ok b)
and_then-ok text (ok a) f e = (a, refl, e)
and_then-ok text (err x) f e = cc

module _ (contents : Dictionary String) (creds : Credentials) where
  from_key :
      (a i : String) (app_id installation : ℤ)
      → token_of (lookup "token" contents) ≡ none
      → lookup "github-app-id" contents ≡ some a
      → parse_int a ≡ ok app_id
      → lookup "github-installation-id" contents ≡ some i
      → parse_int i ≡ ok installation
      → (o : Option String) → lookup "github-private-key" contents ≡ o
      → with_private_key app_id installation o ≡ ok creds
      → ReadFrom contents creds
  from_key a i app_id installation t ha pa hi pi none hk e = cc
  from_key a i app_id installation t ha pa hi pi (some key) hk e =
      app a i key app_id installation t ha pa hi pi hk
        (parse_int-FitsInt64 a app_id pa, parse_int-FitsInt64 i installation pi) cc

  from_installation :
      (a : String) (app_id : ℤ)
      → token_of (lookup "token" contents) ≡ none
      → lookup "github-app-id" contents ≡ some a
      → parse_int a ≡ ok app_id
      → (o : Option String) → lookup "github-installation-id" contents ≡ o
      → with_installation contents app_id o ≡ ok creds
      → ReadFrom contents creds
  from_installation a app_id t ha pa none hi e = cc
  from_installation a app_id t ha pa (some i) hi e =
      let (id, pi, k) = and_then-ok _ (parse_int i) _ e in
      from_key a i app_id id t ha pa hi pi _ refl k

  from_app_id :
      token_of (lookup "token" contents) ≡ none
      → (o : Option String) → lookup "github-app-id" contents ≡ o
      → with_app_id contents o ≡ ok creds
      → ReadFrom contents creds
  from_app_id t none ha e = cc
  from_app_id t (some a) ha e =
      let (id, pa, k) = and_then-ok _ (parse_int a) _ e in from_installation a id t ha pa _ refl k

  from_token :
      (o : Option String) (held : Option String)
      → lookup "token" contents ≡ held
      → token_of held ≡ o
      → or_app contents o ≡ ok creds
      → ReadFrom contents creds
  from_token none held h t e = from_app_id (ap token_of h ∙ t) _ refl e
  from_token (some s) none h t e = cc
  from_token (some s) (some held) h t e = elim (Bool-cases (held == "")) [
    | inl blank ↦ let t' : ◌≡◌ {A = Option String} none (some s) = rw blank at t in cc
    | inr given ↦ let t' : some held ≡ some s = rw given at t in token held h given cc
  ]

parse_from :
    (secret : Secret) (creds : Credentials)
    → ReadFrom secret.contents creds
    → parse_credentials_from_secret secret ≡ ok creds
unfolding parse_credentials_from_secret
parse_from secret creds (token t h given e) = rw (h, token_of, given) (ap ok (sym e))
parse_from secret creds (app a i key m n none' ha pa hi pi hk fits e) =
    rw (none', ha, with_app_id, pa, hi, with_installation, pi, hk) (ap ok (sym e))

-- A Secret gives credentials exactly if it has a token that is not empty, which then is all they hold, or no such
-- token and the three fields of a GitHub App; the two numbers are then those of an int64.
pub parse_credentials_from_secret_exact :
    (secret : Secret) (creds : Credentials)
    → (parse_credentials_from_secret secret ≡ ok creds) ↔ ReadFrom secret.contents creds
unfolding parse_credentials_from_secret
parse_credentials_from_secret_exact secret creds =
    ((λ e. from_token secret.contents creds _ _ refl refl e), parse_from secret creds)
