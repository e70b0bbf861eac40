-- ===== src/Control.antt =====
-- How a controller runs: it makes calls (to the API server, to GitHub) one after the other, and each
-- answer may depend on all calls made so far, so an answer can show what others did in between.
-- An action returns a result or an error, together with the calls made, the newest first.
pub mod Errors
pub mod Calls
pub mod Environment
pub mod Client
pub mod Keeps
pub mod Runs
pub mod Histories
use terrakojo.Prelude.{ℕ, String, Bool, false, List, ◌∷◌, if◌then◌else◌}
use Errors.{Error, Result, ok, err, wrap}
use Calls.{Call}
use Environment.{Env}

abbrev pub Ctl : Type 0 → Type 0
Ctl A = Env → List Call → Result A × List Call

module _ {A : Type 0} where
  unfoldable pub pure : A → Ctl A
  pure a env calls = (ok a, calls)

  unfoldable pub raise : Error → Ctl A
  raise e env calls = (err e, calls)

  -- one call, and the answer to it
  unfoldable pub ask : Call → (Env → List Call → Result A) → Ctl A
  ask call answer env calls = (answer env (call ∷ calls), call ∷ calls)

  -- reads the environment; makes no call
  unfoldable pub gets : (Env → List Call → A) → Ctl A
  gets f env calls = (ok (f env calls), calls)

  -- a result that was computed
  unfoldable pub lift : Result A → Ctl A
  lift r env calls = (r, calls)

  -- `x, err := m`, for code that looks at the error itself
  unfoldable pub attempt : Ctl A → Ctl (Result A)
  attempt m env calls = let (r, later) = m env calls in (ok r, later)

module _ {A B : Type 0} where
  abbrev pub continue : Result A → (A → Ctl B) → Ctl B
  continue (ok a) f env calls = f a env calls
  continue (err e) f env calls = (err e, calls)

  infixl 10 ◌>>=◌ ◌>>◌
  unfoldable pub ◌>>=◌ : Ctl A → (A → Ctl B) → Ctl B
  ◌>>=◌ m f env calls = let (r, later) = m env calls in continue r f env later

  abbrev pub ◌>>◌ : Ctl A → Ctl B → Ctl B
  m >> n = m >>= λ _. n

-- `if err := m; err != nil && client.IgnoreNotFound(err) != nil { return err }`
abbrev pub settle : Result (Unit {0}) → Ctl (Unit {0})
settle (ok a) env calls = (ok a, calls)
settle (err e) env calls = (if env.is_not_found e then ok tt else err e, calls)

unfoldable pub ignore_not_found : Ctl (Unit {0}) → Ctl (Unit {0})
ignore_not_found m env calls = let (r, later) = m env calls in settle r env later

-- `fmt.Errorf("…: %w", err)` around the error of `m`
abbrev pub in_context {ℓ} : {A : Type ℓ} → String → Result A → Result A
in_context text (ok a) = ok a
in_context text (err e) = err (wrap text e)

unfoldable pub wrapping : {A : Type 0} → String → Ctl A → Ctl A
wrapping text m env calls = let (r, later) = m env calls in (in_context text r, later)

-- `ctrl.Result`, its delay in seconds
pub record Next : Type 0 where
  pub requeue : Bool
  pub requeue_after : ℕ

-- `ctrl.Result{}`
abbrev pub finished : Next
finished = record { requeue = false; requeue_after = 0 }

abbrev pub after_seconds : ℕ → Next
after_seconds n = record { requeue = false; requeue_after = n }
