-- ===== src/Control/Histories.antt =====
-- What holds of the calls made by a sequence, and how a retry ends.
pub use terrakojo.Prelude.Histories.{Always, Sometime}
use terrakojo.Prelude.{◌≡◌, refl, List}
use terrakojo.Control.Errors.{Result, ok, err}
use terrakojo.Control.Calls.{Call}
use terrakojo.Control.Environment.{Env}
use terrakojo.Control.{Ctl, continue}

-- `RetryOnConflict` runs what it is given at least once, and gives the outcome of its last run.
abbrev pub EndsWithRun : Env → Type 1
EndsWithRun env =
    (P : List Call → Type 0) (body : List Call → Result (Unit {0}) × List Call)
    → ((calls : List Call) → P calls → P (body calls).1)
    → (calls : List Call) → P calls
    → (last : List Call) × P last × (env.retry_on_conflict body calls ≡ body last)

-- a sequence: what follows is run on what was returned, or not at all
pub continue-keeps :
    {A B : Type 0} (Q : List Call → Type 0) (env : Env) (r : Result A) (f : A → Ctl B)
    (calls : List Call)
    → ((a : A) → r ≡ ok a → Q (f a env calls).1)
    → Q calls
    → Q (continue r f env calls).1
continue-keeps Q env (ok a) f calls go h = go a refl
continue-keeps Q env (err e) f calls go h = h

-- a sequence that returns: what followed returned, and what holds after it holds at the end
pub continue-then :
    {A B : Type 0} (Q : List Call → Type 0) (env : Env) (r : Result A) (f : A → Ctl B)
    (calls : List Call) (b : B)
    → ((a : A) → r ≡ ok a → (f a env calls).0 ≡ ok b → Q (f a env calls).1)
    → (continue r f env calls).0 ≡ ok b
    → Q (continue r f env calls).1
continue-then Q env (ok a) f calls b go h = go a refl h
continue-then Q env (err e) f calls b go h = cc
