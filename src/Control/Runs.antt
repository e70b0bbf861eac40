-- ===== src/Control/Runs.antt =====
-- Inversion of runs that return: what each way to build an action says of its parts.
use terrakojo.Prelude.{arith, String, ◌≡◌, refl, ap, List, ◌∷◌}
use terrakojo.Control.Errors.{Result, ok, err}
use terrakojo.Control.Calls.{Call}
use terrakojo.Control.Environment.{Env}
use terrakojo.Control.{Ctl, pure, ask, gets, lift, continue, ◌>>=◌, wrapping}

-- `m` returns `a` and leaves the calls `later`
abbrev pub Returns : {A : Type 0} → Ctl A → Env → List Call → A → List Call → Type 0
Returns m env calls a later = m env calls ≡ (ok a, later)

module _ {A : Type 0} (env : Env) {calls later : List Call} {a : A} where
  pub pure-Returns : (x : A) → Returns (pure x) env calls a later → (x ≡ a) × (calls ≡ later)
  unfolding pure
  pure-Returns x e = (cc, cc)

  pub gets-Returns :
      (f : Env → List Call → A)
      → Returns (gets f) env calls a later
      → (f env calls ≡ a) × (calls ≡ later)
  unfolding gets
  gets-Returns f e = (cc, cc)

  pub lift-Returns :
      (r : Result A) → Returns (lift r) env calls a later → (r ≡ ok a) × (calls ≡ later)
  unfolding lift
  lift-Returns r e = (cc, cc)

  pub ask-Returns :
      (call : Call) (answer : Env → List Call → Result A)
      → Returns (ask call answer) env calls a later
      → (answer env (call ∷ calls) ≡ ok a) × (call ∷ calls ≡ later)
  unfolding ask
  ask-Returns call answer e = (cc, cc)

  pub wrapping-Returns :
      (text : String) (m : Ctl A)
      → Returns (wrapping text m) env calls a later
      → Returns m env calls a later
  unfolding wrapping
  wrapping-Returns text m e = ground arith

module _ {A B P : Type 0} (env : Env) {later : List Call} {b : B} where
  continue-Returns :
      (r : Result A) (f : A → Ctl B) (mid : List Call)
      → ((a : A) → r ≡ ok a → Returns (f a) env mid b later → P)
      → continue r f env mid ≡ (ok b, later)
      → P
  continue-Returns (ok a) f mid k e = k a refl e
  continue-Returns (err x) f mid k e = cc

  -- a sequence that returns: its first part returned, and the rest went on from there
  pub bind-Returns :
      {calls : List Call} (m : Ctl A) (f : A → Ctl B)
      → Returns (m >>= f) env calls b later
      → ((a : A) (mid : List Call) → Returns m env calls a mid → Returns (f a) env mid b later → P)
      → P
  unfolding ◌>>=◌
  bind-Returns {calls} m f e k =
      continue-Returns (m env calls).0 f (m env calls).1
        (λ a returned. k a (m env calls).1 (ap (λ r. (r, (m env calls).1)) returned)) e
