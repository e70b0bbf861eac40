-- ===== src/Control/Keeps.antt =====
-- What an action does to the list of calls, one rule for each way to build an action.
use terrakojo.Prelude.{◌≡◌, refl, ap, String, Bool, true, false, List, if◌then◌else◌, All}
use terrakojo.Control.Errors.{Error, Result, ok, err}
use terrakojo.Control.Calls.{Call}
use terrakojo.Control.Environment.{Env}
use terrakojo.Control.Runs.{Returns}
use terrakojo.Control.{
  Ctl, pure, raise, ask, gets, lift, attempt, continue, ◌>>=◌, settle, ignore_not_found, wrapping,
}

-- every call that `m` makes is allowed
pub record Makes {A : Type 0} (Allowed : Call → Type 0) (m : Ctl A) : Type 0 where
  pub at : (env : Env) (calls : List Call) → All Allowed calls → All Allowed (m env calls).1

module _ {Allowed : Call → Type 0} {A : Type 0} where
  pub Makes-pure : (a : A) → Makes Allowed (pure a)
  unfolding pure
  Makes-pure a = record { at = λ env calls h. h }

  pub Makes-raise : (e : Error) → Makes Allowed (raise {A = A} e)
  unfolding raise
  Makes-raise e = record { at = λ env calls h. h }

  pub Makes-gets : (f : Env → List Call → A) → Makes Allowed (gets f)
  unfolding gets
  Makes-gets f = record { at = λ env calls h. h }

  pub Makes-lift : (r : Result A) → Makes Allowed (lift r)
  unfolding lift
  Makes-lift r = record { at = λ env calls h. h }

  pub Makes-ask :
      (call : Call) (answer : Env → List Call → Result A)
      → Allowed call
      → Makes Allowed (ask call answer)
  unfolding ask
  Makes-ask call answer allowed = record { at = λ env calls h. (allowed, h) }

  pub Makes-attempt : (m : Ctl A) → Makes Allowed m → Makes Allowed (attempt m)
  unfolding attempt
  Makes-attempt m km = record { at = λ env calls h. km.at env calls h }

  pub Makes-if :
      (b : Bool) (m n : Ctl A)
      → (b ≡ true → Makes Allowed m)
      → (b ≡ false → Makes Allowed n)
      → Makes Allowed (if b then m else n)
  Makes-if true m n km kn = km refl
  Makes-if false m n km kn = kn refl

module _ {Allowed : Call → Type 0} {A B : Type 0} where
  Makes-continue :
      (r : Result A) (f : A → Ctl B) (env : Env) (calls : List Call)
      → ((a : A) → Makes Allowed (f a))
      → All Allowed calls
      → All Allowed (continue r f env calls).1
  Makes-continue (ok a) f env calls kf h = (kf a).at env calls h
  Makes-continue (err e) f env calls kf h = h

  pub Makes-bind :
      (m : Ctl A) (f : A → Ctl B)
      → Makes Allowed m
      → ((a : A) → Makes Allowed (f a))
      → Makes Allowed (m >>= f)
  unfolding ◌>>=◌
  Makes-bind m f km kf = record {
    at = λ env calls h.
        let (r, later) = m env calls in Makes-continue r f env later kf (km.at env calls h);
  }

-- every result that `m` returns has the property
pub record Gives {A : Type 0} (Post : A → Type 0) (m : Ctl A) : Type 0 where
  pub at : (env : Env) {calls later : List Call} (a : A) → Returns m env calls a later → Post a

-- `Makes-bind` with what is known of the result of the first action
pub Makes-bind_given :
    {Allowed : Call → Type 0} {A B : Type 0} {Post : A → Type 0} (m : Ctl A) (f : A → Ctl B)
    → Makes Allowed m
    → Gives Post m
    → ((a : A) → Post a → Makes Allowed (f a))
    → Makes Allowed (m >>= f)
unfolding ◌>>=◌
Makes-bind_given {Allowed = Allowed} {A = A} {Post = Post} m f km gm kf = record {
  at = λ env calls h.
      let (r, later) = m env calls in
      go env r later (λ a e. gm.at env {calls = calls} {later = later} a (ap (λ r. (r, later)) e))
        (km.at env calls h);
}
  where
    go :
        (env : Env) (r : Result A) (later : List Call)
        → ((a : A) → r ≡ ok a → Post a)
        → All Allowed later
        → All Allowed (continue r f env later).1
    go env (ok a) later post h = (kf a (post a refl)).at env later h
    go env (err e) later post h = h

settle-calls :
    (r : Result (Unit {0})) (env : Env) (calls : List Call) → (settle r env calls).1 ≡ calls
settle-calls (ok a) env calls = refl
settle-calls (err e) env calls = refl

module _ {Allowed : Call → Type 0} where
  pub Makes-ignore_not_found :
      (m : Ctl (Unit {0})) → Makes Allowed m → Makes Allowed (ignore_not_found m)
  unfolding ignore_not_found
  Makes-ignore_not_found m km = record {
    at = λ env calls h.
        let (r, later) = m env calls in rw (settle-calls r env later) (km.at env calls h);
  }

  pub Makes-wrapping :
      {A : Type 0} (text : String) (m : Ctl A) → Makes Allowed m → Makes Allowed (wrapping text m)
  unfolding wrapping
  Makes-wrapping text m km = record { at = λ env calls h. km.at env calls h }

pub ruleset makes_rules = (
  Makes-pure, Makes-raise, Makes-gets, Makes-lift, Makes-ask, Makes-attempt, Makes-if, Makes-bind,
  Makes-ignore_not_found, Makes-wrapping, tt,
)
