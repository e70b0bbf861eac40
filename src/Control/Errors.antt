-- ===== src/Control/Errors.antt =====
-- Go errors. What the API server and GitHub return is opaque but for its number; the code tells such
-- errors apart by library functions (`Env`), and by `errors.Is` and `errors.As`, which look through
-- wrapping.
use terrakojo.Prelude.{ℕ, String, Bool, true, false, Option, none}

pub data Error : Type 0 where
  -- an error made by a library or a service
  foreign : ℕ → Error
  -- GitHub's `ErrorResponse`, with the status code of its `Response`, if it has one
  github_response : Option ℕ → Error
  -- `errors.New` or `fmt.Errorf` with no `%w`
  message : String → Error
  -- `fmt.Errorf("…: %w", err)`
  wrap : String → Error → Error
  -- the sentinel `errBranchMigrationPending`
  branch_migration_pending : Error

pub data Result {ℓ} (A : Type ℓ) : Type ℓ where
  ok : A → Result A
  err : Error → Result A

-- `errors.Is(err, errBranchMigrationPending)`
unfoldable pub is_branch_migration_pending : Error → Bool
is_branch_migration_pending branch_migration_pending = true
is_branch_migration_pending (wrap text e) = is_branch_migration_pending e
is_branch_migration_pending _ = false

-- `errors.As(err, &ghErr)` and then the status code, if there is a response
unfoldable pub response_status : Error → Option ℕ
response_status (github_response status) = status
response_status (wrap text e) = response_status e
response_status _ = none

-- `if err != nil { return err }`, on results that were computed
abbrev pub and_then {ℓ κ} : {A : Type ℓ} {B : Type κ} → Result A → (A → Result B) → Result B
and_then (ok a) f = f a
and_then (err e) f = err e
