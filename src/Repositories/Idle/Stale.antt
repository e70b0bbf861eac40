-- ===== src/Repositories/Idle/Stale.antt =====
-- internal/controller/repository_controller.go: where nothing is to be deleted.
use terrakojo.Prelude.{
  ◌≡◌, refl, inl, inr, String, false, Bool-cases, ℤ, List, [], ◌∷◌, ◌==◌, arith, eq_iff, All,
}
use terrakojo.Prelude.Dictionary.{Dictionary, remove}
use terrakojo.Api.{Branch}
use terrakojo.Control.{pure, ◌>>=◌}
use terrakojo.Control.Calls.{Call}
use terrakojo.Control.Environment.{Env}
use terrakojo.Control.Errors.{ok}
use terrakojo.Repositories.Heads.{
  is_legacy, retire_legacy, retire_groups, delete_branches, delete_groups,
}
use terrakojo.Repositories.Idle.{Fits, AllFit, Modern}

retire_legacy-idle :
    (default_branch : String) (prs : List (ℤ × String)) (branches : List Branch) (env : Env)
    (calls : List Call)
    → All (λ b. is_legacy default_branch prs b ≡ false) branches
    → retire_legacy default_branch prs branches env calls ≡ (ok (branches, false), calls)
unfolding retire_legacy pure ◌>>=◌
retire_legacy-idle default_branch prs [] env calls h = refl
retire_legacy-idle default_branch prs (b ∷ branches) env calls (h, hs) =
    rw (h, retire_legacy-idle default_branch prs branches env calls hs) refl

pub retire_groups-idle :
    (default_branch : String) (prs : List (ℤ × String)) (groups : Dictionary (List Branch))
    (env : Env) (calls : List Call)
    → Modern default_branch prs groups
    → retire_groups default_branch prs groups env calls ≡ (ok (groups, false), calls)
unfolding retire_groups pure ◌>>=◌
retire_groups-idle default_branch prs [] env calls h = refl
retire_groups-idle default_branch prs ((key, bs) ∷ groups) env calls (h, hs) =
    rw
      (
        retire_legacy-idle default_branch prs bs env calls h,
        retire_groups-idle default_branch prs groups env calls hs,
      )
      refl

-- once the default branch is taken out as well, nothing is left to delete
pub delete_stale-idle :
    (default_branch : String) (stale : Dictionary (List Branch)) (env : Env) (calls : List Call)
    → AllFit default_branch [] stale
    → delete_groups (remove default_branch stale) env calls ≡ (ok tt, calls)
unfolding delete_groups delete_branches remove pure ◌>>=◌
delete_stale-idle default_branch [] env calls h = refl
delete_stale-idle default_branch ((key, bs) ∷ stale) env calls (h, hs) =
    elim (Bool-cases (key == default_branch)) [
      | inl is_default ↦ rw is_default (delete_stale-idle default_branch stale env calls hs)
      | inr other ↦
          rw other (by_group bs h other (delete_stale-idle default_branch stale env calls hs))
    ]
  where
    by_group :
        (bs : List Branch)
        → All (Fits default_branch [] key) bs
        → (key == default_branch) ≡ false
        → delete_groups (remove default_branch stale) env calls ≡ (ok tt, calls)
        → delete_groups ((key, bs) ∷ remove default_branch stale) env calls ≡ (ok tt, calls)
    by_group [] h other rest = rest
    by_group (b ∷ bs) (inl is_key, h) other rest =
        absurd (ground (arith, eq_iff key default_branch))
    by_group (b ∷ bs) (inr (head, held, object), h) other rest = absurd held
