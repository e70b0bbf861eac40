-- ===== src/Repositories/Created.antt =====
-- internal/controller/repository_controller.go: the object that is made for a head, when the next sync
-- meets it.
use terrakojo.Prelude.{
  ◌≡◌, refl, ℤ, pos, negsuc, String, true, Bool-cases, inl, inr, List, ◌∷◌, arith, eq_refl, int_eq,
}
use terrakojo.Prelude.Dictionary.{lookup, at}
use terrakojo.Api.{Repository, Branch}
use terrakojo.Config.Loading.{itoa-nonempty}
use terrakojo.Control.{pure}
use terrakojo.Control.Calls.{Call}
use terrakojo.Control.Environment.{Env}
use terrakojo.Control.Errors.{ok}
use terrakojo.Repositories.Heads.{
  branch_identity, branch_for, ensure_branch_resource, needs_branch_update,
}
use terrakojo.Sync.{BranchHead, head_key}

int_eq_refl : (n : ℤ) → int_eq n n ≡ true
int_eq_refl (pos n) = ground arith
int_eq_refl (negsuc n) = ground arith

branch_for-identity :
    (sha256_hex : String → String) (repo : Repository) (head : BranchHead)
    → branch_identity (branch_for sha256_hex repo head) ≡ head_key head
unfolding branch_identity head_key at lookup
branch_for-identity sha256_hex repo head = elim (Bool-cases head.external_pr) [
  | inl external ↦ rw (external, itoa-nonempty head.info.pr_number) refl
  | inr local ↦ rw local refl
]

-- The object that a sync makes for a head is the one that a later sync with that head finds for it: it is
-- grouped under the head's key, and as the first of its group it is left as it is, without a call.
pub branch_for_settled :
    (sha256_hex : String → String) (repo : Repository) (head : BranchHead) (others : List Branch)
    (env : Env) (calls : List Call)
    → (branch_identity (branch_for sha256_hex repo head) ≡ head_key head)
      × (ensure_branch_resource repo head (branch_for sha256_hex repo head ∷ others) env calls
          ≡ (ok tt, calls))
unfolding ensure_branch_resource needs_branch_update pure
branch_for_settled sha256_hex repo head others env calls = (
  branch_for-identity sha256_hex repo head,
  rw (eq_refl head.info.sha, eq_refl head.info.ref, int_eq_refl head.info.pr_number) refl,
)
