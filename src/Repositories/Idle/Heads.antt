-- ===== src/Repositories/Idle/Heads.antt =====
-- internal/controller/repository_controller.go: each head finds its object in place.
use terrakojo.Prelude.{
  ◌≡◌, ◌≢◌, refl, sym, ap, subst, ◌∙◌, inl, inr, String, true, false, Bool-cases, ℤ, List, [], ◌∷◌,
  ◌==◌, arith, eq_iff, contains, All, map, is_empty, ◌⊕◌,
}
use terrakojo.Prelude.Dictionary.{Dictionary, remove}
use terrakojo.Api.{Repository, Branch}
use terrakojo.Control.{pure, ◌>>=◌}
use terrakojo.Control.Calls.{Call}
use terrakojo.Control.Environment.{Env}
use terrakojo.Control.Errors.{ok}
use terrakojo.Repositories.Heads.{
  group_at, is_current, needs_branch_update, ensure_branch_resource, ensure_heads,
}
use terrakojo.Sync.{BranchHead, head_key}
use terrakojo.Text.Decimal.{itoa}
use terrakojo.Text.Sort.{IsDistinct}
use terrakojo.Repositories.Idle.{IsHeadIn, Fits, AllFit, HaveObjects}
use terrakojo.Repositories.Idle.Groups.{group_at-remove, group_at-Fits}

-- the key of the first head is taken out of the map: the other heads still have what fits them
remove-AllFit :
    (default_branch : String) (head : BranchHead) (heads : List BranchHead)
    (groups : Dictionary (List Branch))
    → AllFit default_branch (head ∷ heads) groups
    → AllFit default_branch heads (remove (head_key head) groups)
unfolding remove
remove-AllFit default_branch head heads [] h = tt
remove-AllFit default_branch head heads ((key, bs) ∷ groups) (h, hs) =
    elim (Bool-cases (key == head_key head)) [
      | inl taken ↦ rw taken (remove-AllFit default_branch head heads groups hs)
      | inr left ↦ rw left (others bs h left, remove-AllFit default_branch head heads groups hs)
    ]
  where
    others :
        (bs : List Branch)
        → All (Fits default_branch (head ∷ heads) key) bs
        → (key == head_key head) ≡ false
        → All (Fits default_branch heads key) bs
    others [] h left = tt
    others (b ∷ bs) (inl is_default, h) left = (inl is_default, others bs h left)
    others (b ∷ bs) (inr (other, inl same, object), h) left =
        let e : key ≡ head_key head = sym object.0 ∙ ap head_key (sym same) in
        absurd (ground (arith, eq_iff key (head_key head)))
    others (b ∷ bs) (inr (other, inr later, object), h) left =
        (inr (other, later, object), others bs h left)

-- the same where the first head is one of the default branch, which is passed over
skip-AllFit :
    (default_branch : String) (head : BranchHead) (heads : List BranchHead)
    (groups : Dictionary (List Branch))
    → (head.info.ref == default_branch) ≡ true
    → AllFit default_branch (head ∷ heads) groups
    → AllFit default_branch heads groups
skip-AllFit default_branch head heads [] is_default h = tt
skip-AllFit default_branch head heads ((key, bs) ∷ groups) is_default (h, hs) =
    (others bs h, skip-AllFit default_branch head heads groups is_default hs)
  where
    others :
        (bs : List Branch)
        → All (Fits default_branch (head ∷ heads) key) bs
        → All (Fits default_branch heads key) bs
    others [] h = tt
    others (b ∷ bs) (inl is_key, h) = (inl is_key, others bs h)
    others (b ∷ bs) (inr (other, inl same, object), h) =
        let e = subst (λ x. (x.info.ref == default_branch) ≡ false) (sym same) object.1 in cc
    others (b ∷ bs) (inr (other, inr later, object), h) = (inr (other, later, object), others bs h)

-- a head of a list of heads with distinct keys is the only one with its key
head_unique :
    (head other : BranchHead) (heads : List BranchHead)
    → contains (head_key head) (map head_key heads) ≡ false
    → IsHeadIn other (head ∷ heads)
    → head_key other ≡ head_key head
    → head ≡ other
head_unique head other heads new (inl same) e = same
head_unique head other [] new (inr later) e = absurd later
head_unique head other (h ∷ heads) new (inr (inl same)) e =
    let e' : head_key h ≡ head_key head = ap head_key same ∙ e in
    absurd (ground (arith, eq_iff (head_key h) (head_key head)))
head_unique head other (h ∷ heads) new (inr (inr later)) e =
    head_unique head other heads (ground arith) (inr later) e

-- the first branch that fits a head is current, and then nothing is done for that head
fitting-idle :
    (repo : Repository) (head : BranchHead) (heads : List BranchHead) (b : Branch)
    (others : List Branch) (env : Env) (calls : List Call)
    → contains (head_key head) (map head_key heads) ≡ false
    → head_key head ≢ repo.spec.default_branch
    → Fits repo.spec.default_branch (head ∷ heads) (head_key head) b
    → ensure_branch_resource repo head (b ∷ others) env calls ≡ (ok tt, calls)
unfolding ensure_branch_resource pure
fitting-idle repo head heads b others env calls new free (inl is_default) = absurd (free is_default)
fitting-idle repo head heads b others env calls new free
      (inr (other, held, (is_key, not_default, current, unchanged))) =
    let same = head_unique head other heads new held is_key in
    let current' = subst (λ h. is_current b h ≡ true) (sym same) current in
    let unchanged' = subst (λ h. needs_branch_update b h ≡ false) (sym same) unchanged in
    rw (current', unchanged') refl

remove-HaveObjects :
    (default_branch key : String) (groups : Dictionary (List Branch)) (heads : List BranchHead)
    → contains key (map head_key heads) ≡ false
    → HaveObjects default_branch groups heads
    → HaveObjects default_branch (remove key groups) heads
remove-HaveObjects default_branch key groups [] new h = tt
remove-HaveObjects default_branch key groups (head ∷ heads) new (inl is_default, hs) =
    (inl is_default, remove-HaveObjects default_branch key groups heads (ground arith) hs)
remove-HaveObjects default_branch key groups (head ∷ heads) new (inr filled, hs) =
    let other : (key == head_key head) ≡ false =
      ground (arith, eq_iff key (head_key head), eq_iff (head_key head) key) in
    (
      inr (ap is_empty (group_at-remove key (head_key head) groups) ∙ rw other filled),
      remove-HaveObjects default_branch key groups heads (ground arith) hs,
    )

module _ (repo : Repository)
    (no_pr : (n : ℤ) → (("pr:" ⊕ itoa n) == repo.spec.default_branch) ≡ false) where
  key-ne-default :
      (head : BranchHead)
      → (head.info.ref == repo.spec.default_branch) ≡ false
      → head_key head ≢ repo.spec.default_branch
  unfolding head_key
  key-ne-default head other = elim (Bool-cases head.external_pr) [
    | inl external ↦ rw external λ e. ground (
      arith,
      no_pr head.info.pr_number,
      eq_iff ("pr:" ⊕ itoa head.info.pr_number) repo.spec.default_branch,
    )
    | inr local ↦ rw local λ e. ground (arith, eq_iff head.info.ref repo.spec.default_branch)
  ]

  filled-idle :
      (head : BranchHead) (heads : List BranchHead) (bs : List Branch) (env : Env)
      (calls : List Call)
      → is_empty bs ≡ false
      → contains (head_key head) (map head_key heads) ≡ false
      → (head.info.ref == repo.spec.default_branch) ≡ false
      → All (Fits repo.spec.default_branch (head ∷ heads) (head_key head)) bs
      → ensure_branch_resource repo head bs env calls ≡ (ok tt, calls)
  filled-idle head heads [] env calls filled new other fits = cc
  filled-idle head heads (b ∷ bs) env calls filled new other (fits, more) =
      fitting-idle repo head heads b bs env calls new (key-ne-default head other) fits

  pub ensure_heads-idle :
      (heads : List BranchHead) (groups : Dictionary (List Branch)) (env : Env) (calls : List Call)
      → IsDistinct (map head_key heads)
      → HaveObjects repo.spec.default_branch groups heads
      → AllFit repo.spec.default_branch heads groups
      → (stale : Dictionary (List Branch)) × (ensure_heads repo heads groups env calls
          ≡ (ok stale, calls))
        × AllFit repo.spec.default_branch [] stale
  unfolding ensure_heads pure ◌>>=◌
  ensure_heads-idle [] groups env calls distinct have fit = (groups, refl, fit)
  ensure_heads-idle (head ∷ heads) groups env calls (new, distinct) (has, have) fit =
      elim (Bool-cases (head.info.ref == repo.spec.default_branch)) [
        | inl is_default ↦ rw is_default (
            ensure_heads-idle heads groups env calls distinct have
              (skip-AllFit repo.spec.default_branch head heads groups is_default fit))
        | inr other ↦
            let filled : is_empty (group_at (head_key head) groups) ≡ false = elim has [
              | inl is_default ↦ cc
              | inr filled ↦ filled
            ] in
            let fits =
              group_at-Fits repo.spec.default_branch (head_key head) (head ∷ heads) groups fit in
            rw
              (
                other,
                filled-idle head heads (group_at (head_key head) groups) env calls filled new other
                    fits,
              )
              (ensure_heads-idle heads (remove (head_key head) groups) env calls distinct
                (remove-HaveObjects repo.spec.default_branch (head_key head) groups heads new have)
                (remove-AllFit repo.spec.default_branch head heads groups fit))
      ]
