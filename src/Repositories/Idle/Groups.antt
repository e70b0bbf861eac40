-- ===== src/Repositories/Idle/Groups.antt =====
-- internal/controller/repository_controller.go: the map of the Branch objects by their identity.
use mathlib.Core.List.{append_assoc, append-nil}
use terrakojo.Prelude.{
  ◌≡◌, refl, sym, ap, subst, ◌∙◌, inl, inr, String, Bool, true, false, Bool-cases, List, [], ◌∷◌,
  ◌++◌, ◌==◌, if◌then◌else◌, arith, eq_iff, All, keep, is_empty,
}
use terrakojo.Prelude.Dictionary.{Dictionary, lookup, insert, remove, lookup-insert, lookup-remove}
use terrakojo.Api.{Branch}
use terrakojo.Repositories.Heads.{branch_identity, group_at}
use terrakojo.Repositories.{group_branches}
use terrakojo.Repositories.Grouping.{IsIn, IsGrouped, HaveIdentity}
use terrakojo.Sync.{BranchHead}
use terrakojo.Repositories.Idle.{Fits, AllFit}

group_at-insert :
    (k key : String) (bs : List Branch) (groups : Dictionary (List Branch))
    → group_at key (insert k bs groups) ≡ (if k == key then bs else group_at key groups)
group_at-insert k key bs groups = ground (arith, lookup-insert k key bs groups)

pub group_at-remove :
    (k key : String) (groups : Dictionary (List Branch))
    → group_at key (remove k groups) ≡ (if k == key then [] else group_at key groups)
group_at-remove k key groups = ground (arith, lookup-remove k key groups)

-- the group of a key holds the branches of that identity, in their order
pub group_at-group_branches :
    (key : String) (groups : Dictionary (List Branch)) (branches : List Branch)
    → group_at key (group_branches groups branches)
      ≡ group_at key groups ++ keep (λ b. branch_identity b == key) branches
unfolding group_branches keep
group_at-group_branches key groups [] = sym (append-nil (group_at key groups))
group_at-group_branches key groups (b ∷ branches) =
    let rest = keep (λ b. branch_identity b == key) branches in
    group_at-group_branches key
      (insert (branch_identity b) (group_at (branch_identity b) groups ++ b ∷ []) groups) branches
    ∙ ap (λ l. l ++ rest)
        (group_at-insert (branch_identity b) key (group_at (branch_identity b) groups ++ b ∷ [])
          groups)
    ∙ elim (Bool-cases (branch_identity b == key)) [
      | inl same ↦ rw same (
          ap (λ k. (group_at k groups ++ b ∷ []) ++ rest) ((eq_iff (branch_identity b) key).0 same)
          ∙ append_assoc (group_at key groups) (b ∷ []) rest)
      | inr other ↦ rw other refl
    ]

pub group_at-Fits :
    (default_branch key : String) (heads : List BranchHead) (groups : Dictionary (List Branch))
    → AllFit default_branch heads groups
    → All (Fits default_branch heads key) (group_at key groups)
unfolding lookup
group_at-Fits default_branch key heads [] h = tt
group_at-Fits default_branch key heads ((k, bs) ∷ groups) (h, hs) = elim (Bool-cases (k == key)) [
  | inl same ↦
      rw (group_at, same)
        (subst (λ i. All (Fits default_branch heads i) bs) ((eq_iff k key).0 same) h)
  | inr other ↦ rw (group_at, other) (group_at-Fits default_branch key heads groups hs)
]

All-of_IsIn :
    (P : Branch → Type 0) (b : Branch) (branches : List Branch)
    → All P branches
    → IsIn b branches
    → P b
All-of_IsIn P b [] h held = absurd held
All-of_IsIn P b (c ∷ branches) (h, hs) (inl same) = subst P same h
All-of_IsIn P b (c ∷ branches) (h, hs) (inr later) = All-of_IsIn P b branches hs later

-- what holds of every branch under its identity holds of every branch of the map under its key
pub groups-All :
    (Q : String → Branch → Type 0) (existing : List Branch) (groups : Dictionary (List Branch))
    → All (λ b. Q (branch_identity b) b) existing
    → IsGrouped existing groups
    → All (λ (key, bs). All (Q key) bs) groups
groups-All Q existing [] h grouped = tt
groups-All Q existing ((key, bs) ∷ groups) h (have, grouped) =
    (of_group bs have, groups-All Q existing groups h grouped)
  where
    of_group : (bs : List Branch) → HaveIdentity existing key bs → All (Q key) bs
    of_group [] have = tt
    of_group (b ∷ bs) ((is_key, held), have) = (
      subst (λ k. Q k b) is_key (All-of_IsIn (λ b. Q (branch_identity b) b) b existing h held),
      of_group bs have,
    )

pub keep-filled :
    (p : Branch → Bool) (b : Branch) (branches : List Branch)
    → IsIn b branches
    → p b ≡ true
    → is_empty (keep p branches) ≡ false
unfolding keep
keep-filled p b [] held h = absurd held
keep-filled p b (c ∷ branches) (inl same) h = rw (ap p same ∙ h) refl
keep-filled p b (c ∷ branches) (inr later) h = elim (Bool-cases (p c)) [
  | inl kept ↦ rw kept refl
  | inr dropped ↦ rw dropped (keep-filled p b branches later h)
]
