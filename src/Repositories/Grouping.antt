-- ===== src/Repositories/Grouping.antt =====
-- The Branch objects of a repository by their identity (internal/controller/repository_controller.go).
use terrakojo.Prelude.{
  ◌⊎◌, String, ◌≡◌, refl, subst, ◌==◌, List, [], ◌∷◌, ◌++◌, All, eq_iff, Bool-cases, inl, inr,
}
use terrakojo.Prelude.Dictionary.{Dictionary, lookup, insert, remove}
use terrakojo.Api.{Branch}
use terrakojo.Repositories.Heads.{branch_identity, group_at}
use terrakojo.Repositories.{group_branches}

-- The branch is one of the list.
abbrev pub IsIn : Branch → List Branch → Type 0
IsIn b [] = ⊥
IsIn b (c ∷ branches) = (c ≡ b) ⊎ IsIn b branches

All-map_inr :
    (c : Branch) (all branches : List Branch)
    → All (λ b. IsIn b all) branches
    → All (λ b. IsIn b (c ∷ all)) branches
All-map_inr c all [] h = tt
All-map_inr c all (b ∷ branches) (h, hs) = (inr h, All-map_inr c all branches hs)

pub all-IsIn_self : (branches : List Branch) → All (λ b. IsIn b branches) branches
all-IsIn_self [] = tt
all-IsIn_self (b ∷ branches) = (inl refl, All-map_inr b branches branches (all-IsIn_self branches))

module _ (existing : List Branch) where
  -- The branches of the list have the identity `key`, and each is one of `existing`.
  abbrev pub HaveIdentity : String → List Branch → Type 0
  HaveIdentity key = All (λ b. (branch_identity b ≡ key) × IsIn b existing)

  -- Every branch stands under its own identity.
  abbrev pub IsGrouped : Dictionary (List Branch) → Type 0
  IsGrouped [] = Unit
  IsGrouped ((key, branches) ∷ groups) = HaveIdentity key branches × IsGrouped groups

  pub group_at-HaveIdentity :
      (key : String) (groups : Dictionary (List Branch))
      → IsGrouped groups
      → HaveIdentity key (group_at key groups)
  unfolding lookup
  group_at-HaveIdentity key [] h = tt
  group_at-HaveIdentity key ((k, branches) ∷ groups) (h, hs) = elim (Bool-cases (k == key)) [
    | inl same ↦
        rw (group_at, same) (subst (λ i. HaveIdentity i branches) ((eq_iff k key).0 same) h)
    | inr other ↦ rw (group_at, other) (group_at-HaveIdentity key groups hs)
  ]

  pub remove-IsGrouped :
      (key : String) (groups : Dictionary (List Branch))
      → IsGrouped groups
      → IsGrouped (remove key groups)
  unfolding remove
  remove-IsGrouped key [] h = tt
  remove-IsGrouped key ((k, branches) ∷ groups) (h, hs) = elim (Bool-cases (k == key)) [
    | inl same ↦ rw same (remove-IsGrouped key groups hs)
    | inr other ↦ rw other (h, remove-IsGrouped key groups hs)
  ]

  insert-IsGrouped :
      (key : String) (branches : List Branch) (groups : Dictionary (List Branch))
      → HaveIdentity key branches
      → IsGrouped groups
      → IsGrouped (insert key branches groups)
  unfolding insert
  insert-IsGrouped key branches [] h hs = (h, tt)
  insert-IsGrouped key branches ((k, old) ∷ groups) h (o, hs) = elim (Bool-cases (k == key)) [
    | inl same ↦ rw same (h, hs)
    | inr other ↦ rw other (o, insert-IsGrouped key branches groups h hs)
  ]

  append-HaveIdentity :
      (key : String) (xs ys : List Branch)
      → HaveIdentity key xs
      → HaveIdentity key ys
      → HaveIdentity key (xs ++ ys)
  append-HaveIdentity key [] ys h k = k
  append-HaveIdentity key (x ∷ xs) ys (e, h) k = (e, append-HaveIdentity key xs ys h k)

  -- the controller groups the branches by their identity
  pub group_branches-IsGrouped :
      (groups : Dictionary (List Branch)) (branches : List Branch)
      → IsGrouped groups
      → All (λ b. IsIn b existing) branches
      → IsGrouped (group_branches groups branches)
  unfolding group_branches
  group_branches-IsGrouped groups [] h k = h
  group_branches-IsGrouped groups (b ∷ branches) h (held, k) =
      let key = branch_identity b in
      group_branches-IsGrouped (insert key (group_at key groups ++ b ∷ []) groups) branches
        (insert-IsGrouped key (group_at key groups ++ b ∷ []) groups
          (append-HaveIdentity key (group_at key groups) (b ∷ [])
            (group_at-HaveIdentity key groups h) ((refl, held), tt))
          h)
        k
