-- ===== src/Owners/Exact.antt =====
-- internal/controller: which objects an index finds.
use terrakojo.Prelude.{
  ◌≡◌, ◌↔◌, refl, ap, String, Bool, Option, none, some, ◌&&◌, ◌==◌, eq_iff, true, false, Bool-cases,
  inl, inr, List, [], ◌∷◌, ◌++◌, All,
}
use terrakojo.Api.{OwnerReference, Branch, Workflow}
use terrakojo.Owners.{
  is_true, controls, controller_uid, index_by_owner_branch_uid, index_by_owner_repository_uid,
}

-- the reference says that its object is of the kind, and the controller
abbrev pub IsController : String → OwnerReference → Type 0
IsController kind ref = (ref.kind ≡ kind) × (ref.controller ≡ some true)

-- the first reference to a controller of the kind has the UID
abbrev pub FirstController : String → List OwnerReference → String → Type 0
FirstController kind refs uid =
    (before : List OwnerReference) × (ref : OwnerReference) × (after : List OwnerReference) × (refs
      ≡ before ++ ref ∷ after)
    × All (λ r. IsController kind r → ⊥) before
    × IsController kind ref
    × (ref.uid ≡ uid)

controls-IsController :
    (kind : String) (ref : OwnerReference) → controls kind ref ≡ true → IsController kind ref
controls-IsController kind ref h = by_flag ref.controller h
  where
    by_flag :
        (flag : Option Bool)
        → (is_true flag && (ref.kind == kind)) ≡ true
        → (ref.kind ≡ kind) × (flag ≡ some true)
    by_flag none h = cc
    by_flag (some true) h = ((eq_iff ref.kind kind).0 h, refl)
    by_flag (some false) h = cc

IsController-controls :
    (kind : String) (ref : OwnerReference) → IsController kind ref → controls kind ref ≡ true
IsController-controls kind ref (is_kind, flagged) = rw flagged ((eq_iff ref.kind kind).1 is_kind)

module _ (kind : String) where
  found :
      (refs : List OwnerReference) (uid : String)
      → controller_uid kind refs ≡ uid ∷ []
      → FirstController kind refs uid
  unfolding controller_uid
  found [] uid e = cc
  found (ref ∷ refs) uid e = elim (Bool-cases (controls kind ref)) [
    | inl hit ↦
        let e' : ref.uid ∷ [] ≡ uid ∷ [] = rw hit at e in
        ([], ref, refs, refl, tt, controls-IsController kind ref hit, cc)
    | inr miss ↦
        let (before, r, after, same, none_before, hit, is_uid) = found refs uid (rw miss at e) in
        let missed : IsController kind ref → ⊥ =
          λ c. let k = IsController-controls kind ref c in cc in
        (ref ∷ before, r, after, ap (λ l. ref ∷ l) same, (missed, none_before), hit, is_uid)
  ]

  indexed :
      (before : List OwnerReference) (ref : OwnerReference) (after : List OwnerReference)
      → All (λ r. IsController kind r → ⊥) before
      → IsController kind ref
      → controller_uid kind (before ++ ref ∷ after) ≡ ref.uid ∷ []
  unfolding controller_uid
  indexed [] ref after h hit = rw (IsController-controls kind ref hit) refl
  indexed (b ∷ before) ref after (miss, h) hit = elim (Bool-cases (controls kind b)) [
    | inl hits ↦ absurd (miss (controls-IsController kind b hits))
    | inr misses ↦ rw misses (indexed before ref after h hit)
  ]

  controller_uid_exact :
      (refs : List OwnerReference) (uid : String)
      → controller_uid kind refs ≡ uid ∷ [] ↔ FirstController kind refs uid
  controller_uid_exact refs uid = (
    found refs uid,
    λ (before, ref, after, same, none_before, hit, is_uid).
        rw (same, ← is_uid) (indexed before ref after none_before hit),
  )

-- A Branch is indexed by a UID alone exactly where that is the UID of its first owner reference of kind Repository whose
-- controller flag is set and true; a Workflow by that of its first such reference of kind Branch.
pub index_exact :
    (branch : Branch) (workflow : Workflow) (uid : String)
    → (index_by_owner_repository_uid branch ≡ uid ∷ []
        ↔ FirstController "Repository" branch.meta.owner_references uid)
      × (index_by_owner_branch_uid workflow ≡ uid ∷ []
          ↔ FirstController "Branch" workflow.meta.owner_references uid)
unfolding index_by_owner_repository_uid index_by_owner_branch_uid
index_exact branch workflow uid = (
  controller_uid_exact "Repository" branch.meta.owner_references uid,
  controller_uid_exact "Branch" workflow.meta.owner_references uid,
)
