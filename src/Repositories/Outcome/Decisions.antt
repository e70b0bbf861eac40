-- ===== src/Repositories/Outcome/Decisions.antt =====
-- What the code's tests of a bootstrap request decide, and what becomes of its identifier.
use terrakojo.Prelude.{
  ◌≡◌, ◌≢◌, refl, sym, ap, ◌∙◌, ◌⊎◌, inl, inr, String, Bool, true, false, Bool-cases, List, [], ◌∷◌,
  ◌++◌, ◌==◌, if◌then◌else◌, arith, eq_iff,
}
use terrakojo.Prelude.Dictionary.{at-insert, at-remove}
use terrakojo.Api.{Repository}
use terrakojo.Repositories.Bootstrap.{
  reset, reset_id, is_bootstrap_reset_requested, should_bootstrap_from_head, has_matching_id,
  with_matching_id,
}
use terrakojo.Repositories.{last_of}
use terrakojo.Repositories.Outcome.{annotation, request_id, IsIdentified, IsPending, IsIdle}

pub ne_of_eq-false : (s t : String) → (s == t) ≡ false → s ≢ t
ne_of_eq-false s t h e = ground (arith, eq_iff s t)

-- with the identifier in place, the code's test of a pending cutover is the one above
pub by_request :
    (r : Repository) (b : Bool)
    → has_matching_id r ≡ true
    → should_bootstrap_from_head r ≡ b
    → if b then IsPending r else IsIdle r
unfolding should_bootstrap_from_head is_bootstrap_reset_requested
by_request r true matching h =
    elim (Bool-cases (annotation "terrakojo.io/bootstrap-reset" r == "true")) [
      | inl asked ↦ inl ((eq_iff _ _).0 asked, ne_of_eq-false _ _ (ground arith))
      | inr other ↦ inr (ne_of_eq-false _ _ other, (eq_iff _ _).0 (ground arith))
    ]
by_request r false matching h =
    elim (Bool-cases (annotation "terrakojo.io/bootstrap-reset" r == "true")) [
      | inl asked ↦ inl ((eq_iff _ _).0 asked, (eq_iff _ _).0 (ground arith))
      | inr other ↦ inr (ne_of_eq-false _ _ other, ne_of_eq-false _ _ (ground arith))
    ]

pub last_of-last :
    (head : String) (shas : List String)
    → ((shas ≡ []) × (last_of head shas ≡ head))
      ⊎ ((before : List String) × (shas ≡ before ++ last_of head shas ∷ []))
last_of-last head [] = inl (refl, refl)
last_of-last head (sha ∷ shas) = elim (last_of-last sha shas) [
  | inl (none_left, same) ↦ inr ([], ap (λ l. sha ∷ l) none_left ∙ ap (λ s. s ∷ []) (sym same))
  | inr (before, same) ↦ inr (sha ∷ before, ap (λ l. sha ∷ l) same)
]

pub has_matching_id-IsIdentified :
    (repo : Repository) → has_matching_id repo ≡ true → IsIdentified repo repo
unfolding is_bootstrap_reset_requested
has_matching_id-IsIdentified repo matching =
    elim (Bool-cases (annotation "terrakojo.io/bootstrap-reset" repo == "true")) [
      | inl asked ↦
          (refl, refl, inl ((eq_iff _ _).0 asked, ne_of_eq-false _ _ (ground arith), inr refl))
      | inr other ↦ (refl, refl, inr (ne_of_eq-false _ _ other, (eq_iff _ _).0 (ground arith)))
    ]

pub with_matching_id-IsIdentified :
    (uuid : String) (repo : Repository)
    → (uuid == "") ≡ false
    → has_matching_id repo ≡ false
    → IsIdentified repo (with_matching_id uuid repo)
unfolding is_bootstrap_reset_requested
with_matching_id-IsIdentified uuid repo named lacks =
    elim (Bool-cases (annotation "terrakojo.io/bootstrap-reset" repo == "true")) [
      | inl asked ↦
          let new_id : request_id (with_matching_id uuid repo) ≡ uuid =
            rw asked (at-insert reset_id reset_id uuid repo.meta.annotations) in
          (
            refl,
            rw asked (at-insert reset_id reset uuid repo.meta.annotations),
            inl (
              (eq_iff _ _).0 asked,
              ne_of_eq-false _ _ (ap (λ u. u == "") new_id ∙ named),
              inl ((eq_iff _ _).0 (ground arith)),
            ),
          )
      | inr other ↦ (
        refl,
        rw other (at-remove reset_id reset repo.meta.annotations),
        inr (
          ne_of_eq-false _ _ other,
          rw other (at-remove reset_id reset_id repo.meta.annotations),
        ),
      )
    ]
