-- ===== src/Repositories/Requests.antt =====
-- internal/controller/repository_controller.go: the requests to start the default branch again, over
-- all that the users and the reconciles of one Repository do, one after the other.
use terrakojo.Prelude.{
  ◌≡◌, refl, inl, inr, ◌⊎◌, String, Bool, true, false, Bool-cases, not, ◌||◌, List, [], ◌∷◌, ◌==◌,
  if◌then◌else◌, arith, eq_iff, contains,
}
use terrakojo.Prelude.Dictionary.{at, insert, remove, at-insert, at-remove}
use terrakojo.Api.{Repository, Condition}
use terrakojo.Text.Sort.{IsDistinct}
use terrakojo.Repositories.Settled.{with_conditions}
use terrakojo.Repositories.Bootstrap.{
  reset, reset_id, reset_done, is_bootstrap_reset_requested, should_bootstrap_from_head,
  has_matching_id, with_matching_id, acknowledged, cut_over,
}

-- the value of the request's annotation, as a user sets it
abbrev pub with_reset : String → Repository → Repository
with_reset value repo = record repo {
  meta = record (repo.meta) { annotations = insert reset value repo.meta.annotations };
}

abbrev pub without_reset : Repository → Repository
without_reset repo = record repo {
  meta = record (repo.meta) { annotations = remove reset repo.meta.annotations };
}

abbrev pub with_head : String → Repository → Repository
with_head sha repo = record repo {
  status = record (repo.status) { last_default_branch_head_sha = sha };
}

-- The Repository, and the identifiers of the requests that were carried out, the newest first.
abbrev pub State : Type 0
State = Repository × List String

abbrev pub carried_out : Repository → List String → List String
carried_out repo ids =
    if is_bootstrap_reset_requested repo then at reset_id repo.meta.annotations ∷ ids else ids

-- What can happen next. A UUID is new to the requests that were carried out; a user leaves the
-- identifier alone.
pub data Step : State → State → Type 0 where
  asks :
      {repo : Repository} {ids : List String} (value : String)
      → Step (repo, ids) (with_reset value repo, ids)
  cancels : {repo : Repository} {ids : List String} → Step (repo, ids) (without_reset repo, ids)
  -- `ensure_bootstrap_reset_id`
  identifies :
      {repo : Repository} {ids : List String} (uuid : String)
      → has_matching_id repo ≡ false
      → contains uuid ids ≡ false
      → Step (repo, ids) (with_matching_id uuid repo, ids)
  -- `bootstrap_default_branch_from_current_head`
  cuts_over :
      {repo : Repository} {ids : List String} (head : String)
      → has_matching_id repo ≡ true
      → should_bootstrap_from_head repo ≡ true
      → Step (repo, ids) (cut_over head repo, carried_out repo ids)
  -- `advance_head`
  advances :
      {repo : Repository} {ids : List String} (sha : String)
      → should_bootstrap_from_head repo ≡ false
      → Step (repo, ids) (with_head sha repo, ids)
  -- `mark_bootstrap_reset_done`
  acknowledges :
      {repo : Repository} {ids : List String}
      → is_bootstrap_reset_requested repo ≡ true
      → Step (repo, ids) (acknowledged repo, ids)
  -- `set_repository_condition`
  notes :
      {repo : Repository} {ids : List String} (conditions : List Condition)
      → Step (repo, ids) (with_conditions conditions repo, ids)

pub data Reaches (start : State) : State → Type 0 where
  here : Reaches start start
  then_step : {s t : State} → Reaches start s → Step s t → Reaches start t

-- the request that the object names was not carried out, or was the last one; none was twice
abbrev Once : State → Type 0
Once (repo, ids) =
    ((contains (at reset_id repo.meta.annotations) ids ≡ false)
      ⊎ (at reset_id repo.meta.annotations ≡ repo.status.last_bootstrap_reset_id))
    × (contains "" ids ≡ false)
    × IsDistinct ids

-- a request that is pending has an identifier, and that is not the last one
pending-is_new :
    (repo : Repository)
    → is_bootstrap_reset_requested repo ≡ true
    → has_matching_id repo ≡ true
    → should_bootstrap_from_head repo ≡ true
    → ((at reset_id repo.meta.annotations == "") ≡ false)
      × ((repo.status.last_bootstrap_reset_id == at reset_id repo.meta.annotations) ≡ false)
unfolding should_bootstrap_from_head
pending-is_new repo requested has pending =
    both (at reset_id repo.meta.annotations == "")
      (repo.status.last_bootstrap_reset_id == at reset_id repo.meta.annotations)
      (rw requested at has) (rw requested at pending)
  where
    both :
        (b c : Bool) → ((not b) || false) ≡ true → (b || not c) ≡ true → (b ≡ false) × (c ≡ false)
    both true c h k = cc
    both false true h k = cc
    both false false h k = (refl, refl)

Once-cut_over :
    (repo : Repository) (ids : List String) (head : String)
    → has_matching_id repo ≡ true
    → should_bootstrap_from_head repo ≡ true
    → Once (repo, ids)
    → Once (cut_over head repo, carried_out repo ids)
Once-cut_over repo ids head has pending (current, named, distinct) =
    elim (Bool-cases (is_bootstrap_reset_requested repo)) [
      | inl requested ↦
          let (given, other) = pending-is_new repo requested has pending in
          let new : contains (at reset_id repo.meta.annotations) ids ≡ false = elim current [
            | inl new ↦ new
            | inr last ↦ absurd (
                ground (
                  arith,
                  eq_iff repo.status.last_bootstrap_reset_id (at reset_id repo.meta.annotations),
                ))
          ] in
          rw requested (inr refl, rw given named, (new, distinct))
      | inr idle ↦ rw idle (current, named, distinct)
    ]

Once-Step : (s t : State) → Step s t → Once s → Once t
Once-Step _ _ (asks {repo = repo} value) (current, named, distinct) =
    rw (at-insert reset reset_id value repo.meta.annotations) (current, named, distinct)
Once-Step _ _ (cancels {repo = repo}) (current, named, distinct) =
    rw (at-remove reset reset_id repo.meta.annotations) (current, named, distinct)
Once-Step _ _ (identifies {repo = repo} uuid lacks new) (current, named, distinct) =
    elim (Bool-cases (is_bootstrap_reset_requested repo)) [
      | inl requested ↦
          rw (requested, at-insert reset_id reset_id uuid repo.meta.annotations)
            (inl new, named, distinct)
      | inr idle ↦
          rw (idle, at-remove reset_id reset_id repo.meta.annotations) (inl named, named, distinct)
    ]
Once-Step _ _ (cuts_over {repo = repo} {ids = ids} head has pending) once =
    Once-cut_over repo ids head has pending once
Once-Step _ _ (advances sha idle) once = once
Once-Step _ _ (notes conditions) once = once
Once-Step _ _ (acknowledges {repo = repo} requested) (current, named, distinct) =
    rw (at-remove reset_id reset_id (insert reset reset_done repo.meta.annotations))
      (inl named, named, distinct)

Once-Reaches : (s t : State) → Reaches s t → Once s → Once t
Once-Reaches s _ here once = once
Once-Reaches s t (then_step {s = mid} run step) once =
    Once-Step mid t step (Once-Reaches s mid run once)

-- From any Repository on, in whatever order users ask for a new start of the default branch or take it
-- back, and requests get identifiers, are carried out and are acknowledged: where the identifiers are
-- new to the requests that were carried out and users leave them alone, no request is carried out twice, and
-- none without an identifier.
pub requests_once :
    (repo : Repository) (later : State)
    → Reaches (repo, []) later
    → IsDistinct later.1 × (contains "" later.1 ≡ false)
requests_once repo later run =
    let (current, named, distinct) = Once-Reaches (repo, []) later run (inl refl, refl, tt) in
    (distinct, named)
