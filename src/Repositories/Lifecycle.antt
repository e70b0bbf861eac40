-- ===== src/Repositories/Lifecycle.antt =====
-- The steps in the life of a bootstrap request (internal/controller/repository_controller.go).
use terrakojo.Prelude.{
  String, ◌≡◌, refl, sym, Bool, true, false, ◌||◌, ◌&&◌, not, ◌==◌, eq_refl, Bool-cases, inl, inr,
}
use terrakojo.Prelude.Dictionary.{insert, at, at-insert, at-remove}
use terrakojo.Api.{Repository}
use terrakojo.Repositories.Bootstrap.{
  reset, reset_id, reset_requested, reset_done, is_bootstrap_reset_requested,
  should_bootstrap_from_head, has_matching_id, with_matching_id, acknowledged, cut_over,
}

-- Giving or taking away the identifier leaves the request as it was, and afterwards there is an
-- identifier exactly if there is a request.
pub with_matching_id_matches :
    (uuid : String) (repo : Repository)
    → (uuid == "") ≡ false
    → (is_bootstrap_reset_requested (with_matching_id uuid repo)
        ≡ is_bootstrap_reset_requested repo)
      × (has_matching_id (with_matching_id uuid repo) ≡ true)
unfolding is_bootstrap_reset_requested
with_matching_id_matches uuid repo fresh =
    elim (Bool-cases (at reset repo.meta.annotations == reset_requested)) [
      | inl requested ↦
          rw
            (
              requested,
              at-insert reset_id reset uuid repo.meta.annotations,
              at-insert reset_id reset_id uuid repo.meta.annotations,
              requested,
              fresh,
            )
            (refl, refl)
      | inr idle ↦
          rw
            (
              idle,
              at-remove reset_id reset repo.meta.annotations,
              at-remove reset_id reset_id repo.meta.annotations,
              idle,
            )
            (refl, refl)
    ]

-- Once the cutover is done for a head, no cutover is to be done again.
pub cut_over_settles :
    (head : String) (repo : Repository)
    → (head == "") ≡ false
    → has_matching_id repo ≡ true
    → should_bootstrap_from_head (cut_over head repo) ≡ false
unfolding should_bootstrap_from_head
cut_over_settles head repo given matching =
    elim (Bool-cases (at reset repo.meta.annotations == reset_requested)) [
      | inl requested ↦
          let identified = rw requested at matching in
          rw (requested, eq_refl)
            (identified_once (at reset_id repo.meta.annotations == "") identified)
      | inr idle ↦ rw idle given
    ]
  where
    identified_once : (b : Bool) → ((not b) || (false && b)) ≡ true → (b || false) ≡ false
    identified_once true h = sym h
    identified_once false h = refl

-- Once a bootstrap request is retired there is no request and no identifier, and a cutover is
-- pending exactly if no head was recorded.
pub acknowledged_idle :
    (repo : Repository)
    → (is_bootstrap_reset_requested (acknowledged repo) ≡ false)
      × (has_matching_id (acknowledged repo) ≡ true)
      × (should_bootstrap_from_head (acknowledged repo)
          ≡ (repo.status.last_default_branch_head_sha == ""))
unfolding should_bootstrap_from_head
acknowledged_idle repo =
    rw
      (
        at-remove reset_id reset (insert reset reset_done repo.meta.annotations),
        at-insert reset reset reset_done repo.meta.annotations,
        at-remove reset_id reset_id (insert reset reset_done repo.meta.annotations),
      )
      (refl, refl, refl)

-- A pending cutover is still pending once its identifier is renewed.
pub with_matching_id_pending :
    (uuid : String) (repo : Repository)
    → (uuid == "") ≡ false
    → (repo.status.last_bootstrap_reset_id == uuid) ≡ false
    → should_bootstrap_from_head repo ≡ true
    → should_bootstrap_from_head (with_matching_id uuid repo) ≡ true
unfolding should_bootstrap_from_head
with_matching_id_pending uuid repo given fresh pending =
    elim (Bool-cases (at reset repo.meta.annotations == reset_requested)) [
      | inl requested ↦
          rw
            (
              requested,
              at-insert reset_id reset uuid repo.meta.annotations,
              at-insert reset_id reset_id uuid repo.meta.annotations,
              requested,
              given,
              fresh,
            )
            refl
      | inr idle ↦
          rw (idle, at-remove reset_id reset repo.meta.annotations, idle) (rw idle at pending)
    ]
