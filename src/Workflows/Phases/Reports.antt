-- ===== src/Workflows/Phases/Reports.antt =====
-- What GitHub is told, against the counters of the job.
use terrakojo.Prelude.{
  String, ◌≡◌, refl, sym, subst, Bool, true, false, ◌||◌, ◌==◌, not, Bool-cases, inl, inr,
  if◌then◌else◌, contains, is_pos, arith, eq_iff,
}
use terrakojo.Branches.{finished_phases}
use terrakojo.Api.{Job}
use terrakojo.Workflows.Phases.{
  phase_of, check_run_status, status_completed, phase_pending, phase_running, phase_succeeded,
  phase_failed, phase_cancelled,
}

abbrev Told : String → Type 0
Told phase =
    (((check_run_status phase).0 == status_completed) ≡ contains phase finished_phases)
    × (((check_run_status phase).1 == "") ≡ not (contains phase finished_phases))

eq-false_symm : (s t : String) → (s == t) ≡ false → (t == s) ≡ false
eq-false_symm s t h = ground (arith, eq_iff s t, eq_iff t s)

Told-at : (phase known : String) → Told known → (phase == known) ≡ true → Told phase
Told-at phase known h e = subst Told (sym ((eq_iff phase known).0 e)) h

-- the five phases, and any other text
Told-cases :
    (phase : String)
    → (phase == phase_pending) ≡ false
    → (phase == phase_running) ≡ false
    → (phase == phase_succeeded) ≡ false
    → (phase == phase_failed) ≡ false
    → (phase == phase_cancelled) ≡ false
    → Told phase
unfolding check_run_status
Told-cases phase a b c d e =
    rw (a, b, c, d, e, eq-false_symm _ _ c, eq-false_symm _ _ d, eq-false_symm _ _ e) (refl, refl)

-- A check run is reported as completed exactly in the three phases in which a branch's workflow
-- counts as completed, and it carries a conclusion exactly then.
pub completed_iff_final :
    (phase : String)
    → (((check_run_status phase).0 == status_completed) ≡ contains phase finished_phases)
      × (((check_run_status phase).1 == "") ≡ not (contains phase finished_phases))
unfolding check_run_status
completed_iff_final phase = elim (Bool-cases (phase == phase_pending)) [
  | inl e ↦ Told-at phase phase_pending (refl, refl) e
  | inr a ↦ elim (Bool-cases (phase == phase_running)) [
    | inl e ↦ Told-at phase phase_running (refl, refl) e
    | inr b ↦ elim (Bool-cases (phase == phase_succeeded)) [
      | inl e ↦ Told-at phase phase_succeeded (refl, refl) e
      | inr c ↦ elim (Bool-cases (phase == phase_failed)) [
        | inl e ↦ Told-at phase phase_failed (refl, refl) e
        | inr d ↦ elim (Bool-cases (phase == phase_cancelled)) [
          | inl e ↦ Told-at phase phase_cancelled (refl, refl) e
          | inr e ↦ Told-cases phase a b c d e
        ]
      ]
    ]
  ]
]

-- The phase of a job and of what GitHub is told together: the check run is reported as completed exactly
-- if the job has a success or a failure, with "success" exactly if it has a success.
pub job_reported :
    (job : Job)
    → (((check_run_status (phase_of job)).0 == status_completed)
        ≡ (is_pos job.status.succeeded || is_pos job.status.failed))
      × (((check_run_status (phase_of job)).1 == "success") ≡ is_pos job.status.succeeded)
unfolding check_run_status phase_of
job_reported job =
    cases (is_pos job.status.succeeded) (is_pos job.status.failed) (is_pos job.status.active)
  where
    cases :
        (s f a : Bool)
        → let phase =
            if s
            then phase_succeeded
            else if f
            then phase_failed
            else if a
            then phase_running
            else phase_pending in
          (((check_run_status phase).0 == status_completed) ≡ (s || f))
          × (((check_run_status phase).1 == "success") ≡ s)
    cases true f a = (refl, refl)
    cases false true a = (refl, refl)
    cases false false true = (refl, refl)
    cases false false false = (refl, refl)
