-- ===== src/Workflows/Ordering/CheckRuns.antt =====
-- internal/controller/workflow_controller.go: how a reconcile makes a check run and stores its number.
use terrakojo.Prelude.{
  ◌≡◌, refl, sym, subst, ◌⊎◌, inl, inr, ℕ, ℤ, String, false, Bool-cases, arith, Option, none, some,
  List, ◌∷◌, ◌==◌, is_zero,
}
use terrakojo.Api.{ObjectKey, Workflow, key_of}
use terrakojo.Control.{pure, ask, gets, lift, attempt, ◌>>=◌}
use terrakojo.Control.Errors.{Result, ok, err}
use terrakojo.Control.Calls.{
  Call, GithubClient, get_workflow, create_check_run, update_workflow_status,
}
use terrakojo.Control.Environment.{Env}
use terrakojo.Control.Histories.{Sometime, EndsWithRun, continue-keeps, continue-then}
use terrakojo.Control.Client
use terrakojo.Workflows.{
  attempt_status, update_workflow_status_with_retry, named, named_if_empty, unless_deleted,
  save_check_run, ensure_check_run,
}
use terrakojo.Workflows.Ordering.{
  MakesRun, StoresRun, SavedRun, InOrder, Known, attempt_status-InOrder, retried-InOrder,
}

abbrev pub HasRun : Env → Workflow → List Call → Type 0
HasRun env w calls = (is_zero w.status.check_run_id ≡ false) ⊎ ((id : ℤ) × SavedRun env w id calls)

module _ (env : Env) (w : Workflow) (retry : EndsWithRun env) where
  attempt_status-Stores :
      (key : ObjectKey) (mutate : ℕ → Workflow → Workflow) (id : ℤ) (calls : List Call)
      → ((now : ℕ) (latest : Workflow) → (mutate now latest).status.check_run_id ≡ id)
      → (attempt_status key mutate env calls).0 ≡ ok tt
      → Sometime (StoresRun env id) (attempt_status key mutate env calls).1
  unfolding attempt_status ◌>>=◌ ask gets pure Client.get_workflow Client.update_workflow_status
  attempt_status-Stores key mutate id calls sets h =
      let asked = get_workflow key ∷ calls in
      continue-then (Sometime (StoresRun env id)) env (env.workflow asked) _ asked tt
        (λ latest found r.
          let stored = update_workflow_status (mutate (env.now asked) latest) ∷ asked in
          continue-then (Sometime (StoresRun env id)) env (env.workflow stored) _ stored tt
            (λ w' accepted e. inl (sets (env.now asked) latest, (w', accepted))) r)
        h

  -- the calls before the retried update are still there
  retried-Makes :
      (mutate : ℕ → Workflow → Workflow) (id : ℤ) (calls : List Call)
      → Sometime (MakesRun env w id) calls
      → Sometime (MakesRun env w id) (attempt_status (key_of w.meta) mutate env calls).1
  unfolding attempt_status ◌>>=◌ ask gets pure Client.get_workflow Client.update_workflow_status
  retried-Makes mutate id calls h =
      let asked = get_workflow (key_of w.meta) ∷ calls in
      continue-keeps (Sometime (MakesRun env w id)) env (env.workflow asked) _ asked
        (λ latest found.
          let stored = update_workflow_status (mutate (env.now asked) latest) ∷ asked in
          continue-keeps (Sometime (MakesRun env w id)) env (env.workflow stored) _ stored
            (λ u e. inr (inr h)) (inr (inr h)))
        (inr h)

  -- what goes on after the update was stored, or found nothing
  abbrev IsSaved : ℤ → String → Option (ℤ × String) → List Call → Type 0
  IsSaved id name run calls = (run ≡ none) ⊎ ((run ≡ some (id, name)) × SavedRun env w id calls)

  unless_deleted-IsSaved :
      (id : ℤ) (name : String) (saved : Result (Unit {0})) (calls : List Call)
      (run : Option (ℤ × String))
      → Sometime (MakesRun env w id) calls
      → (saved ≡ ok tt → Sometime (StoresRun env id) calls)
      → unless_deleted (id, name) saved env.is_not_found ≡ ok run
      → IsSaved id name run calls
  unless_deleted-IsSaved id name (ok u) calls run made stored e = inr (cc, (made, stored refl))
  unless_deleted-IsSaved id name (err x) calls run made stored e =
      elim (Bool-cases (env.is_not_found x)) [
        | inl gone ↦ inl (ground arith)
        | inr other ↦ ground arith
      ]

  save_check_run-IsSaved :
      (id : ℤ) (name : String) (calls : List Call)
      → Sometime (MakesRun env w id) calls
      → InOrder env w calls
      → let saving = save_check_run w id name (named name id) env calls in
        InOrder env w saving.1
        × ((run : Option (ℤ × String)) → saving.0 ≡ ok run → IsSaved id name run saving.1)
  unfolding save_check_run update_workflow_status_with_retry ◌>>=◌ attempt gets lift
  save_check_run-IsSaved id name calls made h =
      let body = attempt_status (key_of w.meta) (named name id) in
      let (last, (kept, made'), same) =
        retry (λ c. InOrder env w c × Sometime (MakesRun env w id) c) (body env)
          (λ c k. (
            attempt_status-InOrder env w (key_of w.meta) (named name id) c k.0,
            retried-Makes (named name id) id c k.1,
          ))
          calls (h, made) in
      subst
        (λ r.
          InOrder env w r.1
          × ((run : Option (ℤ × String))
              → unless_deleted (id, name) r.0 env.is_not_found ≡ ok run
              → IsSaved id name run r.1))
        (sym same)
        (
          attempt_status-InOrder env w (key_of w.meta) (named name id) last kept,
          λ run.
              unless_deleted-IsSaved id name (body env last).0 (body env last).1 run
                (retried-Makes (named name id) id last made')
                (attempt_status-Stores (key_of w.meta) (named name id) id last
                  (λ now latest. refl)),
        )

  -- any other update of the status says nothing of the check run, and goes on with the number it was given
  save_check_run-InOrder :
      (id : ℤ) (name : String) (mutate : ℕ → Workflow → Workflow) (calls : List Call)
      → InOrder env w calls
      → InOrder env w (save_check_run w id name mutate env calls).1
  unfolding save_check_run ◌>>=◌ attempt gets lift
  save_check_run-InOrder id name mutate calls h = retried-InOrder env w retry mutate calls h

  unless_deleted-number :
      (id id' : ℤ) (name name' : String) (saved : Result (Unit {0}))
      → unless_deleted {A = ℤ × String} (id, name) saved env.is_not_found ≡ ok (some (id', name'))
      → id' ≡ id
  unless_deleted-number id id' name name' (ok u) e = cc
  unless_deleted-number id id' name name' (err x) e = elim (Bool-cases (env.is_not_found x)) [
    | inl gone ↦ ground arith
    | inr other ↦ ground arith
  ]

  save_check_run-number :
      (id id' : ℤ) (name name' : String) (mutate : ℕ → Workflow → Workflow) (calls : List Call)
      → (save_check_run w id name mutate env calls).0 ≡ ok (some (id', name'))
      → id' ≡ id
  unfolding save_check_run ◌>>=◌ attempt gets lift
  save_check_run-number id id' name name' mutate calls e =
      unless_deleted-number id id' name name'
        (update_workflow_status_with_retry w mutate env calls).0 e

  IsSaved-number :
      (id id' : ℤ) (name name' : String) (calls : List Call)
      → IsSaved id name (some (id', name')) calls
      → SavedRun env w id' calls
  IsSaved-number id id' name name' calls (inl dropped) = cc
  IsSaved-number id id' name name' calls (inr (same, saved)) =
      let e : id ≡ id' = cc in subst (λ i. SavedRun env w i calls) e saved

  pub ensure_check_run-InOrder :
      (gh : GithubClient) (name : String) (calls : List Call)
      → InOrder env w calls
      → InOrder env w (ensure_check_run gh w name env calls).1
  unfolding ensure_check_run ◌>>=◌ ask pure Client.create_check_run
  ensure_check_run-InOrder gh name calls h = elim (Bool-cases (is_zero w.status.check_run_id)) [
    | inl zero ↦
        let making = create_check_run gh w.spec.owner w.spec.repository w.spec.sha name ∷ calls in
        rw zero (
          continue-keeps (InOrder env w) env (env.check_run_id making) _ making
            (λ id made.
              (save_check_run-IsSaved id name making (inl (refl, made)) ((zero, refl), h)).0)
            ((zero, refl), h))
    | inr nonzero ↦ rw nonzero (elim (Bool-cases (w.status.check_run_name == "")) [
      | inl nameless ↦
          rw nameless
            (save_check_run-InOrder w.status.check_run_id name (named_if_empty name) calls h)
      | inr has_name ↦ rw has_name h
    ])
  ]

  pub ensure_check_run-Known :
      (gh : GithubClient) (id : ℤ) (name name' : String) (calls : List Call)
      → InOrder env w calls
      → (ensure_check_run gh w name env calls).0 ≡ ok (some (id, name'))
      → let later = (ensure_check_run gh w name env calls).1 in
        Known env w id later × HasRun env w later
  unfolding ensure_check_run ◌>>=◌ ask pure Client.create_check_run
  ensure_check_run-Known gh id name name' calls h =
      elim (Bool-cases (is_zero w.status.check_run_id)) [
        | inl zero ↦
            let making =
              create_check_run gh w.spec.owner w.spec.repository w.spec.sha name ∷ calls in
            rw zero (λ e.
              let saved =
                continue-then (SavedRun env w id) env (env.check_run_id making) _ making
                  (some (id, name'))
                  (λ made_id made e. IsSaved-number made_id id name name' _ (
                    (save_check_run-IsSaved made_id name making (inl (refl, made))
                        ((zero, refl), h)).1
                      (some (id, name')) e))
                  e in
              (inr saved, inr (id, saved)))
        | inr nonzero ↦ rw nonzero (elim (Bool-cases (w.status.check_run_name == "")) [
          | inl nameless ↦ rw nameless λ e. (
            inl (
                save_check_run-number w.status.check_run_id id name name' (named_if_empty name)
                  calls e),
            inl refl,
          )
          | inr has_name ↦ rw has_name λ e. (inl cc, inl refl)
        ])
      ]
