-- ===== src/Programs/Manager/Order.antt =====
-- cmd/main.go: what has to be set up before the manager starts.
use terrakojo.Prelude.{
  ◌≡◌, refl, inl, inr, Bool, true, false, Bool-cases, List, [], ◌∷◌, if◌then◌else◌,
}
use terrakojo.Prelude.Histories.{Always, Sometime}
use terrakojo.Owners.{index_by_owner_branch_uid, index_by_owner_repository_uid}
use terrakojo.Programs.Startup.{Setup, perform, ◌>>◌, Types, kubernetes_types, custom_types}
use terrakojo.Programs.Manager.{
  Flags, TlsConfig, ManagerOptions, Kind, Step, add_types, get_config, new_manager, index_branches,
  index_workflows, complete_controller, add_healthz_check, add_readyz_check, start_manager,
  owner_uid_field, manager_options, tls_options, setup_repository_reconciler,
  setup_branch_reconciler, setup_workflow_reconciler, init_scheme, run_manager, main,
}

-- the library passes a configuration through the options, in their order
abbrev pub configured : List (TlsConfig → TlsConfig) → TlsConfig → TlsConfig
configured [] c = c
configured (f ∷ fs) c = configured fs (f c)

-- The servers of the manager speak HTTP/1.1 alone, unless HTTP/2 is enabled, and then what the library chose;
-- and the metrics are behind the filter where they are served securely.
abbrev pub AreGuarded : Flags → ManagerOptions → Type 0
AreGuarded flags o =
    ((c : TlsConfig)
      → ((configured o.webhook.tls_opts c).next_protos
          ≡ (if flags.enable_http2 then c.next_protos else "http/1.1" ∷ []))
        × ((configured o.metrics.tls_opts c).next_protos
            ≡ (if flags.enable_http2 then c.next_protos else "http/1.1" ∷ [])))
    × (o.metrics.authorized ≡ o.metrics.secure_serving)
    × (o.metrics.secure_serving ≡ flags.secure_metrics)

abbrev pub MakesManager : Flags → Step → List Step → Type 0
MakesManager flags (new_manager o) earlier = AreGuarded flags o
MakesManager flags _ earlier = ⊥

-- both indexes by which the reconcilers list what they own
abbrev pub IndexesBranches : Step → List Step → Type 0
IndexesBranches (index_branches field keys) earlier =
    (field ≡ owner_uid_field) × (keys ≡ index_by_owner_repository_uid)
IndexesBranches _ earlier = ⊥

abbrev pub IndexesWorkflows : Step → List Step → Type 0
IndexesWorkflows (index_workflows field keys) earlier =
    (field ≡ owner_uid_field) × (keys ≡ index_by_owner_branch_uid)
IndexesWorkflows _ earlier = ⊥

abbrev pub Adds : Types → Step → List Step → Type 0
Adds types (add_types added) earlier = added ≡ types
Adds types _ earlier = ⊥

abbrev pub Controls : Kind → Step → List Step → Type 0
Controls kind (complete_controller for owned name) earlier = for ≡ kind
Controls kind _ earlier = ⊥

abbrev pub Starts : Step → List Step → Type 0
Starts start_manager earlier = Unit {0}
Starts _ earlier = ⊥

-- What has been done before a step: the types are added before the manager is made, which is made before the controllers, an index before the
-- controller that lists by it, and everything before the start.
abbrev pub IsReady : Flags → Step → List Step → Type 0
IsReady flags (complete_controller Kind.repository owned name) earlier =
    Sometime (MakesManager flags) earlier × Sometime IndexesBranches earlier
IsReady flags (complete_controller Kind.branch owned name) earlier =
    Sometime (MakesManager flags) earlier × Sometime IndexesWorkflows earlier
IsReady flags (complete_controller kind owned name) earlier = Sometime (MakesManager flags) earlier
IsReady flags (new_manager o) earlier =
    Sometime (Adds kubernetes_types) earlier × Sometime (Adds custom_types) earlier
IsReady flags start_manager earlier =
    Sometime (MakesManager flags) earlier
    × Sometime IndexesBranches earlier
    × Sometime IndexesWorkflows earlier
    × Sometime (Controls Kind.repository) earlier
    × Sometime (Controls Kind.branch) earlier
    × Sometime (Controls Kind.workflow) earlier
IsReady flags _ earlier = Unit {0}

manager_options-AreGuarded : (flags : Flags) → AreGuarded flags (manager_options flags)
manager_options-AreGuarded flags =
    (λ c. (protocols c, protocols c), authorized flags.secure_metrics, refl)
  where
    authorized : (secure : Bool) → (if secure then true else false) ≡ secure
    authorized true = refl
    authorized false = refl

    protocols :
        (c : TlsConfig)
        → (configured (tls_options flags) c).next_protos
          ≡ (if flags.enable_http2 then c.next_protos else "http/1.1" ∷ [])
    protocols c = elim (Bool-cases flags.enable_http2) [
      | inl enabled ↦ rw enabled refl
      | inr disabled ↦ rw disabled refl
    ]

module _ (flags : Flags) (fails : List Step → Bool) where
  abbrev InOrder : List Step → Type 0
  InOrder = Always (IsReady flags)

  -- a step, and what comes after it where it does not fail
  perform-InOrder :
      (s : Step) (rest : Setup Step) (steps : List Step)
      → IsReady flags s steps
      → InOrder steps
      → InOrder (rest fails (s ∷ steps)).1
      → InOrder ((perform s >> rest) fails steps).1
  unfolding perform ◌>>◌
  perform-InOrder s rest steps ready h later = elim (Bool-cases (fails (s ∷ steps))) [
    | inl failed ↦ rw failed (ready, h)
    | inr done ↦ rw done later
  ]

  -- two steps, and what comes after them where neither fails
  both-InOrder :
      (s t : Step) (rest : Setup Step) (steps : List Step)
      → IsReady flags s steps
      → IsReady flags t (s ∷ steps)
      → InOrder steps
      → InOrder (rest fails (t ∷ s ∷ steps)).1
      → InOrder (((perform s >> perform t) >> rest) fails steps).1
  unfolding perform ◌>>◌
  both-InOrder s t rest steps s_ready t_ready h later = elim (Bool-cases (fails (s ∷ steps))) [
    | inl failed ↦ rw failed (s_ready, h)
    | inr done ↦ rw done (elim (Bool-cases (fails (t ∷ s ∷ steps))) [
      | inl failed ↦ rw failed (t_ready, (s_ready, h))
      | inr both ↦ rw both later
    ])
  ]

  run_manager-InOrder :
      (steps : List Step)
      → Sometime (Adds kubernetes_types) steps × Sometime (Adds custom_types) steps
      → InOrder steps
      → InOrder (run_manager flags fails steps).1
  unfolding run_manager setup_repository_reconciler setup_branch_reconciler
      setup_workflow_reconciler perform
  run_manager-InOrder steps types h =
      let made = manager_options-AreGuarded flags in
      let manager = new_manager (manager_options flags) in
      let by_repository = index_branches owner_uid_field index_by_owner_repository_uid in
      let repositories = complete_controller Kind.repository [] "repository" in
      let by_branch = index_workflows owner_uid_field index_by_owner_branch_uid in
      let branches = complete_controller Kind.branch (Kind.workflow ∷ []) "branch" in
      let workflows = complete_controller Kind.workflow (Kind.job ∷ []) "workflow" in
      let healthz = add_healthz_check "healthz" in
      let readyz = add_readyz_check "readyz" in
      let h₂ : InOrder (manager ∷ get_config ∷ steps) = ((inr types.0, inr types.1), (tt, h)) in
      let h₄ : InOrder (repositories ∷ by_repository ∷ manager ∷ get_config ∷ steps) =
        ((inr (inl made), inl (refl, refl)), (tt, h₂)) in
      let h₆ : InOrder
          (branches ∷ by_branch ∷ repositories ∷ by_repository ∷ manager ∷ get_config ∷ steps) =
        ((inr (inr (inr (inl made))), inl (refl, refl)), (tt, h₄)) in
      let h₇ : InOrder (
          workflows ∷ branches ∷ by_branch ∷ repositories ∷ by_repository ∷ manager ∷ get_config
          ∷ steps) =
        (inr (inr (inr (inr (inl made)))), h₆) in
      perform-InOrder get_config _ steps tt h (
        perform-InOrder manager _ (get_config ∷ steps) h₂.0 (tt, h)
          (both-InOrder by_repository repositories _ _ tt h₄.0 h₂ (
            both-InOrder by_branch branches _ _ tt h₆.0 h₄ (
              perform-InOrder workflows _ _ h₇.0 h₆ (
                perform-InOrder healthz _ _ tt h₇ (
                  perform-InOrder readyz _ _ tt (tt, h₇)
                    (
                      (
                        inr (inr (inr (inr (inr (inr (inr (inl made))))))),
                        inr (inr (inr (inr (inr (inr (inl (refl, refl))))))),
                        inr (inr (inr (inr (inl (refl, refl))))),
                        inr (inr (inr (inr (inr (inl refl))))),
                        inr (inr (inr (inl refl))),
                        inr (inr (inl refl)),
                      ),
                      (tt, (tt, h₇)),
                    )))))))

  -- Whatever fails, the manager is made after both sets of types were added, so that its servers speak HTTP/1.1 alone, unless HTTP/2 is enabled, and with
  -- the filter exactly where metrics are served securely, before any controller is completed; a
  -- controller that lists by an index is completed after the index was added; and the manager starts after
  -- all of that was done for the three controllers, which it does, with exit status 0, where nothing fails.
  pub main-InOrder :
      InOrder (main flags fails).1
      × Sometime Starts (main flags (λ steps. false)).1
      × ((main flags (λ steps. false)).0 ≡ 0)
  unfolding main init_scheme run_manager setup_repository_reconciler setup_branch_reconciler
      setup_workflow_reconciler perform ◌>>◌
  main-InOrder = (ordered, inl tt, refl)
    where
      ordered : InOrder (main flags fails).1
      ordered =
          let added = add_types custom_types ∷ add_types kubernetes_types ∷ [] in
          elim (Bool-cases (fails (add_types kubernetes_types ∷ []))) [
            | inl failed ↦ rw failed (tt, tt)
            | inr first ↦ rw first (elim (Bool-cases (fails added)) [
              | inl failed ↦ rw failed (tt, (tt, tt))
              | inr both ↦
                  rw both (run_manager-InOrder added (inr (inl refl), inl refl) (tt, (tt, tt)))
            ])
          ]
