-- ===== src/Branches/Plan.antt =====
-- Which workflows are created, and in which order.
use terrakojo.Prelude.{String, ◌≡◌, sym, ap, subst, ◌∙◌, Bool, List, [], ◌∷◌, ◌++◌, map}
use mathlib.Core.Path.{subst₂}
use terrakojo.Prelude.Dictionary.{Dictionary, lookup}
use terrakojo.Api.{ObjectMeta, Branch, Workflow}
use terrakojo.Control.Errors.{ok}
use terrakojo.Control.Calls.{Call}
use terrakojo.Control.Environment.{Env}
use terrakojo.Control.Client.{create_workflow}
use terrakojo.Control.Runs.{Returns, bind-Returns, pure-Returns, gets-Returns, lift-Returns}
use terrakojo.Branches.Targets.{MatchedTemplate, WorkflowTarget}
use terrakojo.Branches.{
  workflow_for, create_workflow_for_branch, create_targets, create_templates, targets_of,
}

-- a template's name and one of its targets
abbrev pub Step : Type 0
Step = String × WorkflowTarget

abbrev pub steps_of : String → List WorkflowTarget → List Step
steps_of template = map (λ target. (template, target))

-- every template's targets, template by template
abbrev pub plan : Dictionary MatchedTemplate → List String → List Step
plan groups [] = []
plan groups (template ∷ templates) =
    steps_of template (targets_of (lookup template groups)) ++ plan groups templates

-- the creation of a step's Workflow, with the metadata that names its controller
abbrev pub create_call : Branch → Bool → String → WorkflowTarget → ObjectMeta → Call
create_call branch is_default template target meta = Call.create_workflow (
    let workflow = workflow_for branch template is_default target in
    record workflow { meta = meta })

module _ (env : Env) (branch : Branch) (is_default : Bool) where
  -- The calls from `calls` to `later` create, in order, the Workflow of each step, with the
  -- branch as its controller; the answers carry the names `names`.
  abbrev pub Creates : List Step → List Call → List Call → List String → Type 0
  Creates [] calls later names = (calls ≡ later) × (names ≡ [])
  Creates ((template, target) ∷ steps) calls later names =
      (meta : ObjectMeta) × (created : Workflow) × (rest : List String)
      × (env.set_controller_reference "Branch" branch.meta
            (workflow_for branch template is_default target).meta
          ≡ ok meta)
      × (env.workflow (create_call branch is_default template target meta ∷ calls) ≡ ok created)
      × (names ≡ created.meta.name ∷ rest)
      × Creates steps (create_call branch is_default template target meta ∷ calls) later rest

  create_workflow-Returns :
      (workflow : Workflow) (calls : List Call) {later : List Call} {created : Workflow}
      → Returns (create_workflow workflow) env calls created later
      → (env.workflow (Call.create_workflow workflow ∷ calls) ≡ ok created)
        × (Call.create_workflow workflow ∷ calls ≡ later)
  unfolding create_workflow
  create_workflow-Returns workflow calls e = (cc, cc)

  create_workflow_for_branch-Creates :
      (template : String) (target : WorkflowTarget) (steps : List Step)
      (calls mid later : List Call) (name : String) (names : List String)
      → Returns (create_workflow_for_branch branch template is_default target) env calls name mid
      → Creates steps mid later names
      → Creates ((template, target) ∷ steps) calls later (name ∷ names)
  unfolding create_workflow_for_branch
  create_workflow_for_branch-Creates template target steps calls mid later name names e h =
      bind-Returns env _ _ e λ reference m₁ e₁ r₁. bind-Returns env _ _ r₁ λ meta m₂ e₂ r₂.
        bind-Returns env _ _ r₂ λ created m₃ e₃ r₃.
          let (reference_is, c₁) = gets-Returns env _ e₁ in
          let (meta_is, c₂) = lift-Returns env _ e₂ in
          let (answer, c₃) = create_workflow-Returns _ m₂ e₃ in
          let (named, c₄) = pure-Returns env _ r₃ in
          let same = c₁ ∙ c₂ in
          (
            meta,
            created,
            names,
            reference_is ∙ meta_is,
            subst
                (λ c.
                  env.workflow (create_call branch is_default template target meta ∷ c)
                  ≡ ok created)
                (sym same) answer,
            ap (λ n. n ∷ names) (sym named),
            subst (λ c. Creates steps c later names)
                (sym
                  (ap (λ c. create_call branch is_default template target meta ∷ c) same ∙ c₃ ∙ c₄))
                h,
          )

  create_targets-Creates :
      (template : String) (targets : List WorkflowTarget) (steps : List Step)
      (calls mid later : List Call) (names more : List String)
      → Returns (create_targets branch template is_default targets) env calls names mid
      → Creates steps mid later more
      → Creates (steps_of template targets ++ steps) calls later (names ++ more)
  unfolding create_targets
  create_targets-Creates template [] steps calls mid later names more e h =
      let (none', same) = pure-Returns env _ e in
      subst₂ (λ c n. Creates steps c later (n ++ more)) (sym same) none' h
  create_targets-Creates template (target ∷ targets) steps calls mid later names more e h =
      bind-Returns env _ _ e λ name m₁ e₁ r₁. bind-Returns env _ _ r₁ λ rest m₂ e₂ r₂.
        let (named, same) = pure-Returns env _ r₂ in
        subst (λ n. Creates (steps_of template (target ∷ targets) ++ steps) calls later (n ++ more))
          named
          (create_workflow_for_branch-Creates template target (steps_of template targets ++ steps)
            calls m₁ later name (rest ++ more) e₁
            (create_targets-Creates template targets steps m₁ m₂ later rest more e₂
              (subst (λ c. Creates steps c later more) (sym same) h)))

  -- A run that returns has created the Workflow of each step of the plan, in the plan's order, and
  -- made no other call; it returns the names of the created objects.
  pub create_templates-Creates :
      (groups : Dictionary MatchedTemplate) (templates : List String) (calls later : List Call)
      (names : List String)
      → Returns (create_templates branch is_default groups templates) env calls names later
      → Creates (plan groups templates) calls later names
  unfolding create_templates
  create_templates-Creates groups [] calls later names e =
      let (none', same) = pure-Returns env _ e in (same, sym none')
  create_templates-Creates groups (template ∷ templates) calls later names e =
      bind-Returns env _ _ e λ first m₁ e₁ r₁. bind-Returns env _ _ r₁ λ more m₂ e₂ r₂.
        let (named, same) = pure-Returns env _ r₂ in
        subst₂ (λ c n. Creates (plan groups (template ∷ templates)) calls c n) same named
          (create_targets-Creates template (targets_of (lookup template groups))
            (plan groups templates) calls m₁ m₂ first more e₁
            (create_templates-Creates groups templates m₁ m₂ more e₂))
