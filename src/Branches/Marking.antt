-- ===== src/Branches/Marking.antt =====
-- The ends of a run that creates workflows (internal/controller/branch_controller.go).
use terrakojo.Prelude.{String, ◌≡◌, refl, ◌⊎◌, inl, inr, Bool, false, List, [], ◌∷◌, is_empty, All}
use terrakojo.Prelude.Dictionary.{Dictionary, at, at-insert, keys}
use terrakojo.Api.{Branch, WorkflowTemplate}
use terrakojo.Control.{Next, finished, pure, gets, ask, continue, ◌>>=◌}
use terrakojo.Control.Errors.{Error, Result, ok, err}
use terrakojo.Control.Calls.{Call}
use terrakojo.Control.Environment.{Env}
use terrakojo.Control.Client.{create_workflow, update_branch, update_branch_status}
use terrakojo.Control.Keeps.{Makes, Makes-pure, Makes-gets, Makes-lift, Makes-ask, Makes-bind}
use terrakojo.Text.Sort.{sort_strings}
use terrakojo.Branches.Targets.{MatchedTemplate, WorkflowTarget, match_templates}
use terrakojo.Branches.Plan.{Creates, plan, create_templates-Creates}
use terrakojo.Branches.{
  last_sha, record_created, run_templates, create_groups, as_created, create_workflow_for_branch,
  create_targets, create_templates,
}

-- The object that is written at the end: it carries the mark of its commit, the names of the
-- created workflows and the changed files.
pub record IsMarked (branch : Branch) (names files : List String) (written : Branch) : Type 0 where
  pub mark : at last_sha written.meta.annotations ≡ branch.spec.sha
  pub spec : written.spec ≡ branch.spec
  pub workflows : written.status.workflows ≡ names
  pub changed_files : written.status.changed_files ≡ files

-- How a run that has the object to write ends: the update of the object is refused, or that of the status of the
-- object that came back is, or neither.
abbrev pub Answered : Env → Branch → List Call → Result Next × List Call → Type 0
Answered env written mid (r, later) =
    let asked = Call.update_branch written ∷ mid in
    ((x : Error) × (env.branch asked ≡ err x) × (r ≡ err x) × (later ≡ asked))
    ⊎ ((stored : Branch) × (env.branch asked ≡ ok stored)
        × (later ≡ Call.update_branch_status stored ∷ asked)
        × (((x : Error) × (env.branch later ≡ err x) × (r ≡ err x))
            ⊎ ((last : Branch) × (env.branch later ≡ ok last) × (r ≡ ok finished))))

-- All of the plan's workflows, then the marked object, then the status of the object as it came back.
pub record CreatesThenMarks (env : Env) (is_default : Bool) (branch : Branch) (files : List String)
    (templates : List WorkflowTemplate) (calls : List Call) (run : Result Next × List Call)
    : Type 0 where
  pub names : List String
  pub mid : List Call
  pub written : Branch
  pub created :
      let groups = match_templates env.matches templates files in
      Creates env branch is_default (plan groups (sort_strings (keys groups))) calls mid names
  pub marked : IsMarked branch names files written
  pub answered : Answered env written mid run

-- a call that writes no Branch
abbrev pub IsUnmarked : Call → Type 0
IsUnmarked (Call.update_branch branch) = ⊥
IsUnmarked (Call.update_branch_status branch) = ⊥
IsUnmarked _ = Unit {0}

module _ (branch : Branch) (is_default : Bool) where
  create_workflow_for_branch-IsUnmarked :
      (template : String) (target : WorkflowTarget)
      → Makes IsUnmarked (create_workflow_for_branch branch template is_default target)
  unfolding create_workflow_for_branch create_workflow
  create_workflow_for_branch-IsUnmarked template target =
      Makes-bind _ _ (Makes-gets _) (λ reference.
        Makes-bind _ _ (Makes-lift _)
          (λ meta. Makes-bind _ _ (Makes-ask _ (λ env. env.workflow) tt) (λ created. Makes-pure _)))

  create_targets-IsUnmarked :
      (template : String) (targets : List WorkflowTarget)
      → Makes IsUnmarked (create_targets branch template is_default targets)
  unfolding create_targets
  create_targets-IsUnmarked template [] = Makes-pure _
  create_targets-IsUnmarked template (target ∷ targets) =
      Makes-bind _ _ (create_workflow_for_branch-IsUnmarked template target) (λ name.
        Makes-bind _ _ (create_targets-IsUnmarked template targets) (λ names. Makes-pure _))

  create_templates-IsUnmarked :
      (groups : Dictionary MatchedTemplate) (templates : List String)
      → Makes IsUnmarked (create_templates branch is_default groups templates)
  unfolding create_templates
  create_templates-IsUnmarked groups [] = Makes-pure _
  create_templates-IsUnmarked groups (template ∷ templates) =
      Makes-bind _ _ (create_targets-IsUnmarked template _) (λ names.
        Makes-bind _ _ (create_templates-IsUnmarked groups templates) (λ more. Makes-pure _))

by_status :
    (env : Env) (written stored : Branch) (mid : List Call) (r : Result Branch)
    → let asked = Call.update_branch written ∷ mid in
      let told = Call.update_branch_status stored ∷ asked in
      env.branch asked ≡ ok stored
      → env.branch told ≡ r
      → Answered env written mid (continue r (λ last. pure finished) env told)
unfolding pure
by_status env written stored mid (ok last) answer e =
    inr (stored, answer, refl, inr (last, e, refl))
by_status env written stored mid (err x) answer e = inr (stored, answer, refl, inl (x, e, refl))

by_stored :
    (env : Env) (written : Branch) (mid : List Call) (r : Result Branch)
    → let asked = Call.update_branch written ∷ mid in
      env.branch asked ≡ r
      → Answered env written mid
          (continue r (λ stored. update_branch_status stored >>= λ last. pure finished) env asked)
unfolding update_branch_status ask ◌>>=◌
by_stored env written mid (ok stored) e =
    by_status env written stored mid
      (env.branch (Call.update_branch_status stored ∷ Call.update_branch written ∷ mid)) e refl
by_stored env written mid (err x) e = inl (x, e, refl, refl)

record_created-Answered :
    (env : Env) (branch : Branch) (names files : List String) (mid : List Call)
    → Answered env
        (as_created (env.now mid) branch names files)
        mid
        (record_created branch names files env mid)
unfolding record_created ◌>>=◌ gets update_branch ask
record_created-Answered env branch names files mid =
    let written = as_created (env.now mid) branch names files in
    by_stored env written mid (env.branch (Call.update_branch written ∷ mid)) refl

-- The run ends with an error and has written no Branch, or the object was written after all of the plan's workflows.
abbrev pub Ends :
    Env
    → Bool
    → Branch
    → List String
    → List WorkflowTemplate
    → List Call
    → Result Next × List Call
    → Type 0
Ends env is_default branch files templates calls run =
    ((x : Error) × (run.0 ≡ err x) × All IsUnmarked run.1)
    ⊎ CreatesThenMarks env is_default branch files templates calls run

module _ (env : Env) (is_default : Bool) (branch : Branch) (files : List String)
    (templates : List WorkflowTemplate) (calls : List Call) where
  after_creation :
      (r : Result (List String)) (mid : List Call)
      → let groups = match_templates env.matches templates files in
        create_templates branch is_default groups (sort_strings (keys groups)) env calls ≡ (r, mid)
        → All IsUnmarked mid
        → Ends env is_default branch files templates calls
            (continue r (λ names. record_created branch names files) env mid)
  after_creation (err x) mid e unmarked = inl (x, refl, unmarked)
  after_creation (ok names) mid e unmarked = inr (record {
    names = names;
    mid = mid;
    written = as_created (env.now mid) branch names files;
    created = create_templates-Creates env branch is_default _ _ calls mid names e;
    marked = record {
      mark = at-insert last_sha last_sha branch.spec.sha branch.meta.annotations;
      spec = refl;
      workflows = refl;
      changed_files = refl;
    };
    answered = record_created-Answered env branch names files mid;
  })

  create_groups-Ends :
      All IsUnmarked calls
      → Ends env is_default branch files templates calls (
          create_groups is_default branch files
            (match_templates env.matches templates files)
            env
            calls)
  unfolding create_groups ◌>>=◌
  create_groups-Ends unmarked =
      let groups = match_templates env.matches templates files in
      let creating = create_templates branch is_default groups (sort_strings (keys groups)) in
      after_creation (creating env calls).0 (creating env calls).1 refl (
        (create_templates-IsUnmarked branch is_default groups (sort_strings (keys groups))).at env
          calls unmarked)

-- Where a template matches, and no Branch was written before: a run either ends with an error before it has written
-- a Branch, which leaves the commit unmarked; or it has created the Workflows of the plan, all of them and in its order,
-- and then written the Branch with the mark of its commit, the created names and the changed files, and, where that
-- was accepted, the status of the object as it came back, and nothing else. It returns exactly where both
-- were accepted.
pub created_then_marked :
    (env : Env) (is_default : Bool) (branch : Branch) (files : List String)
    (templates : List WorkflowTemplate) (calls : List Call)
    → is_empty (match_templates env.matches templates files) ≡ false
    → All IsUnmarked calls
    → Ends env is_default branch files templates calls
        (run_templates is_default branch files templates env calls)
unfolding run_templates gets ◌>>=◌
created_then_marked env is_default branch files templates calls matched unmarked =
    rw matched (create_groups-Ends env is_default branch files templates calls unmarked)
