-- ===== src/Branches/Targets.antt =====
-- Which workflows a branch gets: the files that a template matches, and the targets that the
-- execution unit makes of them (internal/controller/branch_controller.go).
pub mod Sets
pub mod Exact
pub mod Matching
use terrakojo.Prelude.{
  String, Bool, true, false, ◌||◌, ◌&&◌, not, List, [], ◌∷◌, map, any, keep, contains, is_empty,
  ◌==◌, if◌then◌else◌,
}
use terrakojo.Prelude.Dictionary.{Dictionary, insert}
use terrakojo.Api.{WorkflowMatch, WorkflowTemplate}
use terrakojo.Text.Paths.{dir}
use terrakojo.Text.Sort.{sort_strings}

-- `WorkflowExecutionUnit`, a text that may be any other
abbrev pub unit_folder : String
unit_folder = "folder"

abbrev pub unit_repository : String
unit_repository = "repository"

abbrev pub unit_file : String
unit_file = "file"

pub record MatchedTemplate : Type 0 where
  pub match : WorkflowMatch
  pub files : List String

pub record WorkflowTarget : Type 0 where
  pub path : String
  pub execution_unit : String

-- `set[v] = struct{}{}`, the set by its members
abbrev pub add : String → List String → List String
add v set = if contains v set then set else v ∷ set

collect : List String → List String
collect [] = []
collect (v ∷ values) = add v (collect values)

unfoldable pub unique_sorted_strings : List String → List String
unfolding collect sort_strings
unique_sorted_strings values = sort_strings (collect values)

-- a folder counts if it is not the repository's root
abbrev pub is_folder : String → Bool
is_folder folder = not (folder == ".") && not (folder == "")

collect_folders : List String → List String
unfolding dir
collect_folders [] = []
collect_folders (file ∷ files) =
    let set = collect_folders files in if is_folder (dir file) then add (dir file) set else set

unfoldable pub split_folder_level : List String → List String
unfolding collect_folders sort_strings
split_folder_level files = sort_strings (collect_folders files)

unfoldable pub normalize_execution_unit : String → String
normalize_execution_unit unit =
    if unit == unit_repository
    then unit_repository
    else if unit == unit_file
    then unit_file
    else unit_folder

abbrev pub target : String → String → WorkflowTarget
target unit path = record { path = path; execution_unit = unit }

unfoldable pub workflow_targets : String → List String → List WorkflowTarget
unfolding normalize_execution_unit unique_sorted_strings split_folder_level
workflow_targets unit files =
    let normalized = normalize_execution_unit unit in
    if normalized == unit_repository
    then target normalized "." ∷ []
    else if normalized == unit_file
    then map (target normalized) (unique_sorted_strings files)
    else map (target normalized) (split_folder_level files)

module _ (matches : String → String → Bool) where
  -- a file is kept at the first pattern that matches it
  unfoldable pub match_template : WorkflowMatch → List String → List String
  unfolding keep any
  match_template match files =
      keep (λ file. any (λ pattern. matches pattern file) match.paths) files

  abbrev add_group :
      WorkflowTemplate → List String → Dictionary MatchedTemplate → Dictionary MatchedTemplate
  add_group t files groups =
      if is_empty files
      then groups
      else insert t.meta.name (record { match = t.spec.match; files = files }) groups

  -- the loop of `matchTemplates`; a later template of the same name replaces an earlier one
  match_templates_from :
      Dictionary MatchedTemplate → List WorkflowTemplate → List String → Dictionary MatchedTemplate
  match_templates_from groups [] files = groups
  match_templates_from groups (t ∷ templates) files =
      match_templates_from (add_group t (match_template t.spec.match files) groups) templates files

  unfoldable pub match_templates : List WorkflowTemplate → List String → Dictionary MatchedTemplate
  unfolding match_template match_templates_from insert
  match_templates templates files = match_templates_from [] templates files
