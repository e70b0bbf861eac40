-- ===== src/Branches/Targets/Sets.antt =====
-- The members of the sets that targets are made of, and the targets of each execution unit.
use terrakojo.Prelude.{
  String, ◌≡◌, refl, ◌∙◌, Bool, true, false, ◌||◌, ◌&&◌, List, [], ◌∷◌, map, contains, any, ◌==◌,
  if◌then◌else◌, arith, eq_iff, All, Bool-cases, inl, inr,
}
use terrakojo.Text.Paths.{dir}
use terrakojo.Text.Sort.{IsRising, IsDistinct, contains-sort_strings, sort_strings-IsRising}
use terrakojo.Branches.Targets.{
  add, collect, unique_sorted_strings, is_folder, collect_folders, split_folder_level,
  normalize_execution_unit, WorkflowTarget, unit_file, unit_repository, target,
}

contains-add :
    (r v : String) (set : List String) → contains r (add v set) ≡ (v == r || contains r set)
contains-add r v set = elim (Bool-cases (contains v set)) [
  | inl old ↦
      rw old (absorbed (v == r) (contains r set) (λ same. old_member ((eq_iff v r).0 same) old))
  | inr new ↦ rw new
]
  where
    old_member : v ≡ r → contains v set ≡ true → contains r set ≡ true
    old_member e h = rw (← e) h

    absorbed : (a b : Bool) → (a ≡ true → b ≡ true) → b ≡ (a || b)
    absorbed true b h = h refl
    absorbed false b h = refl

add-IsDistinct : (v : String) (set : List String) → IsDistinct set → IsDistinct (add v set)
add-IsDistinct v set h = elim (Bool-cases (contains v set)) [
  | inl old ↦ rw old h
  | inr new ↦ rw new (new, h)
]

contains-collect :
    (r : String) (values : List String) → contains r (collect values) ≡ contains r values
unfolding collect
contains-collect r [] = refl
contains-collect r (v ∷ values) =
    rw (contains-add r v (collect values)) (rw (contains-collect r values))

collect-IsDistinct : (values : List String) → IsDistinct (collect values)
unfolding collect
collect-IsDistinct [] = tt
collect-IsDistinct (v ∷ values) = add-IsDistinct v (collect values) (collect-IsDistinct values)

-- The result holds each of the values once, in strictly rising order, and nothing else.
pub unique_sorted_strings_exact :
    (values : List String)
    → IsRising (unique_sorted_strings values)
      × ((r : String) → contains r (unique_sorted_strings values) ≡ contains r values)
unfolding unique_sorted_strings
unique_sorted_strings_exact values = (
  sort_strings-IsRising (collect values) (collect-IsDistinct values),
  λ r. rw (contains-sort_strings r (collect values)) (contains-collect r values),
)

add_if :
    (b : Bool) (v : String) (set : List String)
    → IsDistinct set
    → IsDistinct (if b then add v set else set)
add_if true v set h = add-IsDistinct v set h
add_if false v set h = h

collect_folders-IsDistinct : (files : List String) → IsDistinct (collect_folders files)
unfolding collect_folders
collect_folders-IsDistinct [] = tt
collect_folders-IsDistinct (file ∷ files) =
    add_if (is_folder (dir file)) (dir file) (collect_folders files)
      (collect_folders-IsDistinct files)

-- what a file adds to the folders: its own directory, if that counts as a folder
contains_if :
    (r v : String) (set : List String)
    → contains r (if is_folder v then add v set else set)
      ≡ ((is_folder r && v == r) || contains r set)
contains_if r v set = elim (Bool-cases (v == r)) [
  | inl same ↦ rw (← (eq_iff v r).0 same) (on_same (is_folder v))
  | inr other ↦ rw other (on_other (is_folder v) (is_folder r) other)
]
  where
    on_same :
        (b : Bool) → contains v (if b then add v set else set) ≡ ((b && v == v) || contains v set)
    on_same true = contains-add v v set
    on_same false = refl

    on_other :
        (b c : Bool)
        → (v == r) ≡ false
        → contains r (if b then add v set else set) ≡ ((c && false) || contains r set)
    on_other true true e = contains-add r v set ∙ rw e
    on_other true false e = contains-add r v set ∙ rw e
    on_other false true e = refl
    on_other false false e = refl

-- whether one of the files lies in the folder
abbrev pub has_folder : String → List String → Bool
has_folder r files = is_folder r && any (λ file. dir file == r) files

or_and : (a b c d : Bool) → d ≡ (a && c) → ((a && b) || d) ≡ (a && (b || c))
or_and a b c d h = ground arith

contains-collect_folders :
    (r : String) (files : List String) → contains r (collect_folders files) ≡ has_folder r files
unfolding collect_folders any
contains-collect_folders r [] = none_of (is_folder r)
  where
    none_of : (b : Bool) → false ≡ (b && false)
    none_of true = refl
    none_of false = refl
contains-collect_folders r (file ∷ files) =
    contains_if r (dir file) (collect_folders files)
    ∙ or_and (is_folder r) (dir file == r) (any (λ f. dir f == r) files) _
        (contains-collect_folders r files)

-- The result is strictly rising, and has a folder exactly if it is not the root and a file lies in it.
pub split_folder_level_exact :
    (files : List String)
    → IsRising (split_folder_level files)
      × ((r : String) → contains r (split_folder_level files) ≡ has_folder r files)
unfolding split_folder_level
split_folder_level_exact files = (
  sort_strings-IsRising (collect_folders files) (collect_folders-IsDistinct files),
  λ r. rw (contains-sort_strings r (collect_folders files)) (contains-collect_folders r files),
)

abbrev pub paths : List WorkflowTarget → List String
paths = map (λ t. t.path)

pub paths-map-target : (unit : String) (l : List String) → paths (map (target unit) l) ≡ l
paths-map-target unit [] = refl
paths-map-target unit (p ∷ l) = rw (paths-map-target unit l)

pub units-map-target :
    (unit : String) (l : List String) → All (λ t. t.execution_unit ≡ unit) (map (target unit) l)
units-map-target unit [] = tt
units-map-target unit (p ∷ l) = (refl, units-map-target unit l)

-- which paths a template's matched files call for
abbrev pub wanted : String → List String → String → Bool
wanted unit files r =
    if unit == unit_repository
    then "." == r
    else if unit == unit_file
    then contains r files
    else has_folder r files

-- The paths are strictly rising, a path is among them exactly if the unit calls for it, and every
-- target carries the normalised unit.
pub record IsExact (unit : String) (files : List String) (targets : List WorkflowTarget)
    : Type 0 where
  pub rising : IsRising (paths targets)
  pub members : (r : String) → contains r (paths targets) ≡ wanted unit files r
  pub units : All (λ t. t.execution_unit ≡ normalize_execution_unit unit) targets
