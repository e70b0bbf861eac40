-- ===== src/Branches/Targets/Exact.antt =====
-- The targets of every execution unit, and what a template matches.
use terrakojo.Prelude.{String, ◌≡◌, refl, Bool, true, false, ◌||◌, List, ◌==◌, Bool-cases, inl, inr}
use terrakojo.Branches.Targets.{
  workflow_targets, unit_file, unit_folder, unit_repository, unique_sorted_strings,
  split_folder_level,
}
use terrakojo.Branches.Targets.Sets.{
  IsExact, paths-map-target, units-map-target, unique_sorted_strings_exact,
  split_folder_level_exact,
}

-- A unit that is none of the three known ones is treated as "folder". The targets are those that
-- the unit calls for: the root for "repository", each matched file once for "file", each folder below the root that holds a matched file once for "folder"; in strictly rising order of their paths,
-- each with the normalised unit.
pub workflow_targets-IsExact :
    (unit : String) (files : List String) → IsExact unit files (workflow_targets unit files)
unfolding workflow_targets
workflow_targets-IsExact unit files = elim (Bool-cases (unit == unit_repository)) [
  | inl whole ↦ record {
    rising = rw whole (tt, tt);
    members = λ r. rw whole (or_false ("." == r));
    units = rw whole (refl, tt);
  }
  | inr other ↦ elim (Bool-cases (unit == unit_file)) [
    | inl each ↦
        let (rising, members) = unique_sorted_strings_exact files in
        let same = paths-map-target unit_file (unique_sorted_strings files) in
        record {
          rising = rw other (rw each (rw same rising));
          members = λ r. rw other (rw each (rw same (members r)));
          units = rw other (rw each (units-map-target unit_file (unique_sorted_strings files)));
        }
    | inr folder ↦
        let (rising, members) = split_folder_level_exact files in
        let same = paths-map-target unit_folder (split_folder_level files) in
        record {
          rising = rw other (rw folder (rw same rising));
          members = λ r. rw other (rw folder (rw same (members r)));
          units = rw other (rw folder (units-map-target unit_folder (split_folder_level files)));
        }
  ]
]
  where
    or_false : (b : Bool) → (b || false) ≡ b
    or_false true = refl
    or_false false = refl
