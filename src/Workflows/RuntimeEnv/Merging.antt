-- ===== src/Workflows/RuntimeEnv/Merging.antt =====
-- The values of the variables after the merge (mergeEnvWithReserved).
use terrakojo.Prelude.{
  String, ◌≡◌, refl, ◌∙◌, false, ◌==◌, List, [], ◌∷◌, ◌++◌, if◌then◌else◌, arith, eq_iff,
  Bool-cases, inl, inr,
}
use mathlib.Core.List.{append-nil}
use terrakojo.Api.Batch.{EnvVar}
use terrakojo.Workflows.RuntimeEnv.{has_var, without, merge_env_with_reserved}

-- every value that a list gives to a name, in order
abbrev pub values : String → List EnvVar → List String
values name [] = []
values name (v ∷ vars) =
    let rest = values name vars in if v.name == name then v.value ∷ rest else rest

values-append :
    (name : String) (xs ys : List EnvVar)
    → values name (xs ++ ys) ≡ values name xs ++ values name ys
values-append name [] ys = refl
values-append name (v ∷ xs) ys = ground (arith, values-append name xs ys)

values-without :
    (name : String) (reserved existing : List EnvVar)
    → values name (without reserved existing)
      ≡ (if has_var name reserved then [] else values name existing)
unfolding without
values-without name reserved [] = ground arith
values-without name reserved (v ∷ existing) =
    ground (arith, values-without name reserved existing, eq_iff v.name name)

values_of_absent :
    (name : String) (vars : List EnvVar) → has_var name vars ≡ false → values name vars ≡ []
unfolding has_var
values_of_absent name [] h = refl
values_of_absent name (v ∷ vars) h = ground (arith, values_of_absent name vars)

-- A reserved name has the reserved values in the result, and no other; every other name has the
-- values that it had.
pub merge_exact :
    (existing reserved : List EnvVar) (name : String)
    → values name (merge_env_with_reserved existing reserved)
      ≡ (if has_var name reserved then values name reserved else values name existing)
unfolding merge_env_with_reserved
merge_exact existing reserved name =
    values-append name (without reserved existing) reserved
    ∙ elim (Bool-cases (has_var name reserved)) [
      | inl held ↦ rw (values-without name reserved existing) (rw held)
      | inr free ↦
          rw (values-without name reserved existing, free, values_of_absent name reserved free)
            (append-nil _)
    ]
