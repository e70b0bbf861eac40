-- ===== src/Programs/Startup.antt =====
-- cmd: a start is a sequence of steps, each of which may fail; a failure ends the program.
use terrakojo.Prelude.{Bool, true, List, ◌∷◌, if◌then◌else◌}

-- from what the libraries answer, by the step and those before it, and the steps done so far, the newest first, to
-- whether a step has failed, and the steps then done
abbrev pub Setup : Type 0 → Type 0
Setup S = (List S → Bool) → List S → Bool × List S

module _ {S : Type 0} where
  unfoldable pub perform : S → Setup S
  perform s fails steps = (fails (s ∷ steps), s ∷ steps)

  -- `if err := m; err != nil { return err }; n`
  infixr 10 ◌>>◌
  unfoldable pub ◌>>◌ : Setup S → Setup S → Setup S
  ◌>>◌ m n fails steps =
      let (failed, later) = m fails steps in if failed then (true, later) else n fails later

-- the types that are added to the scheme of a client
pub data Types : Type 0 where
  kubernetes_types : Types
  custom_types : Types
