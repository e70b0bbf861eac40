-- ===== src/Tests/Programs.antt =====
-- Examples on the start of the manager.
use terrakojo.Prelude.{◌≡◌, Bool, true, false, List, ◌∷◌}
use terrakojo.Prelude.Histories.{Always, Sometime}
use terrakojo.Programs.Manager.{default_flags, Step, main}
use terrakojo.Programs.Manager.Order.{IsReady, Starts, main-InOrder}

-- the check of readiness cannot be added
abbrev unready : List Step → Bool
unready (Step.add_readyz_check name ∷ steps) = true
unready _ = false

main-InOrder_example :
    Always (IsReady default_flags) (main default_flags unready).1
    × Sometime Starts (main default_flags (λ steps. false)).1
    × ((main default_flags (λ steps. false)).0 ≡ 0)
main-InOrder_example = main-InOrder default_flags unready
