-- ===== src/Text/Fold.antt =====
-- `strings.EqualFold`, for texts of ASCII characters: letters are compared without regard to case. GitHub
-- allows no other characters in the names of owners and repositories.
use Prim.Native.Nat.{ℕ, ◌+◌}
use Prim.Native.Char.{code}
use Prim.Native.String.{[], ◌∷◌}
use terrakojo.Prelude.{String, ◌≡◌, refl, Bool, true, false, ◌&&◌, leb, nat_eq, if◌then◌else◌}

abbrev lower : ℕ → ℕ
lower c = if leb b'A' c && leb c b'Z' then c + 32 else c

unfoldable pub equal_fold : String → String → Bool
equal_fold [] [] = true
equal_fold (c ∷ s) (d ∷ t) = nat_eq (lower (code c)) (lower (code d)) && equal_fold s t
equal_fold _ _ = false

equal_fold_example : equal_fold "Eeekcct/Terrakojo" "eeekcct/terrakojo" ≡ true
unfolding equal_fold
equal_fold_example = refl
