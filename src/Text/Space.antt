-- ===== src/Text/Space.antt =====
-- `strings.TrimSpace` for ASCII texts, `strings.HasSuffix(s, "/")` and `strings.TrimPrefix`.
use Prim.Native.Char.{Char, code}
use Prim.Native.String.{[], ◌∷◌}
use terrakojo.Prelude.{
  String, Bool, false, ◌≡◌, refl, ◌&&◌, ◌||◌, Option, none, some, leb, nat_eq, ◌==◌, if◌then◌else◌,
}

-- '\t', '\n', '\v', '\f', '\r' and ' '
abbrev is_space : Char → Bool
is_space c = (leb 9 (code c) && leb (code c) 13) || nat_eq (code c) 32

trim_left : String → String
trim_left [] = []
trim_left (c ∷ s) = let rest = trim_left s in if is_space c then rest else c ∷ s

trim_right : String → String
trim_right [] = []
trim_right (c ∷ s) = let rest = trim_right s in if is_space c && rest == "" then "" else c ∷ rest

unfoldable pub trim_space : String → String
unfolding trim_left trim_right
trim_space s = trim_right (trim_left s)

trim_space_example : trim_space " https://ghe.example/api \n" ≡ "https://ghe.example/api"
unfolding trim_space
trim_space_example = refl

unfoldable pub ends_with_slash : String → Bool
ends_with_slash [] = false
ends_with_slash (c ∷ []) = nat_eq (code c) b'/'
ends_with_slash (c ∷ d ∷ s) = ends_with_slash (d ∷ s)

-- what follows the prefix, if the text has it
unfoldable pub after_prefix : String → String → Option String
after_prefix [] s = some s
after_prefix (p ∷ ps) [] = none
after_prefix (p ∷ ps) (c ∷ s) =
    let rest = after_prefix ps s in if nat_eq (code p) (code c) then rest else none

abbrev or_whole : String → Option String → String
or_whole s none = s
or_whole s (some rest) = rest

-- `strings.TrimPrefix(s, prefix)`
unfoldable pub trim_prefix : String → String → String
unfolding after_prefix
trim_prefix s prefix = or_whole s (after_prefix prefix s)

trim_prefix_example : trim_prefix "refs/heads/main" "refs/heads/" ≡ "main"
unfolding trim_prefix
trim_prefix_example = refl
