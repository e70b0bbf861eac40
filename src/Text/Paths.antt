-- ===== src/Text/Paths.antt =====
-- `path.Dir` of Go's path package, by the parts between the slashes.
use Prim.Native.Char.{Char, code}
use Prim.Native.String
use Prim.Native.String.{[], ◌∷◌}
use mathlib.Core.List.{reverse}
use terrakojo.Prelude.{
  ◌≡◌, refl, Bool, false, ◌||◌, ◌&&◌, not, ◌==◌, nat_eq, if◌then◌else◌, String, List, [], ◌∷◌,
  is_empty,
}

-- the character in front of the first part
abbrev extend : Char → List String → List String
extend c [] = []
extend c (part ∷ parts) = (c ∷ part) ∷ parts

-- the parts between the slashes, one more than there are slashes
split_slash : String → List String
split_slash [] = "" ∷ []
split_slash (c ∷ path) =
    let parts = split_slash path in if nat_eq (code c) b'/' then "" ∷ parts else extend c parts

-- all parts but the last, those of `path.Split`'s directory
drop_last : List String → List String
drop_last [] = []
drop_last (part ∷ []) = []
drop_last (part ∷ next ∷ rest) = part ∷ drop_last (next ∷ rest)

abbrev is_rooted : List String → Bool
is_rooted [] = false
is_rooted (part ∷ rest) = part == ""

-- one part of `path.Clean`; the last part kept is at the head of the stack
clean_part : Bool → List String → String → List String
clean_part rooted [] part =
    if part == "" || part == "." || (part == ".." && rooted) then [] else part ∷ []
clean_part rooted (top ∷ stack) part =
    if part == "" || part == "."
    then top ∷ stack
    else if part == ".." && not (top == "..")
    then stack
    else part ∷ top ∷ stack

clean_from : Bool → List String → List String → List String
clean_from rooted stack [] = reverse stack
clean_from rooted stack (part ∷ rest) = clean_from rooted (clean_part rooted stack part) rest

join_slash : List String → String
join_slash [] = ""
join_slash (part ∷ []) = part
join_slash (part ∷ next ∷ rest) = String.◌++◌ part (String.◌++◌ "/" (join_slash (next ∷ rest)))

-- `path.Clean` of the parts; a rooted path begins with an empty part
clean : List String → String
unfolding clean_part clean_from join_slash
clean parts =
    let kept = clean_from (is_rooted parts) [] parts in
    if is_rooted parts
    then String.◌++◌ "/" (join_slash kept)
    else if is_empty kept
    then "."
    else join_slash kept

-- `path.Dir`
unfoldable pub dir : String → String
unfolding split_slash drop_last clean
dir path = clean (drop_last (split_slash path))

dir_nested : dir "modules/vpc/main.tf" ≡ "modules/vpc"
unfolding dir
dir_nested = refl

dir_top : dir "README.md" ≡ "."
unfolding dir
dir_top = refl

dir_parent : dir "a/../b/./c//x.tf" ≡ "b/c"
unfolding dir
dir_parent = refl

dir_rooted : dir "/x.tf" ≡ "/"
unfolding dir
dir_rooted = refl
