-- ===== src/Prelude/Dictionary.antt =====
-- Go maps with text keys, as association lists: a lookup finds the first entry of a key, and a write
-- keeps one entry for each key that it touches.
use Prim.Native.String.{String}
use mathlib.Core.Path.{◌≡◌, refl}
use mathlib.Core.Option.{Option, none, some}
use mathlib.Core.List.{List, [], ◌∷◌}
use native.Mathlib.Omega.{arith}
use text.Mathlib.TextEquality.{eq_iff}
use terrakojo.Prelude.Tests.{◌==◌, if◌then◌else◌}

abbrev pub Dictionary {ℓ} : Type ℓ → Type ℓ
Dictionary V = List (String × V)

module _ {ℓ} {V : Type ℓ} where
  unfoldable pub lookup : String → Dictionary V → Option V
  lookup wanted [] = none
  lookup wanted ((key, value) ∷ entries) =
      if key == wanted then some value else lookup wanted entries

  -- `m[k] = v`
  unfoldable pub insert : String → V → Dictionary V → Dictionary V
  insert new fresh [] = (new, fresh) ∷ []
  insert new fresh ((key, value) ∷ entries) =
      if key == new then (new, fresh) ∷ entries else (key, value) ∷ insert new fresh entries

  -- `delete(m, k)`
  unfoldable pub remove : String → Dictionary V → Dictionary V
  remove gone [] = []
  remove gone ((key, value) ∷ entries) =
      let kept = remove gone entries in if key == gone then kept else (key, value) ∷ kept

  unfoldable pub keys : Dictionary V → List String
  keys [] = []
  keys ((key, value) ∷ entries) = key ∷ keys entries

  pub lookup-insert :
      (new wanted : String) (fresh : V) (entries : Dictionary V)
      → lookup wanted (insert new fresh entries)
        ≡ (if new == wanted then some fresh else lookup wanted entries)
  unfolding lookup insert
  lookup-insert new wanted fresh [] = refl
  lookup-insert new wanted fresh ((key, value) ∷ entries) = ground (
    arith,
    lookup-insert new wanted fresh entries,
    eq_iff new wanted,
    eq_iff key new,
    eq_iff key wanted,
  )

  pub lookup-remove :
      (gone wanted : String) (entries : Dictionary V)
      → lookup wanted (remove gone entries)
        ≡ (if gone == wanted then none else lookup wanted entries)
  unfolding lookup remove
  lookup-remove gone wanted [] = ground arith
  lookup-remove gone wanted ((key, value) ∷ entries) = ground (
    arith,
    lookup-remove gone wanted entries,
    eq_iff gone wanted,
    eq_iff key gone,
    eq_iff key wanted,
  )

abbrev or_empty : Option String → String
or_empty none = ""
or_empty (some v) = v

-- `m[k]` on a map of texts: the empty text where the key is missing
unfoldable pub at : String → Dictionary String → String
unfolding lookup
at k m = or_empty (lookup k m)

pub at-insert :
    (k j v : String) (m : Dictionary String) → at j (insert k v m) ≡ (if k == j then v else at j m)
unfolding at
at-insert k j v m = ground (arith, lookup-insert k j v m)

pub at-remove :
    (k j : String) (m : Dictionary String) → at j (remove k m) ≡ (if k == j then "" else at j m)
unfolding at
at-remove k j m = ground (arith, lookup-remove k j m)
