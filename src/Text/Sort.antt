-- ===== src/Text/Sort.antt =====
-- `sort.Strings`, and what sorting the keys of a set of texts gives: each once, in strictly rising
-- order.
use terrakojo.Prelude.{
  String, ◌≡◌, refl, false, ◌||◌, List, [], ◌∷◌, arith, eq_iff, ◌==◌, contains, if◌then◌else◌,
  Bool-cases, inl, inr,
}
use terrakojo.Text.Order.{text_le, Before, Before-of_not_le, Before-of_le}

insert_text : String → List String → List String
insert_text s [] = s ∷ []
insert_text s (t ∷ ts) = if text_le s t then s ∷ t ∷ ts else t ∷ insert_text s ts

-- `sort.Strings`
unfoldable pub sort_strings : List String → List String
unfolding insert_text
sort_strings [] = []
sort_strings (s ∷ ss) = insert_text s (sort_strings ss)

-- the first text, if there is one, comes after `s`
abbrev Heads : String → List String → Type 0
Heads s [] = Unit
Heads s (t ∷ ts) = Before s t

-- each text comes strictly before the next
abbrev pub IsRising : List String → Type 0
IsRising [] = Unit
IsRising (s ∷ ts) = Heads s ts × IsRising ts

-- no text twice
abbrev pub IsDistinct : List String → Type 0
IsDistinct [] = Unit
IsDistinct (s ∷ ts) = (contains s ts ≡ false) × IsDistinct ts

Heads-insert_text :
    (r s : String) (ts : List String) → Before r s → Heads r ts → Heads r (insert_text s ts)
unfolding insert_text
Heads-insert_text r s [] b h = b
Heads-insert_text r s (t ∷ ts) b h = elim (Bool-cases (text_le s t)) [
  | inl le ↦ rw le b
  | inr gt ↦ rw gt h
]

insert_text-IsRising :
    (s : String) (ts : List String)
    → contains s ts ≡ false
    → IsRising ts
    → IsRising (insert_text s ts)
unfolding insert_text
insert_text-IsRising s [] new h = (tt, tt)
insert_text-IsRising s (t ∷ ts) new (heads, h) = elim (Bool-cases (text_le s t)) [
  | inl le ↦ rw le (Before-of_le s t le (λ e. ground (arith, eq_iff t s)), (heads, h))
  | inr gt ↦ rw gt (
    Heads-insert_text t s ts (Before-of_not_le s t gt) heads,
    insert_text-IsRising s ts (ground (arith, eq_iff t s)) h,
  )
]

contains-insert_text :
    (r s : String) (ts : List String) → contains r (insert_text s ts) ≡ ((s == r) || contains r ts)
unfolding insert_text
contains-insert_text r s [] = refl
contains-insert_text r s (t ∷ ts) = ground (arith, contains-insert_text r s ts)

-- Sorting keeps the members.
pub contains-sort_strings :
    (r : String) (ss : List String) → contains r (sort_strings ss) ≡ contains r ss
unfolding sort_strings
contains-sort_strings r [] = refl
contains-sort_strings r (s ∷ ss) =
    rw (contains-insert_text r s (sort_strings ss)) (rw (contains-sort_strings r ss))

pub sort_strings-IsRising : (ss : List String) → IsDistinct ss → IsRising (sort_strings ss)
unfolding sort_strings
sort_strings-IsRising [] h = tt
sort_strings-IsRising (s ∷ ss) (new, h) =
    insert_text-IsRising s (sort_strings ss) (rw (contains-sort_strings s ss) new)
      (sort_strings-IsRising ss h)

insert_text-IsDistinct :
    (s : String) (ts : List String)
    → contains s ts ≡ false
    → IsDistinct ts
    → IsDistinct (insert_text s ts)
unfolding insert_text
insert_text-IsDistinct s [] new h = (refl, tt)
insert_text-IsDistinct s (t ∷ ts) new (fresh, h) = elim (Bool-cases (text_le s t)) [
  | inl le ↦ rw le (new, (fresh, h))
  | inr gt ↦ rw gt (
    rw (contains-insert_text t s ts) (ground (arith, eq_iff s t, eq_iff t s)),
    insert_text-IsDistinct s ts (ground arith) h,
  )
]

pub sort_strings-IsDistinct : (ss : List String) → IsDistinct ss → IsDistinct (sort_strings ss)
unfolding sort_strings
sort_strings-IsDistinct [] h = tt
sort_strings-IsDistinct (s ∷ ss) (new, h) =
    insert_text-IsDistinct s (sort_strings ss) (rw (contains-sort_strings s ss) new)
      (sort_strings-IsDistinct ss h)
