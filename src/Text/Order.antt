-- ===== src/Text/Order.antt =====
-- The order of texts.
use Prim.Native.Nat.{Ordering, compare as compare_ℕ, ℕ, zero, suc}
use Prim.Native.Nat.compare as compare_ℕ
use Prim.Native.Char.{code}
use Prim.Native.String.compare
use Prim.Native.String.{[], ◌∷◌, compare, then}
use text.Mathlib.TextEquality.{path_by_compare}
use terrakojo.Prelude.{String, ◌≡◌, ◌≢◌, refl, sym, ap, ◌∙◌, Bool, true, false}

-- `s <= t`
abbrev pub text_le : String → String → Bool
text_le s t = elim (compare s t) [ Ordering.gt ↦ false | _ ↦ true ]

abbrev pub Before : String → String → Type 0
Before s t = compare s t ≡ Ordering.lt

abbrev flip : Ordering → Ordering
flip Ordering.lt = Ordering.gt
flip Ordering.eq = Ordering.eq
flip Ordering.gt = Ordering.lt

flip-then : (o r : Ordering) → flip (then o r) ≡ then (flip o) (flip r)
flip-then Ordering.lt r = refl
flip-then Ordering.eq r = refl
flip-then Ordering.gt r = refl

flip-compare_ℕ : (m n : ℕ) → flip (compare_ℕ m n) ≡ compare_ℕ n m
flip-compare_ℕ zero zero = refl
flip-compare_ℕ zero (suc n) = ap flip (compare_ℕ.zero-suc n) ∙ sym (compare_ℕ.suc-zero n)
flip-compare_ℕ (suc m) zero = ap flip (compare_ℕ.suc-zero m) ∙ sym (compare_ℕ.zero-suc m)
flip-compare_ℕ (suc m) (suc n) =
    ap flip (compare_ℕ.suc-suc m n) ∙ flip-compare_ℕ m n ∙ sym (compare_ℕ.suc-suc n m)

flip-compare : (s t : String) → flip (compare s t) ≡ compare t s
flip-compare [] [] = refl
flip-compare [] (d ∷ t) = ap flip (compare.nil-cons d t) ∙ sym (compare.cons-nil d t)
flip-compare (c ∷ s) [] = ap flip (compare.cons-nil c s) ∙ sym (compare.nil-cons c s)
flip-compare (c ∷ s) (d ∷ t) =
    rw (compare.cons-cons c d s t, compare.cons-cons d c t s)
      (flip-then (compare_ℕ (code c) (code d)) (compare s t)
        ∙ cc (flip-compare_ℕ (code c) (code d), flip-compare s t))

ordering_flipped : (o r : Ordering) → flip o ≡ r → o ≡ Ordering.gt → r ≡ Ordering.lt
ordering_flipped o r e h = sym e ∙ ap flip h

pub Before-of_not_le : (s t : String) → text_le s t ≡ false → Before t s
Before-of_not_le s t h =
    ordering_flipped (compare s t) (compare t s) (flip-compare s t) (gt_of_false (compare s t) h)
  where
    gt_of_false :
        (o : Ordering) → elim o [ Ordering.gt ↦ false | _ ↦ true ] ≡ false → o ≡ Ordering.gt
    gt_of_false Ordering.lt e = cc
    gt_of_false Ordering.eq e = cc
    gt_of_false Ordering.gt e = refl

pub Before-of_le : (s t : String) → text_le s t ≡ true → s ≢ t → Before s t
Before-of_le s t h ne = lt_of_true (compare s t) h (λ e. ne (path_by_compare s t e))
  where
    lt_of_true :
        (o : Ordering)
        → elim o [ Ordering.gt ↦ false | _ ↦ true ] ≡ true
        → o ≢ Ordering.eq
        → o ≡ Ordering.lt
    lt_of_true Ordering.lt e d = refl
    lt_of_true Ordering.eq e d = absurd (d refl)
    lt_of_true Ordering.gt e d = cc
