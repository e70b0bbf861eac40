-- ===== src/Text/Number/RoundTrip.antt =====
-- Printing an integer and reading it again.
use Prim.Native.Char.{code}
use Prim.Native.String.{[], ◌∷◌}
use terrakojo.Prelude.{
  ℕ, zero, suc, ℤ, pos, negsuc, ◌+◌, ◌*◌, ◌/◌, ◌%◌, ◌≤◌, ◌<◌, String, Bool, true, false, ◌≡◌, refl,
  ap, ◌∙◌, ltb, nat_eq, arith, Bool-cases, inl, inr,
}
use terrakojo.Control.Errors.{Result, ok, err}
use terrakojo.Text.Decimal.{itoa, decimal_from, digit}
use terrakojo.Text.Number.{
  parse_int, scan, max_u64, sign_bit, is_digit, signed, with_sign, parse_uint,
}

-- whether the text begins with a digit
abbrev pub leads : String → Bool
leads [] = false
leads (c ∷ s) = is_digit (code c)

digit-code : (d : ℕ) → d < 10 → code (digit d) ≡ b'0' + d
unfolding digit
digit-code zero h = refl
digit-code (suc zero) h = refl
digit-code (suc (suc zero)) h = refl
digit-code (suc (suc (suc zero))) h = refl
digit-code (suc (suc (suc (suc zero)))) h = refl
digit-code (suc (suc (suc (suc (suc zero))))) h = refl
digit-code (suc (suc (suc (suc (suc (suc zero)))))) h = refl
digit-code (suc (suc (suc (suc (suc (suc (suc zero))))))) h = refl
digit-code (suc (suc (suc (suc (suc (suc (suc (suc zero)))))))) h = refl
digit-code (suc (suc (suc (suc (suc (suc (suc (suc (suc n))))))))) h = omega arith

scan-digit :
    (d n : ℕ) (rest : String)
    → d < 10
    → n * 10 + d ≤ max_u64
    → scan n (digit d ∷ rest) ≡ scan (n * 10 + d) rest
unfolding scan
scan-digit d n rest h fits = ground (arith, digit-code d)

scan-decimal_from :
    (fuel n : ℕ) (rest : String)
    → n < fuel
    → n ≤ max_u64
    → scan 0 (decimal_from fuel n rest) ≡ scan n rest
unfolding decimal_from
scan-decimal_from zero n rest h fits = absurd (omega arith)
scan-decimal_from (suc fuel) n rest h fits = elim (Bool-cases (ltb n 10)) [
  | inl small ↦
      rw small
        (scan-digit n 0 rest (ground arith) (omega arith) ∙ ap (λ m. scan m rest) (omega arith))
  | inr large ↦ rw large (
      scan-decimal_from fuel (n / 10) (digit (n % 10) ∷ rest) (ground arith) (omega arith)
      ∙ scan-digit (n % 10) (n / 10) rest (omega arith) (omega arith)
      ∙ ap (λ m. scan m rest) (omega arith))
]

digit-is_digit : (d : ℕ) → d < 10 → is_digit (code (digit d)) ≡ true
digit-is_digit d h = ground (arith, digit-code d)

lead_kept : (fuel n : ℕ) (out : String) → leads out ≡ true → leads (decimal_from fuel n out) ≡ true
unfolding decimal_from
lead_kept zero n out h = h
lead_kept (suc fuel) n out h = elim (Bool-cases (ltb n 10)) [
  | inl small ↦ rw small (digit-is_digit n (ground arith))
  | inr large ↦
      rw large
        (lead_kept fuel (n / 10) (digit (n % 10) ∷ out) (digit-is_digit (n % 10) (omega arith)))
]

pub decimal_from-leads : (fuel n : ℕ) (out : String) → leads (decimal_from (suc fuel) n out) ≡ true
unfolding decimal_from
decimal_from-leads fuel n out = elim (Bool-cases (ltb n 10)) [
  | inl small ↦ rw small (digit-is_digit n (ground arith))
  | inr large ↦
      rw large
        (lead_kept fuel (n / 10) (digit (n % 10) ∷ out) (digit-is_digit (n % 10) (omega arith)))
]

parse_int_unsigned : (s : String) → leads s ≡ true → parse_int s ≡ with_sign false (scan 0 s)
unfolding parse_int
parse_int_unsigned [] h = cc
parse_int_unsigned (c ∷ s) h = ground arith

parse_uint-leads : (s : String) → leads s ≡ true → parse_uint s ≡ scan 0 s
parse_uint-leads [] h = cc
parse_uint-leads (c ∷ s) h = refl

-- the integers of an int64
abbrev pub FitsInt64 : ℤ → Type 0
FitsInt64 (pos n) = n < sign_bit
FitsInt64 (negsuc n) = n < sign_bit

parse_int_negative : (s : String) → parse_int ("-" ∷ s) ≡ with_sign true (parse_uint s)
unfolding parse_int
parse_int_negative s = refl

scan_printed : (n : ℕ) → n ≤ max_u64 → scan 0 (decimal_from (suc n) n "") ≡ ok n
unfolding scan
scan_printed n h = scan-decimal_from (suc n) n "" (omega arith) h

-- An int64 that is printed in decimal is read as itself.
pub parse_int-itoa : (n : ℤ) → FitsInt64 n → parse_int (itoa n) ≡ ok n
unfolding itoa
parse_int-itoa (pos n) h =
    parse_int_unsigned (decimal_from (suc n) n "") (decimal_from-leads n n "")
    ∙ ap (with_sign false) (scan_printed n (omega arith))
    ∙ ground arith
parse_int-itoa (negsuc n) h =
    parse_int_negative (decimal_from (suc (suc n)) (suc n) "")
    ∙ ap (with_sign true) (
        parse_uint-leads (decimal_from (suc (suc n)) (suc n) "")
          (decimal_from-leads (suc n) (suc n) "")
        ∙ scan_printed (suc n) (omega arith))
    ∙ ground arith

signed-FitsInt64 : (b : Bool) (m : ℕ) (n : ℤ) → signed b m ≡ ok n → FitsInt64 n
signed-FitsInt64 false m (pos n) h = ground arith
signed-FitsInt64 false m (negsuc n) h = ground arith
signed-FitsInt64 true zero (pos n) h = ground arith
signed-FitsInt64 true zero (negsuc n) h = ground arith
signed-FitsInt64 true (suc m) (pos n) h = ground arith
signed-FitsInt64 true (suc m) (negsuc n) h = ground arith

with_sign-FitsInt64 : (b : Bool) (r : Result ℕ) (n : ℤ) → with_sign b r ≡ ok n → FitsInt64 n
with_sign-FitsInt64 b (ok m) n h = signed-FitsInt64 b m n h
with_sign-FitsInt64 b (err e) n h = cc

-- What is read is an int64.
pub parse_int-FitsInt64 : (s : String) (n : ℤ) → parse_int s ≡ ok n → FitsInt64 n
unfolding parse_int
parse_int-FitsInt64 [] n h = cc
parse_int-FitsInt64 (c ∷ s) n h = elim (Bool-cases (nat_eq (code c) b'-')) [
  | inl minus ↦ with_sign-FitsInt64 true (parse_uint s) n (rw minus at h)
  | inr other ↦ elim (Bool-cases (nat_eq (code c) b'+')) [
    | inl plus ↦ with_sign-FitsInt64 false (parse_uint s) n (rw (other, plus) at h)
    | inr bare ↦ with_sign-FitsInt64 false (scan 0 (c ∷ s)) n (rw (other, bare) at h)
  ]
]
