-- ===== src/Text/Number.antt =====
-- `strconv.ParseInt(s, 10, 64)`, for texts of ASCII characters: the errors are those inside its `NumError`.
pub mod RoundTrip
use Prim.Native.Char.{code}
use Prim.Native.String.{[], ◌∷◌}
use terrakojo.Prelude.{
  ℕ, zero, suc, ℤ, pos, negsuc, ◌+◌, ◌*◌, ◌-◌, ◌^◌, String, Bool, true, false, ◌≡◌, refl, ◌&&◌, not,
  leb, ltb, nat_eq, if◌then◌else◌,
}
use terrakojo.Control.Errors.{Error, Result, ok, err, message, wrap}

abbrev pub syntax_error : Error
syntax_error = wrap "strconv.ParseInt" (message "invalid syntax")

abbrev pub range_error : Error
range_error = wrap "strconv.ParseInt" (message "value out of range")

abbrev pub max_u64 : ℕ
max_u64 = 2 ^ 64 - 1

-- 1 << 63
abbrev pub sign_bit : ℕ
sign_bit = 2 ^ 63

abbrev pub is_digit : ℕ → Bool
is_digit c = leb b'0' c && leb c b'9'

-- the loop of `ParseUint`; a number that no uint64 can hold ends it
pub scan : ℕ → String → Result ℕ
scan n [] = ok n
scan n (c ∷ s) =
    let m = n * 10 + (code c - b'0') in
    if not (is_digit (code c))
    then err syntax_error
    else if ltb max_u64 m
    then err range_error
    else scan m s

abbrev pub parse_uint : String → Result ℕ
parse_uint [] = err syntax_error
parse_uint (c ∷ s) = scan 0 (c ∷ s)

-- the magnitude with its sign, if an int64 can hold it
abbrev pub signed : Bool → ℕ → Result ℤ
signed false n = if leb sign_bit n then err range_error else ok (pos n)
signed true zero = ok (pos 0)
signed true (suc n) = if ltb sign_bit (suc n) then err range_error else ok (negsuc n)

abbrev pub with_sign : Bool → Result ℕ → Result ℤ
with_sign negative (ok n) = signed negative n
with_sign negative (err e) = err e

unfoldable pub parse_int : String → Result ℤ
unfolding scan
parse_int [] = err syntax_error
parse_int (c ∷ s) =
    if nat_eq (code c) b'-'
    then with_sign true (parse_uint s)
    else if nat_eq (code c) b'+'
    then with_sign false (parse_uint s)
    else with_sign false (scan 0 (c ∷ s))

parse_int_min : parse_int "-9223372036854775808" ≡ ok (negsuc 9223372036854775807)
unfolding parse_int
parse_int_min = refl

parse_int_overflow : parse_int "9223372036854775808" ≡ err range_error
unfolding parse_int
parse_int_overflow = refl

parse_int_trailing : parse_int "12 " ≡ err syntax_error
unfolding parse_int
parse_int_trailing = refl
