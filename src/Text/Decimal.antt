-- ===== src/Text/Decimal.antt =====
-- `strconv.Itoa`, and `%d` of fmt: an integer in decimal.
use Prim.Native.Char.{Char}
use Prim.Native.String.{◌∷◌}
use terrakojo.Prelude.{
  ℕ, zero, suc, ℤ, pos, negsuc, ◌/◌, ◌%◌, String, ◌≡◌, refl, ltb, if◌then◌else◌,
}

unfoldable pub digit : ℕ → Char
digit zero = "0"
digit (suc zero) = "1"
digit (suc (suc zero)) = "2"
digit (suc (suc (suc zero))) = "3"
digit (suc (suc (suc (suc zero)))) = "4"
digit (suc (suc (suc (suc (suc zero))))) = "5"
digit (suc (suc (suc (suc (suc (suc zero)))))) = "6"
digit (suc (suc (suc (suc (suc (suc (suc zero))))))) = "7"
digit (suc (suc (suc (suc (suc (suc (suc (suc zero)))))))) = "8"
digit (suc (suc (suc (suc (suc (suc (suc (suc (suc n))))))))) = "9"

-- the digits of the number in front of `out`, from the last one on; the fuel is more than the number, so it is
-- never used up
unfoldable pub decimal_from : ℕ → ℕ → String → String
decimal_from zero n out = out
decimal_from (suc fuel) n out =
    let more = decimal_from fuel (n / 10) (digit (n % 10) ∷ out) in
    if ltb n 10 then digit n ∷ out else more

unfoldable pub itoa : ℤ → String
unfolding decimal_from digit
itoa (pos n) = decimal_from (suc n) n ""
itoa (negsuc n) = "-" ∷ decimal_from (suc (suc n)) (suc n) ""

itoa_example : itoa (pos 90210) ≡ "90210"
unfolding itoa
itoa_example = refl

itoa_negative : itoa (negsuc 99) ≡ "-100"
unfolding itoa
itoa_negative = refl
