-- ===== src/Config/Loading.antt =====
-- internal/config/config.go: the numbers that the process takes from its environment.
use Prim.Native.Char.{Char}
use Prim.Native.String.{[], ◌∷◌}
use terrakojo.Prelude.{
  ◌≡◌, refl, ap, ℤ, pos, negsuc, String, Bool, true, false, eq-false_of_ne, ◌==◌, suc,
}
use terrakojo.Text.Decimal.{itoa, decimal_from}
use terrakojo.Text.Number.RoundTrip.{FitsInt64, leads, parse_int-itoa, decimal_from-leads}
use terrakojo.Config.{get_env_as_int64}

abbrev filled : String → Bool
filled [] = false
filled (c ∷ s) = true

cons-nonempty : (c : Char) (s : String) → (c ∷ s == "") ≡ false
cons-nonempty c s = eq-false_of_ne (c ∷ s) "" (λ e. let clash = ap filled e in cc)

pub leads-nonempty : (s : String) → leads s ≡ true → (s == "") ≡ false
leads-nonempty [] h = cc
leads-nonempty (c ∷ s) h = cons-nonempty c s

pub itoa-nonempty : (n : ℤ) → (itoa n == "") ≡ false
unfolding itoa
itoa-nonempty (pos n) = leads-nonempty (decimal_from (suc n) n "") (decimal_from-leads n n "")
itoa-nonempty (negsuc n) = cons-nonempty "-" (decimal_from (suc (suc n)) (suc n) "")

module _ (getenv : String → String) where
  -- Where a variable holds an int64 in decimal, that number is what the program takes from it, whatever the
  -- default is.
  pub get_env_as_int64-itoa :
      (key : String) (default n : ℤ)
      → FitsInt64 n
      → getenv key ≡ itoa n
      → get_env_as_int64 getenv key default ≡ n
  unfolding get_env_as_int64
  get_env_as_int64-itoa key default n fits e = rw (e, itoa-nonempty n, parse_int-itoa n fits) refl
