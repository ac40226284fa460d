-- ===== src/Base/Text.antt =====
-- Text: `strings.HasSuffix`, concatenation, and the decimal digits of `strconv.Itoa` and `%d`.
use Prim.Native.Nat.{ℕ, zero, suc, ◌+◌, ◌/◌, ◌%◌}
use Prim.Native.String.{String, ◌++◌}
use mathlib.Core.Path.{◌≡◌, refl}
use mathlib.Core.Bool.{Bool, true, ◌||◌}
use native.Mathlib.Omega.{arith}
use text.Mathlib.Text.{◌==◌}
use text.Mathlib.TextLemmas.{nil-append, cons-append}
use text.Mathlib.TextPositions.{eq_refl}
use grafana_tools.Base.Tests.{if◌then◌else◌, eqb}

abbrev pub concat : String → String → String
concat s t = s ++ t

unfoldable pub has_suffix : String → String → Bool
has_suffix String.[] suffix = "" == suffix
has_suffix (String.◌∷◌ c s) suffix = String.◌∷◌ c s == suffix || has_suffix s suffix

has_suffix_self : (s : String) → has_suffix s s ≡ true
unfolding has_suffix
has_suffix_self String.[] = refl
has_suffix_self (String.◌∷◌ c s) = rw eq_refl

pub has_suffix-concat : (s suffix : String) → has_suffix (concat s suffix) suffix ≡ true
unfolding has_suffix
has_suffix-concat String.[] suffix = rw nil-append (has_suffix_self suffix)
has_suffix-concat (String.◌∷◌ c s) suffix =
    rw cons-append (ground (arith, has_suffix-concat s suffix))

digit : ℕ → String
digit zero = "0"
digit (suc zero) = "1"
digit (suc (suc zero)) = "2"
digit (suc (suc (suc zero))) = "3"
digit (suc (suc (suc (suc zero)))) = "4"
digit (suc (suc (suc (suc (suc zero))))) = "5"
digit (suc (suc (suc (suc (suc (suc zero)))))) = "6"
digit (suc (suc (suc (suc (suc (suc (suc zero))))))) = "7"
digit (suc (suc (suc (suc (suc (suc (suc (suc zero)))))))) = "8"
digit n = "9"

-- One round for each digit; a number has at most as many digits as its value and one more.
digits : ℕ → ℕ → String → String
digits zero n acc = acc
digits (suc f) n acc =
    let rest = digits f (n / 10) (concat (digit (n % 10)) acc) in
    if eqb (n / 10) 0 then concat (digit (n % 10)) acc else rest

unfoldable pub itoa : ℕ → String
unfolding digits digit
itoa n = digits (n + 1) n ""

itoa_30 : itoa 9090 ≡ "9090"
unfolding itoa
itoa_30 = refl
