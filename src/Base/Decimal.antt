-- ===== src/Base/Decimal.antt =====
-- Numbers printed and read in decimal: `String(n)` and `Number(s)` on digits.
use Prim.Native.Nat.{ℕ, zero, suc, ◌+◌, ◌-◌, ◌*◌, ◌/◌, ◌%◌, ◌<◌}
use mathlib.Core.Path.{◌≡◌, ◌∙◌, ap}
use mathlib.Core.Bool.{Bool, true, ◌&&◌}
use mathlib.Core.List.{[], ◌∷◌}
use native.Mathlib.Omega.{arith}
use advanced_search_api.Base.Tests.{ltb, leb, if◌then◌else◌, Bool-cases}
use mathlib.Core.Logic.{inl, inr}
use advanced_search_api.Base.Lists.{All}
use advanced_search_api.Base.Texts.{Text}

abbrev pub is_digit : ℕ → Bool
is_digit c = leb b'0' c && leb c b'9'

print_from : ℕ → ℕ → Text → Text
print_from zero n out = out
print_from (suc fuel) n out =
    let more = print_from fuel (n / 10) ((b'0' + n % 10) ∷ out) in
    if ltb n 10 then (b'0' + n) ∷ out else more

unfoldable pub to_decimal : ℕ → Text
unfolding print_from
to_decimal n = print_from (suc n) n []

unfoldable pub read_from : ℕ → Text → ℕ
read_from acc [] = acc
read_from acc (c ∷ s) = read_from (acc * 10 + (c - b'0')) s

unfoldable pub of_decimal : Text → ℕ
unfolding read_from
of_decimal s = read_from 0 s

read-print_from :
    (fuel n : ℕ) (out : Text) → n < fuel → read_from 0 (print_from fuel n out) ≡ read_from n out
unfolding print_from read_from
read-print_from zero n out h = elim h [ ]
read-print_from (suc fuel) n out h = elim (Bool-cases (ltb n 10)) [
  | inl small ↦ rw (small, print_from) (ap (λ k. read_from k out) (omega arith))
  | inr big ↦
      rw (big, print_from)
        (read-print_from fuel (n / 10) _ (ground arith) ∙ ap (λ k. read_from k out) (omega arith))
]

pub of_decimal-to_decimal : (n : ℕ) → of_decimal (to_decimal n) ≡ n
unfolding of_decimal to_decimal
of_decimal-to_decimal n = read-print_from (suc n) n [] (omega arith)

abbrev pub IsDigits : Text → Type 0
IsDigits s = All (λ c. is_digit c ≡ true) s

IsDigits-print_from : (fuel n : ℕ) (out : Text) → IsDigits out → IsDigits (print_from fuel n out)
unfolding print_from
IsDigits-print_from zero n out h = h
IsDigits-print_from (suc fuel) n out h =
    ground (arith, IsDigits-print_from fuel (n / 10) ((b'0' + n % 10) ∷ out))

pub to_decimal-IsDigits : (n : ℕ) → IsDigits (to_decimal n)
unfolding to_decimal
to_decimal-IsDigits n = IsDigits-print_from (suc n) n [] tt
