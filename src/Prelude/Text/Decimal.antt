-- ===== src/Prelude/Text/Decimal.antt =====
-- The decimal form of a number determines the number.
use Prim.Native.Nat.{ℕ, zero, suc, ◌+◌, ◌*◌, ◌-◌, ◌/◌, ◌%◌, ◌<◌}
use Prim.Native.String.{String}
use mathlib.Core.List.{List, [], ◌∷◌}
use mathlib.Core.Path.{◌≡◌, refl, sym, ap, ◌∙◌}
use native.Mathlib.Omega.{arith}
use octos_one.Prelude.Text.{digit, show_digits, show, codes}

-- The number that decimal digits continue.
value_from : ℕ → List ℕ → ℕ
value_from n [] = n
value_from n (c ∷ s) = value_from (n * 10 + (c - 48)) s

abbrev value : String → ℕ
value s = value_from 0 (codes s)

value_from-digit :
    (n d : ℕ) (rest : String)
    → d < 10
    → value_from n (codes (String.◌∷◌ (digit d) rest)) ≡ value_from (n * 10 + d) (codes rest)
unfolding value_from digit codes
value_from-digit n zero rest h = refl
value_from-digit n (suc zero) rest h = refl
value_from-digit n (suc (suc zero)) rest h = refl
value_from-digit n (suc (suc (suc zero))) rest h = refl
value_from-digit n (suc (suc (suc (suc zero)))) rest h = refl
value_from-digit n (suc (suc (suc (suc (suc zero))))) rest h = refl
value_from-digit n (suc (suc (suc (suc (suc (suc zero)))))) rest h = refl
value_from-digit n (suc (suc (suc (suc (suc (suc (suc zero))))))) rest h = refl
value_from-digit n (suc (suc (suc (suc (suc (suc (suc (suc zero)))))))) rest h = refl
value_from-digit n (suc (suc (suc (suc (suc (suc (suc (suc (suc zero))))))))) rest h = refl
value_from-digit n (suc (suc (suc (suc (suc (suc (suc (suc (suc (suc d)))))))))) rest h =
    omega arith

value-show_digits :
    (fuel n : ℕ) (rest : String)
    → n < fuel
    → value (show_digits fuel n rest) ≡ value_from n (codes rest)
unfolding show_digits
value-show_digits zero n rest h = omega arith
value-show_digits (suc fuel) n rest h = ground (
  arith,
  value_from-digit 0 n rest,
  value-show_digits fuel (n / 10) (String.◌∷◌ (digit (n % 10)) rest),
  value_from-digit (n / 10) (n % 10) rest,
)

value-show : (n : ℕ) → value (show n) ≡ n
unfolding show value_from codes
value-show n = value-show_digits (suc n) n "" (omega arith)

-- Two numbers with the same decimal form are the same.
pub show_injective : (m n : ℕ) → show m ≡ show n → m ≡ n
show_injective m n e = sym (value-show m) ∙ ap value e ∙ value-show n
