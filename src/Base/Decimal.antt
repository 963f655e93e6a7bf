-- ===== src/Base/Decimal.antt =====
-- Numbers in f-strings, and texts that are put together around a separator.
use Prim.Native.Nat.{ℕ, zero, suc, ◌+◌, ◌/◌, ◌%◌}
use mathlib.Core.Path.{◌≡◌, refl}
use mathlib.Core.Logic.{◌≢◌}
use mathlib.Core.Bool.{true, false}
use mathlib.Core.List.{[], ◌∷◌, ◌++◌}
use hmmp_python_sdk.Base.Tests.{ltb}
use hmmp_python_sdk.Base.Lists.{All}
use hmmp_python_sdk.Base.Keys.{Text}

-- The digits of `n`, given more rounds than it has digits.
digits : ℕ → ℕ → Text
digits zero n = []
digits (suc fuel) n = elim (ltb n 10) [
  | true ↦ (48 + n) ∷ []
  | false ↦ digits fuel (n / 10) ++ ((48 + n % 10) ∷ [])
]

-- `str(n)`
unfoldable pub decimal : ℕ → Text
unfolding digits
decimal n = digits (suc n) n

test_decimal : (decimal 8080 ≡ 56 ∷ 48 ∷ 56 ∷ 48 ∷ []) × (decimal 0 ≡ 48 ∷ [])
unfolding decimal
test_decimal = (refl, refl)

-- Texts without the separator in front of it: the parts can be told apart.
pub split_front :
    (c : ℕ) (s s' t t' : Text)
    → All (λ x. x ≢ c) s
    → All (λ x. x ≢ c) s'
    → s ++ (c ∷ t) ≡ s' ++ (c ∷ t')
    → (s ≡ s') × (t ≡ t')
split_front c [] [] t t' h h' e = (refl, cc)
split_front c [] (x ∷ s') t t' h h' e = absurd (h'.0 (cc e))
split_front c (x ∷ s) [] t t' h h' e = absurd (h.0 (cc e))
split_front c (x ∷ s) (y ∷ s') t t' h h' e =
    let (p, q) = split_front c s s' t t' h.1 h'.1 (cc e) in (cc (e, p), q)
