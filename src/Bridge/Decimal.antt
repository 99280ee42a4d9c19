-- ===== src/Bridge/Decimal.antt =====
-- `%d` of `fmt`, on the natural numbers.
use mathlib.Core.List.{foldl}
use whatsmcp.Base.{
  ℕ, zero, suc, ◌+◌, ◌-◌, ◌*◌, ◌/◌, ◌%◌, ◌<◌, ◌≡◌, refl, Bool-cases, inl, inr, [], ◌∷◌, Text, codes,
  ltb, if◌then◌else◌, arith, ap,
}

-- One digit a round; the rounds that are left come first.
digits_of : ℕ → ℕ → Text → Text
digits_of zero n out = out
digits_of (suc fuel) n out =
    let more = digits_of fuel (n / 10) ((b'0' + n % 10) ∷ out) in
    if ltb n 10 then (b'0' + n) ∷ out else more

unfoldable pub decimal : ℕ → Text
unfolding digits_of
decimal n = digits_of (suc n) n []

-- The number that digits spell behind `n`.
abbrev pub value : ℕ → Text → ℕ
value = foldl (λ n c. n * 10 + (c - b'0'))

value-digits_of :
    (fuel n : ℕ) (out : Text) → n < fuel → value 0 (digits_of fuel n out) ≡ value n out
unfolding digits_of
value-digits_of zero n out h = absurd (omega arith)
value-digits_of (suc fuel) n out h = elim (Bool-cases (ltb n 10)) [
  | inl small ↦ rw small (ap (λ k. value k out) (ground arith))
  | inr big ↦
      rw (big, value-digits_of fuel (n / 10) ((b'0' + n % 10) ∷ out) (ground arith))
        (ap (λ k. value k out) (ground arith))
]

-- The fuel is enough: the digits spell the number.
pub value-decimal : (n : ℕ) → value 0 (decimal n) ≡ n
unfolding decimal
value-decimal n = value-digits_of (suc n) n [] (omega arith)

decimal_test : decimal 1204 ≡ codes "1204"
unfolding decimal
decimal_test = refl
